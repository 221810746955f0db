-- ===== src/Reconcile/Cells.antt =====
-- What the list of runs shows of a run, and how often it is read again: lib.ts, and the tones of the
-- phases of lib/phase.ts.
use authz_plane.Common.{
  ℕ, zero, suc, String, Option, none, some, List, [], ◌∷◌, Bool, true, false, ◌||◌, eqb,
  if◌then◌else◌, any, filter, length, map, show, template,
}
use authz_plane.Reconcile.Model.{Outcome, ChangeOutcome}
use authz_plane.Reconcile.Runs.{RunSummary, is_outcome}
use authz_plane.Tenants.Types.{Phase}

pub data Tone : Type 0 where
  neutral : Tone
  link : Tone
  ready : Tone
  degraded : Tone
  failed : Tone
  drift : Tone

abbrev pub tone_for_phase : Phase → Tone
tone_for_phase Phase.ready = Tone.ready
tone_for_phase Phase.degraded = Tone.degraded
tone_for_phase Phase.failed = Tone.failed
tone_for_phase Phase.pending = Tone.link
tone_for_phase Phase.planning = Tone.link
tone_for_phase Phase.applying = Tone.link
tone_for_phase Phase.deleting = Tone.link

abbrev pub in_flight_phase : Phase → Bool
in_flight_phase Phase.planning = true
in_flight_phase Phase.applying = true
in_flight_phase Phase.deleting = true
in_flight_phase _ = false

abbrev pub outcome_tone : Outcome → Tone
outcome_tone Outcome.partial_applied = Tone.degraded
outcome_tone Outcome.drift = Tone.drift
outcome_tone Outcome.applying = Tone.link
outcome_tone Outcome.no_changes = Tone.ready
outcome_tone Outcome.failed = Tone.failed
outcome_tone Outcome.applied = Tone.ready
outcome_tone Outcome.deleting = Tone.link

abbrev pub in_flight_outcome : Outcome → Bool
in_flight_outcome Outcome.applying = true
in_flight_outcome Outcome.deleting = true
in_flight_outcome _ = false

abbrev pub is_unset : Option String → Bool
is_unset none = true
is_unset (some s) = false

abbrev pub is_in_flight : RunSummary → Bool
is_in_flight r = is_unset r.finished_at || in_flight_outcome r.outcome

abbrev pub fast_poll_ms : ℕ
fast_poll_ms = 2000

abbrev pub slow_poll_ms : ℕ
slow_poll_ms = 10000

abbrev pub live_poll_ms : ℕ
live_poll_ms = 1000

abbrev pub poll_interval_for_runs : Option (List RunSummary) → ℕ
poll_interval_for_runs none = slow_poll_ms
poll_interval_for_runs (some runs) = if any is_in_flight runs then fast_poll_ms else slow_poll_ms

-- `none` is `false`: the polling ends.
abbrev pub detail_poll_interval : Option RunSummary → Option ℕ
detail_poll_interval none = none
detail_poll_interval (some r) = if is_unset r.finished_at then some live_poll_ms else none

abbrev pub change_tone : ChangeOutcome → Tone
change_tone ChangeOutcome.applied = Tone.ready
change_tone ChangeOutcome.failed = Tone.failed
change_tone ChangeOutcome.retrying = Tone.degraded
change_tone ChangeOutcome.applying = Tone.link
change_tone ChangeOutcome.pending = Tone.neutral
change_tone ChangeOutcome.skipped = Tone.neutral

abbrev pub change_glyph : ChangeOutcome → String
change_glyph ChangeOutcome.applied = "✓"
change_glyph ChangeOutcome.failed = "✕"
change_glyph ChangeOutcome.retrying = "⚠"
change_glyph ChangeOutcome.applying = "→"
change_glyph ChangeOutcome.pending = "·"
change_glyph ChangeOutcome.skipped = "·"

-- The outcome of a segment is none for a finding of drift.
pub record ChangeSegment : Type 0 where
  pub tone : Tone
  pub outcome : Option ChangeOutcome

pub record Segments : Type 0 where
  pub segments : List ChangeSegment
  pub caption : String
  pub caption_tone : Tone
  pub label : String

pub data ChangesCell : Type 0 where
  text : String → Tone → ChangesCell
  segments : Segments → ChangesCell

abbrev pub is_applied : ChangeOutcome → Bool
is_applied ChangeOutcome.applied = true
is_applied _ = false

abbrev pub is_failed : ChangeOutcome → Bool
is_failed ChangeOutcome.failed = true
is_failed _ = false

abbrev pub repeat : ℕ → ChangeSegment → List ChangeSegment
repeat zero s = []
repeat (suc n) s = s ∷ repeat n s

abbrev pub segment_of : ChangeOutcome → ChangeSegment
segment_of o = record { tone = change_tone o; outcome = some o }

abbrev pub drift_cell : ℕ → ChangesCell
drift_cell n = segments (record {
  segments = repeat n (record { tone = Tone.drift; outcome = none });
  caption = template (show n ∷ " drift" ∷ []);
  caption_tone = Tone.drift;
  label = template (show n ∷ " drift finding" ∷ (if eqb n 1 then "" else "s") ∷ []);
})

abbrev pub summary_text : List ChangeOutcome → String
summary_text outcomes =
    let failures = length (filter is_failed outcomes) in
    template (
      show (length (filter is_applied outcomes))
      ∷ " of "
      ∷ show (length outcomes)
      ∷ " changes applied"
      ∷ (if eqb failures 0 then "" else template (", " ∷ show failures ∷ " failed" ∷ []))
      ∷ [])

-- The caption of a run: its attempt if it failed on one, the finalizers, or how much is applied.
abbrev pub caption_of : RunSummary → String × Tone × String
caption_of run =
    let outcomes = run.change_outcomes in
    let summary = summary_text outcomes in
    let plain : String × Tone × String = (
      template (show (length (filter is_applied outcomes)) ∷ "/" ∷ show (length outcomes) ∷ []),
      Tone.neutral,
      summary,
    ) in
    if is_outcome Outcome.failed run
    then elim run.attempt [
      | none ↦ plain
      | some a ↦ (
        template ("attempt " ∷ show a.n ∷ "/" ∷ show a.max ∷ []),
        Tone.failed,
        template (summary ∷ " · attempt " ∷ show a.n ∷ " of " ∷ show a.max ∷ []),
      )
    ]
    else if is_outcome Outcome.deleting run
    then ("finalizers", Tone.neutral, template (summary ∷ " · finalizers running" ∷ []))
    else plain

unfoldable pub changes_cell : RunSummary → ChangesCell
unfolding show
changes_cell run =
    if is_outcome Outcome.drift run
    then drift_cell run.drift_count
    else if eqb (length run.change_outcomes) 0
    then text "no changes" Tone.neutral
    else let (caption, tone, label) = caption_of run in
      segments (record {
        segments = map segment_of run.change_outcomes;
        caption = caption;
        caption_tone = tone;
        label = label;
      })
