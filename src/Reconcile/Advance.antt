-- ===== src/Reconcile/Advance.antt =====
-- `getRun` and `advanceLive`: a read moves a run in flight on by one step of its script.
--
-- `parse_date` and `iso` are JavaScript's `Date.parse` and `toISOString`.
use authz_plane.Common.{
  ℕ, ◌+◌, String, Option, none, some, List, [], ◌∷◌, ◌++◌, ◌||◌, ◌==◌, eqb, if◌then◌else◌, map,
  or_else, get_elem?,
}
use authz_plane.Common.Dict.{get, set}
use authz_plane.Reconcile.Model.{
  ChangeOutcome, applied, applying, RunChange, RunDetail, Finish, LiveStep, Store,
}

abbrev pub retry_change_duration_ms : ℕ
retry_change_duration_ms = 180

-- An entry of `step.changes`; of two with one key the later counts.
unfoldable pub outcome_at : ℕ → List (ℕ × ChangeOutcome) → Option ChangeOutcome
outcome_at i [] = none
outcome_at i ((j, o) ∷ entries) = elim (outcome_at i entries) [
  | some o' ↦ some o'
  | none ↦ if eqb j i then some o else none
]

abbrev pub new_note : ChangeOutcome → Option String → Option String
new_note applied none = none
new_note applied (some words) =
    if words == "in flight" || words == "queued" then none else some words
new_note applying before = some "in flight"
new_note _ before = before

abbrev pub new_duration : ChangeOutcome → Option ℕ → Option ℕ
new_duration applied duration = some (or_else duration retry_change_duration_ms)
new_duration _ duration = duration

unfoldable pub step_change : LiveStep → RunChange → RunChange
unfolding outcome_at
step_change step c = elim (outcome_at c.index step.changes) [
  | none ↦ c
  | some o ↦ record c {
    outcome = o;
    note = new_note o c.note;
    duration_ms = new_duration o c.duration_ms;
  }
]

module _ (parse_date : String → ℕ) (iso : ℕ → String) where
  abbrev pub finish_run : Option Finish → ℕ → RunDetail → RunDetail
  finish_run none duration run = run
  finish_run (some finish) duration run = record run {
    outcome = finish.outcome;
    phases = finish.phases;
    finished_at = some (iso (parse_date run.started_at + duration));
    facts = record run.facts { advisory_lock_held_ms = some duration };
  }

  unfoldable pub step_run : LiveStep → RunDetail → RunDetail
  unfolding step_change
  step_run step run =
      let changes = map (step_change step) run.changes in
      finish_run step.finish step.duration_ms (record run {
        changes = changes;
        change_outcomes = map (λ (c : RunChange). c.outcome) changes;
        duration_ms = step.duration_ms;
        log =
            run.log
            ++ (record {
              ts = iso (parse_date run.started_at + step.log.offset_ms);
              level = step.log.level;
              text = step.log.text;
            }
                ∷ []);
      })

  unfoldable pub advance_live : RunDetail → Store → RunDetail × Store
  unfolding step_run get set
  advance_live run s = elim (get run.id s.scripts) [
    | none ↦ (run, s)
    | some script ↦
        let i = or_else (get run.id s.live_step) 0 in
        elim (get_elem? script i) [
          | none ↦ (run, s)
          | some step ↦
              let next = step_run step run in
              (
                next,
                record s {
                  live_step = set run.id (i + 1) s.live_step;
                  runs = set run.id next s.runs;
                },
              )
        ]
  ]

  unfoldable pub get_run : String → Store → Option RunDetail × Store
  unfolding advance_live get
  get_run run_id s = elim (get run_id s.runs) [
    | none ↦ (none, s)
    | some run ↦ elim run.finished_at [
      | some t ↦ (some run, s)
      | none ↦ let (next, s') = advance_live run s in (some next, s')
    ]
  ]
