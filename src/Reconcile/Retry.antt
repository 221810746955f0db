-- ===== src/Reconcile/Retry.antt =====
-- `retryRun`, `retryScript` and `newRunId`.
--
-- `candidates` are the identifiers that the random source gives, one after another, cut to twelve
-- digits; `now` is the time of the call.
use authz_plane.Common.{
  ℕ, ◌+◌, ◌-◌, ◌*◌, String, Option, none, some, List, [], ◌∷◌, ◌++◌, leb, eqb, not, if◌then◌else◌,
  map, find, length, template, show, text_length, text_take, text_drop,
}
use authz_plane.Common.Dict.{Dict, get, set, has}
use authz_plane.Reconcile.Model.{
  manual, applied, applying, ChangeOutcome, pending, ready, link, info, RunChange, RunDetail,
  LiveStep, Store, text,
}
use authz_plane.Reconcile.Advance.{retry_change_duration_ms}

unfoldable pub short_id : String → String
unfolding text_length text_take text_drop
short_id id =
    if leb (text_length id) 6
    then id
    else template (text_take 4 id ∷ "…" ∷ text_drop (text_length id - 2) id ∷ [])

-- The first candidate that no run has; none where the loop would go on.
abbrev pub new_run_id : List String → Dict RunDetail → Option String
new_run_id candidates runs = find (λ id. not (has id runs)) candidates

abbrev pub read_ms : ℕ
read_ms = 500

-- The entries for a change that is done and the one that comes next.
abbrev pub step_entries : RunChange → List RunChange → List (ℕ × ChangeOutcome)
step_entries c [] = (c.index, applied) ∷ []
step_entries c (next ∷ cs) = (c.index, applied) ∷ (next.index, applying) ∷ []

-- The step of change number `i`, with the changes behind it.
abbrev pub change_step : ℕ → RunChange → List RunChange → LiveStep
change_step i c cs =
    let at = read_ms + retry_change_duration_ms * (i + 1) in
    record {
      log = record {
        offset_ms = at;
        level = ready;
        text = template ("change " ∷ show c.index ∷ " ok" ∷ []);
      };
      changes = step_entries c cs;
      duration_ms = at;
      finish = none;
    }

-- One step for each change from number `i` on.
unfoldable pub change_steps : ℕ → List RunChange → List LiveStep
change_steps i [] = []
change_steps i (c ∷ cs) = change_step i c cs ∷ change_steps (i + 1) cs

abbrev pub plan_step : RunDetail → LiveStep
plan_step run = record {
  log = record {
    offset_ms = read_ms;
    level = info;
    text = template (
        "read actual · plan: "
        ∷ show (length run.changes)
        ∷ " change"
        ∷ (if eqb (length run.changes) 1 then "" else "s")
        ∷ []);
  };
  changes = [];
  duration_ms = read_ms;
  finish = none;
}

abbrev pub apply_name : RunDetail → String
apply_name run = template ("apply 1–" ∷ show (length run.changes) ∷ [])

abbrev pub last_step : RunDetail → LiveStep
last_step run =
    let total = read_ms + retry_change_duration_ms * length run.changes + 60 in
    record {
      log = record {
        offset_ms = total;
        level = ready;
        text =
            template
              ("phase Ready, observedGeneration " ∷ show run.generation ∷ " · lock released" ∷ []);
      };
      changes = [];
      duration_ms = total;
      finish = some (record {
        outcome = applied;
        phases =
            record { name = "plan"; duration_ms = 120; tone = ready; weight = 1 }
            ∷ record { name = "read actual"; duration_ms = read_ms - 120; tone = link; weight = 2 }
            ∷ record {
              name = apply_name run;
              duration_ms = total - read_ms;
              tone = ready;
              weight = 3;
            }
            ∷ [];
      });
    }

unfoldable pub retry_script : RunDetail → List LiveStep
unfolding change_steps
retry_script run = plan_step run ∷ (change_steps 0 run.changes ++ (last_step run ∷ []))

abbrev pub queued_change : RunChange → RunChange
queued_change c = record {
  index = c.index;
  kind = c.kind;
  description = c.description;
  note = some "queued";
  duration_ms = none;
  outcome = pending;
  error = none;
}

abbrev pub retried_changes : List RunChange → List RunChange
retried_changes [] = []
retried_changes (c ∷ cs) =
    record (queued_change c) { note = some "in flight"; outcome = applying } ∷ map queued_change cs

abbrev pub retried_run : RunDetail → String → String → RunDetail
retried_run original id now =
    let changes = retried_changes original.changes in
    let trace = template (id ∷ text_take 8 id ∷ []) in
    record original {
      id = id;
      trigger = manual;
      outcome = applying;
      started_at = now;
      finished_at = none;
      duration_ms = 120;
      trace_id = trace;
      change_outcomes = map (λ (c : RunChange). c.outcome) changes;
      drift_count = 0;
      attempt = none;
      retry_of = some original.id;
      phases =
          record { name = "plan"; duration_ms = 120; tone = ready; weight = 1 }
          ∷ record { name = "read actual"; duration_ms = 0; tone = link; weight = 2 }
          ∷ record {
            name = template ("apply 1–" ∷ show (length changes) ∷ []);
            duration_ms = 0;
            tone = link;
            weight = 3;
          }
          ∷ [];
      changes = changes;
      facts = record original.facts {
        advisory_lock_held_ms = none;
        outbox_message_id = none;
        snapshot_key =
            if eqb (length changes) 0
            then none
            else some
                (template ("r2://snapshots/" ∷ original.tenant_slug ∷ "/" ∷ id ∷ ".json" ∷ []));
      };
      log =
          record {
            ts = now;
            level = info;
            text = template ("claimed manual retry of " ∷ short_id original.id ∷ []);
          }
          ∷ record { ts = now; level = info; text = "acquired advisory lock" }
          ∷ [];
      trace_url = template ("https://traces.authz-plane.example/trace/" ∷ trace ∷ []);
      snapshot =
          set "takenAt" (text now)
            (set "retryOf" (text original.id) (set "runId" (text id) original.snapshot));
    }

pub data RetryResult : Type 0 where
  accepted : String → RetryResult
  refused : ℕ → String → String → RetryResult

-- None where no candidate is new. `if (replay)` asks whether the key is there: the identifiers kept
-- under keys are those of runs and never empty.
unfoldable pub retry_run :
    String → String → List String → String → Store → Option (RetryResult × Store)
unfolding get set retry_script short_id text_take
retry_run run_id key candidates now s = elim (get key s.retries_by_key) [
  | some replay ↦ some (accepted replay, s)
  | none ↦ elim (get run_id s.runs) [
    | none ↦
        some (refused 404 "Run not found" (template ("No reconcile run " ∷ run_id ∷ "." ∷ [])), s)
    | some original ↦ elim original.finished_at [
      | none ↦ some (
        refused 409 "Run still in flight" (
            template (
              "Run "
              ∷ short_id run_id
              ∷ " has not finished; wait for it to settle before retrying."
              ∷ [])),
        s,
      )
      | some t ↦ elim (new_run_id candidates s.runs) [
        | none ↦ none
        | some id ↦
            let run = retried_run original id now in
            some (
              accepted id,
              record s {
                runs = set id run s.runs;
                scripts = set id (retry_script run) s.scripts;
                retries_by_key = set key id s.retries_by_key;
              },
            )
      ]
    ]
  ]
]
