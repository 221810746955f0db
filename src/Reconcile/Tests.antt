-- ===== src/Reconcile/Tests.antt =====
-- A store with one settled run, and the theorems at it.
use authz_plane.Common.{
  ℕ, map, String, Option, none, some, List, [], ◌∷◌, true, ◌==◌, is_some, ◌≡◌, refl, ap, sym, ◌∙◌,
  inl, inr, Memᴰ, arith, Bool-cases, eq_iff,
}
use authz_plane.Common.Dict.{get}
use authz_plane.Reconcile.Model.{
  outbox, Outcome, partial_applied, ChangeOutcome, RunChange, RunDetail, Store,
}
use authz_plane.Reconcile.Runs.{
  RunListFilter, RunStats, to_summary, median, derive_stats, list_runs,
}
use authz_plane.Reconcile.Cells.{Tone, segments, segment_of, poll_interval_for_runs, changes_cell}
use authz_plane.Reconcile.Advance.{get_run}
use authz_plane.Reconcile.Retry.{RetryResult, accepted, refused, retry_run}
use authz_plane.Reconcile.Polls.{poll}
use authz_plane.Reconcile.Settle.{started, IsTracked, retry_run_settles}
use authz_plane.Reconcile.Track.{Refusal, retry_run_replay, IsTracked-steps}

abbrev no_date : String → ℕ
no_date s = 1000

abbrev no_iso : ℕ → String
no_iso n = "2026-09-04T10:15:00Z"

abbrev change : ℕ → ChangeOutcome → RunChange
change index outcome = record {
  index = index;
  kind = "fga.tuple";
  description = "write";
  note = none;
  duration_ms = some 92;
  outcome = outcome;
  error = none;
}

abbrev half_done : RunDetail
half_done = record {
  id = "8f1c9e4b27d2";
  tenant_slug = "acme-air";
  trigger = outbox;
  generation = 7;
  outcome = partial_applied;
  started_at = "2026-09-04T10:14:00Z";
  finished_at = some "2026-09-04T10:14:03Z";
  duration_ms = 3000;
  trace_id = "8f1c9e4b27d28f1c";
  change_outcomes = ChangeOutcome.applied ∷ ChangeOutcome.failed ∷ [];
  drift_count = 0;
  attempt = none;
  retry_of = none;
  phases = [];
  changes = change 1 ChangeOutcome.applied ∷ change 2 ChangeOutcome.failed ∷ [];
  facts = record {
    advisory_lock_held_ms = some 3000;
    outbox_message_id = none;
    worker = "worker-1";
    snapshot_key = none;
    spec_hash = "b7e21f04";
    actual_hash = "b7e21f04";
  };
  log = [];
  trace_url = "https://traces.authz-plane.example/trace/8f1c9e4b27d28f1c";
  snapshot = [];
}

abbrev one_run : Store
one_run = record {
  runs = ("8f1c9e4b27d2", half_done) ∷ [];
  live_step = [];
  scripts = [];
  retries_by_key = [];
}

-- The first candidate is taken, the second is new.
abbrev candidates : List String
candidates = "8f1c9e4b27d2" ∷ "aaaabbbbcccc" ∷ []

abbrev after : Store
after = started half_done "aaaabbbbcccc" "key-1" "2026-09-04T10:15:00Z" one_run

retried :
    retry_run "8f1c9e4b27d2" "key-1" candidates "2026-09-04T10:15:00Z" one_run
    ≡ some (accepted "aaaabbbbcccc", after)
unfolding retry_run
retried = refl

refused_unknown :
    retry_run "c0127be4d9a6" "key-1" candidates "now" one_run
    ≡ some (refused 404 "Run not found" "No reconcile run c0127be4d9a6.", one_run)
unfolding retry_run
refused_unknown = refl

refused_in_flight :
    retry_run "aaaabbbbcccc" "key-2" candidates "now" after
    ≡ some (
      refused 409 "Run still in flight"
          "Run aaaa…cc has not finished; wait for it to settle before retrying.",
      after,
    )
unfolding retry_run
refused_in_flight = refl

abbrev id_or_empty : Option RunDetail → String
id_or_empty none = ""
id_or_empty (some run) = run.id

one_run-IsTracked : IsTracked one_run
unfolding get
one_run-IsTracked = record {
  keyed = λ j run e. elim (Bool-cases ("8f1c9e4b27d2" == j)) [
    | inl here ↦
        let at : get j one_run.runs ≡ some half_done = rw here refl in
        let same : Option.some half_done ≡ some run = sym at ∙ e in
        ap id_or_empty (sym same) ∙ (eq_iff "8f1c9e4b27d2" j).0 here
    | inr there ↦ ground (arith, there, e)
  ];
  counted = λ j e. refl;
}

retry_run_settles_example :
    (get "aaaabbbbcccc" one_run.runs ≡ none)
    × (run : RunDetail) × (get "aaaabbbbcccc" after.runs ≡ some run)
    × (run.tenant_slug ≡ "acme-air")
    × (run.retry_of ≡ some "8f1c9e4b27d2")
    × (done : RunDetail) × (get "aaaabbbbcccc" (poll no_date no_iso 4 "aaaabbbbcccc" after).runs
        ≡ some done)
    × (done.outcome ≡ Outcome.applied)
    × (is_some done.finished_at ≡ true)
    × ((c : RunChange) → Memᴰ c done.changes → c.outcome ≡ ChangeOutcome.applied)
unfolding get
retry_run_settles_example =
    retry_run_settles no_date no_iso "8f1c9e4b27d2" "key-1" candidates "2026-09-04T10:15:00Z"
      "aaaabbbbcccc" one_run after half_done one_run-IsTracked refl refl retried

retry_run_replay_example :
    retry_run "c0127be4d9a6" "key-1" [] "later" after ≡ some (accepted "aaaabbbbcccc", after)
retry_run_replay_example =
    retry_run_replay "8f1c9e4b27d2" "key-1" candidates "2026-09-04T10:15:00Z" "aaaabbbbcccc" one_run
      after "c0127be4d9a6" [] "later" retried

IsTracked-steps_example :
    ((id : String) → IsTracked (get_run no_date no_iso id one_run).1)
    × ((run_id key : String) (candidates : List String) (now : String) (s' : Store)
          (r : RetryResult)
        → retry_run run_id key candidates now one_run ≡ some (r, s')
        → IsTracked s')
    × ((run_id key : String) (candidates : List String) (now : String) (s' : Store) (status : ℕ)
          (title detail : String)
        → retry_run run_id key candidates now one_run ≡ some (refused status title detail, s')
        → (s' ≡ one_run) × (get key one_run.retries_by_key ≡ none) × Refusal run_id status one_run)
IsTracked-steps_example = IsTracked-steps no_date no_iso one_run one_run-IsTracked

abbrev second : RunDetail
second = record half_done { id = "aaaabbbbcccc"; finished_at = none }

abbrev two_runs : Store
two_runs = record one_run { runs = ("8f1c9e4b27d2", half_done) ∷ ("aaaabbbbcccc", second) ∷ [] }

abbrev no_stats : RunStats
no_stats = record {
  runs = 0;
  median_duration_ms = 0;
  no_change_ratio = (0, 1);
  retries_in_backoff = 0;
}

abbrev any_run : RunListFilter
any_run = record { trigger = some outbox; outcome = none; tenant = none; cursor = none; limit = 1 }

median_of_four : median (7 ∷ 1 ∷ 4 ∷ 2 ∷ []) ≡ 3
unfolding median
median_of_four = refl

polled_fast : poll_interval_for_runs (some (to_summary half_done ∷ to_summary second ∷ [])) ≡ 2000
polled_fast = refl

one_page : list_runs no_date [] no_stats "last 6h" two_runs any_run "now" ≡ record {
  items = to_summary half_done ∷ [];
  next_cursor = some "8f1c9e4b27d2";
  total = 2;
  stats = derive_stats (to_summary half_done ∷ to_summary second ∷ []);
  window = "last 6h";
  generated_at = "now";
}
unfolding list_runs
one_page = refl

one_cell :
    changes_cell (to_summary half_done)
    ≡ segments (record {
      segments = map segment_of half_done.change_outcomes;
      caption = "1/2";
      caption_tone = Tone.neutral;
      label = "1 of 2 changes applied, 1 failed";
    })
unfolding changes_cell
one_cell = refl
