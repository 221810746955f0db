-- ===== src/Reconcile/Runs.antt =====
-- `listRuns` and the statistics of the runs.
--
-- `parse_date` is `Date.parse`; `tenant_stats`, `platform_stats` and `window_label` are the fixtures'.
-- A ratio is the two numbers that the source divides.
use authz_plane.Common.{
  ℕ, ◌+◌, ◌-◌, ◌/◌, ◌%◌, String, Option, none, some, List, Bool, true, false, ◌||◌, ◌==◌, eqb, leb,
  ltb, if◌then◌else◌, filter, find_index, take, drop, length, map, last?, get_or, or_else, is_some,
}
use authz_plane.Common.Dict.{Dict, get, values}
use authz_plane.Common.Sort.{sort_by}
use authz_plane.Common.Cursor.{has_key}
use authz_plane.Reconcile.Model.{
  Trigger, outbox, resync, manual, backoff, delete, Outcome, partial_applied, drift, applying,
  no_changes, failed, applied, deleting, ChangeOutcome, RunAttempt, RunDetail, Store,
}

pub record RunSummary : Type 0 where
  pub id : String
  pub tenant_slug : String
  pub trigger : Trigger
  pub generation : ℕ
  pub outcome : Outcome
  pub started_at : String
  pub finished_at : Option String
  pub duration_ms : ℕ
  pub trace_id : String
  pub change_outcomes : List ChangeOutcome
  pub drift_count : ℕ
  pub attempt : Option RunAttempt
  pub retry_of : Option String

pub record RunListFilter : Type 0 where
  pub trigger : Option Trigger
  pub outcome : Option Outcome
  pub tenant : Option String
  pub cursor : Option String
  pub limit : ℕ

pub record RunStats : Type 0 where
  pub runs : ℕ
  pub median_duration_ms : ℕ
  pub no_change_ratio : ℕ × ℕ
  pub retries_in_backoff : ℕ

pub record RunPage : Type 0 where
  pub items : List RunSummary
  pub next_cursor : Option String
  pub total : ℕ
  pub stats : RunStats
  pub window : String
  pub generated_at : String

abbrev pub to_summary : RunDetail → RunSummary
to_summary r = record {
  id = r.id;
  tenant_slug = r.tenant_slug;
  trigger = r.trigger;
  generation = r.generation;
  outcome = r.outcome;
  started_at = r.started_at;
  finished_at = r.finished_at;
  duration_ms = r.duration_ms;
  trace_id = r.trace_id;
  change_outcomes = r.change_outcomes;
  drift_count = r.drift_count;
  attempt = r.attempt;
  retry_of = r.retry_of;
}

abbrev pub trigger_number : Trigger → ℕ
trigger_number outbox = 0
trigger_number resync = 1
trigger_number manual = 2
trigger_number backoff = 3
trigger_number delete = 4

abbrev pub outcome_number : Outcome → ℕ
outcome_number partial_applied = 0
outcome_number drift = 1
outcome_number applying = 2
outcome_number no_changes = 3
outcome_number failed = 4
outcome_number applied = 5
outcome_number deleting = 6

abbrev pub is_outcome : Outcome → RunSummary → Bool
is_outcome o r = eqb (outcome_number r.outcome) (outcome_number o)

-- `Math.round((a + b) / 2)` for the two in the middle of an even number of values.
unfoldable pub median : List ℕ → ℕ
unfolding sort_by
median values =
    let sorted = sort_by leb values in
    let n = length sorted in
    let mid = n / 2 in
    if eqb (length values) 0
    then 0
    else if eqb (n % 2) 1
    then get_or sorted mid 0
    else (get_or sorted (mid - 1) 0 + get_or sorted mid 0 + 1) / 2

abbrev pub in_backoff : RunSummary → Bool
in_backoff r = elim r.attempt [ none ↦ false | some a ↦ ltb a.n a.max ]

unfoldable pub derive_stats : List RunSummary → RunStats
unfolding median
derive_stats items =
    let settled = filter (λ (r : RunSummary). is_some r.finished_at) items in
    record {
      runs = length items;
      median_duration_ms = median (map (λ (r : RunSummary). r.duration_ms) settled);
      no_change_ratio =
          if eqb (length items) 0
          then (0, 1)
          else (length (filter (is_outcome no_changes) items), length items);
      retries_in_backoff = length (filter in_backoff items);
    }

abbrev pub of_tenant : Option String → RunSummary → Bool
of_tenant none r = true
of_tenant (some t) r = t == "" || r.tenant_slug == t

abbrev pub of_trigger : Option Trigger → RunSummary → Bool
of_trigger none r = true
of_trigger (some t) r = eqb (trigger_number r.trigger) (trigger_number t)

abbrev pub of_outcome : Option Outcome → RunSummary → Bool
of_outcome none r = true
of_outcome (some o) r = is_outcome o r

-- The statistics that go with the list: of the fixtures where it is not narrowed.
abbrev pub stats_for : Dict RunStats → RunStats → RunListFilter → List RunSummary → RunStats
stats_for tenant_stats platform_stats f items =
    if is_some f.trigger || is_some f.outcome then derive_stats items else elim f.tenant [
      | none ↦ platform_stats
      | some t ↦
          if t == "" then platform_stats else or_else (get t tenant_stats) (derive_stats items)
    ]

abbrev pub run_id : RunSummary → String
run_id r = r.id

-- Where the page of a cursor begins: behind the run, and at the end if there is no such run.
unfoldable pub place_of : Option String → List RunSummary → ℕ
place_of none items = 0
place_of (some cursor) items =
    if cursor == ""
    then 0
    else elim (find_index (has_key run_id cursor) items) [ none ↦ length items | some at ↦ at + 1 ]

abbrev pub last_id : List RunSummary → Option String
last_id page = elim (last? page) [ none ↦ none | some r ↦ some r.id ]

-- A page of the runs, with the cursor of the next.
abbrev pub runs_page : List RunSummary → ℕ → Option String → List RunSummary × Option String
runs_page items limit cursor =
    let rest = drop (place_of cursor items) items in
    let page = take limit rest in (page, if ltb limit (length rest) then last_id page else none)

module _ (parse_date : String → ℕ) where
  -- The comparison of the runs, with a result of at most zero.
  abbrev pub started_later : RunSummary → RunSummary → Bool
  started_later a b = leb (parse_date b.started_at) (parse_date a.started_at)

  unfoldable pub filtered_runs : Store → RunListFilter → List RunSummary
  unfolding sort_by
  filtered_runs store f = filter (of_outcome f.outcome) (
      filter (of_trigger f.trigger)
        (filter (of_tenant f.tenant) (sort_by started_later (map to_summary (values store.runs)))))

  unfoldable pub list_runs :
      Dict RunStats → RunStats → String → Store → RunListFilter → String → RunPage
  unfolding filtered_runs place_of get derive_stats
  list_runs tenant_stats platform_stats window_label store f now =
      let items = filtered_runs store f in
      let stats = stats_for tenant_stats platform_stats f items in
      let (page, next) = runs_page items f.limit f.cursor in
      record {
        items = page;
        next_cursor = next;
        total = stats.runs;
        stats = stats;
        window = window_label;
        generated_at = now;
      }
