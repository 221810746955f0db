-- ===== src/Reconcile/Pages.antt =====
-- Following the cursors of the list of runs.
use authz_plane.Common.{ℕ, ◌≤◌, String, Option, List, false, ◌==◌, ◌≡◌, All}
use authz_plane.Common.Dict.{Dict}
use authz_plane.Reconcile.Model.{Store}
use authz_plane.Reconcile.Runs.{RunSummary, RunListFilter, RunStats, filtered_runs, list_runs}

abbrev pub IsIdentified : List RunSummary → Type 0
IsIdentified items = All (λ (r : RunSummary). (r.id == "") ≡ false) items

-- The first run started no earlier than the second.
abbrev pub StartedLater : (String → ℕ) → RunSummary → RunSummary → Type 0
StartedLater parse_date a b = parse_date b.started_at ≤ parse_date a.started_at

module _ (parse_date : String → ℕ) (tenant_stats : Dict RunStats) (platform_stats : RunStats)
    (window_label : String) (store : Store) (f : RunListFilter) (now : String) where
  abbrev pub listed_runs : List RunSummary
  listed_runs = filtered_runs parse_date store f

  abbrev pub run_page : Option String → List RunSummary × Option String
  run_page cursor =
      let page =
        list_runs parse_date tenant_stats platform_stats window_label store
          (record f { cursor = cursor }) now in
      (page.items, page.next_cursor)
