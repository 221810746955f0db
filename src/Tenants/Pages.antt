-- ===== src/Tenants/Pages.antt =====
-- Following the cursors of the list of tenants.
use authz_plane.Common.{ℕ, String, Option, List, false, ◌==◌, ◌≡◌, take, drop, All}
use authz_plane.Tenants.Types.{Phase, TenantSummary, TenantListFilter, Created}
use authz_plane.Tenants.Server.{matching, start_of, next_cursor_at, all_tenants, list_tenants}

abbrev pub IsNamed : List TenantSummary → Type 0
IsNamed ts = All (λ (t : TenantSummary). (t.slug == "") ≡ false) ts

-- A page of the items that a filter lets through.
abbrev page_of : List TenantSummary → ℕ → Option String → List TenantSummary × Option String
page_of items limit cursor =
    let start = start_of cursor items in
    let page = take limit (drop start items) in (page, next_cursor_at start limit items page)

module _ (fixed : List TenantSummary) (lower : String → String) (fleet_total : ℕ)
    (fleet_by_phase : Phase → ℕ) (fleet_with_drift : ℕ) (store : Created)
    (f : TenantListFilter) where
  abbrev pub page_at : Option String → List TenantSummary × Option String
  page_at cursor =
      let page =
        list_tenants fixed lower fleet_total fleet_by_phase fleet_with_drift store
          (record f { cursor = cursor }) in
      (page.items, page.next_cursor)

  abbrev pub listed : List TenantSummary
  listed = matching lower f (all_tenants fixed store)
