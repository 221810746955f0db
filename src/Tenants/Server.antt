-- ===== src/Tenants/Server.antt =====
-- `listTenants`, `getTenant`, `isSlugAvailable` and `createTenant`.
--
-- `fixed` are the tenants of the fixtures, with their numbers `fleet_total`, `fleet_by_phase` and
-- `fleet_with_drift` and their details `detail_for`; `lower` is `toLowerCase`.
use authz_plane.Common.{
  ℕ, ◌+◌, String, Option, none, some, List, [], ◌∷◌, Bool, true, false, not, ◌&&◌, ◌||◌, ◌==◌, eqb,
  ltb, leb, if◌then◌else◌, filter, find, find_index, take, drop, length, last?, or_else, includes,
  is_some, show, template, utf16_length, text_take,
}
use authz_plane.Common.Chars.{trim}
use authz_plane.Common.Dict.{get, set, values}
use authz_plane.Spec.Model.{fnv1a}
use authz_plane.Tenants.Types.{
  Phase, pending, planning, applying, ready, degraded, failed, deleting, TenantSummary,
  TenantDetail, TenantListFilter, TenantPage, CreateTenantInput, SlugCheck, CreatedTenant, Created,
}
use authz_plane.Tenants.Slug.{is_slug, validate_slug}
use authz_plane.Tenants.Preview.{spec_yaml, starter_roles, starter_title}

abbrev pub phase_number : Phase → ℕ
phase_number pending = 0
phase_number planning = 1
phase_number applying = 2
phase_number ready = 3
phase_number degraded = 4
phase_number failed = 5
phase_number deleting = 6

abbrev pub same_phase : Phase → Phase → Bool
same_phase p q = eqb (phase_number p) (phase_number q)

-- Reversed, and in front of the others.
abbrev pub newest_first : List CreatedTenant → List TenantSummary → List TenantSummary
newest_first [] others = others
newest_first (c ∷ cs) others = newest_first cs (c.summary ∷ others)

abbrev pub has_slug : String → TenantSummary → Bool
has_slug slug t = t.slug == slug

abbrev pub of_phase : Option Phase → List TenantSummary → List TenantSummary
of_phase none items = items
of_phase (some p) items = filter (λ (t : TenantSummary). same_phase t.phase p) items

abbrev pub drifting : Bool → List TenantSummary → List TenantSummary
drifting false items = items
drifting true items = filter (λ (t : TenantSummary). ltb 0 t.open_drift) items

abbrev pub is_text : Option String → Bool
is_text none = false
is_text (some s) = not (s == "")

-- `items.findIndex((t) => t.slug === cursor) + 1`, from 0 where no tenant has the slug
abbrev pub behind : String → List TenantSummary → ℕ
behind cursor items = elim (find_index (has_slug cursor) items) [ none ↦ 0 | some i ↦ i + 1 ]

unfoldable pub start_of : Option String → List TenantSummary → ℕ
start_of none items = 0
start_of (some cursor) items = if cursor == "" then 0 else behind cursor items

abbrev pub last_slug : List TenantSummary → Option String
last_slug page = elim (last? page) [ none ↦ none | some t ↦ some t.slug ]

abbrev pub next_cursor_at : ℕ → ℕ → List TenantSummary → List TenantSummary → Option String
next_cursor_at start limit items page =
    if ltb (start + limit) (length items) then last_slug page else none

abbrev pub count_phases : (Phase → ℕ) → List CreatedTenant → Phase → ℕ
count_phases counts [] p = counts p
count_phases counts (c ∷ cs) p =
    count_phases (λ q. if same_phase q c.summary.phase then counts q + 1 else counts q) cs p

-- `CreateTenantInputSchema`: the display name is trimmed, and the bounds are checked.
unfoldable pub parse_input : CreateTenantInput → Option CreateTenantInput
unfolding trim utf16_length is_slug
parse_input raw =
    let name = trim raw.display_name in
    if leb 1 (utf16_length name)
      && (leb (utf16_length name) 80
          && (is_slug raw.slug
              && (elim raw.yaml_text [ none ↦ true | some text ↦ leb (utf16_length text) 64000 ]
                  && (leb 30 raw.resync_interval_seconds
                      && leb raw.resync_interval_seconds 86400))))
    then some (record raw { display_name = name })
    else none

unfoldable pub new_summary : CreateTenantInput → String → TenantSummary
unfolding fnv1a spec_yaml text_take
new_summary input now = record {
  id = text_take 6 (fnv1a (template ("tenant:" ∷ input.slug ∷ [])));
  slug = input.slug;
  display_name = input.display_name;
  phase = pending;
  generation = 1;
  observed_generation = 0;
  open_drift = 0;
  last_reconciled_at = none;
  idp = none;
  auto_heal = input.auto_heal;
  resync_interval_seconds = input.resync_interval_seconds;
  created_at = now;
  org_id = none;
  spec_hash = fnv1a (spec_yaml input);
}

pub data CreateResult : Type 0 where
  created : TenantSummary → CreateResult
  slug_taken : String → CreateResult
  malformed : CreateResult

module _ (lower : String → String) where
  abbrev pub mentions : String → TenantSummary → Bool
  mentions q t =
      includes t.slug q || (includes (lower t.display_name) q || includes (or_else t.org_id "") q)

  abbrev pub searched : Option String → List TenantSummary → List TenantSummary
  searched none items = items
  searched (some q) items = if q == "" then items else filter (mentions (lower q)) items

  unfoldable pub matching : TenantListFilter → List TenantSummary → List TenantSummary
  unfolding includes
  matching f fleet = searched f.q (drifting f.has_drift (of_phase f.phase fleet))

  abbrev pub pending_detail : CreatedTenant → TenantDetail
  pending_detail c =
      let input = c.input in
      record {
        summary = c.summary;
        last_error = none;
        observed_lag_seconds = 0;
        tuple_count = 0;
        model_version = 0;
        desired = record {
          identity_providers = [];
          model_summary =
              template ("v1 staged · " ∷ lower (starter_title input.starter_model) ∷ []);
          roles = starter_roles input.starter_model;
          user_count = 0;
          policy = template (
              "auto-heal "
              ∷ (if input.auto_heal then "on" else "off")
              ∷ " · resync "
              ∷ show input.resync_interval_seconds
              ∷ "s"
              ∷ []);
        };
      }

module _ (fixed : List TenantSummary) where
  unfoldable pub all_tenants : Created → List TenantSummary
  all_tenants store = newest_first (values store) fixed

  unfoldable pub find_any : Created → String → Option TenantSummary
  unfolding all_tenants
  find_any store slug = find (has_slug slug) (all_tenants store)

  unfoldable pub is_slug_available : Created → String → SlugCheck
  unfolding validate_slug find_any
  is_slug_available store slug = elim (validate_slug slug) [
    | some reason ↦ record { available = false; reason = some reason }
    | none ↦ elim (find_any store slug) [
      | some t ↦ record { available = false; reason = some "taken" }
      | none ↦ record { available = true; reason = none }
    ]
  ]

  unfoldable pub create_tenant : CreateTenantInput → String → Created → CreateResult × Created
  unfolding parse_input find_any new_summary set
  create_tenant raw now store = elim (parse_input raw) [
    | none ↦ (malformed, store)
    | some input ↦ elim (find_any store input.slug) [
      | some t ↦ (
        slug_taken (
            template (
              "A tenant with slug \"" ∷ input.slug
              ∷ "\" already exists. Slugs are immutable, pick another." ∷ [])),
        store,
      )
      | none ↦
          let summary = new_summary input now in
          (created summary, set input.slug (record { summary = summary; input = input }) store)
    ]
  ]

  module _ (lower : String → String) where
    unfoldable pub list_tenants : ℕ → (Phase → ℕ) → ℕ → Created → TenantListFilter → TenantPage
    unfolding all_tenants matching start_of
    list_tenants fleet_total fleet_by_phase fleet_with_drift store f =
        let items = matching lower f (all_tenants store) in
        let start = start_of f.cursor items in
        let page = take f.limit (drop start items) in
        let filtered = is_some f.phase || (f.has_drift || is_text f.q) in
        let fleet = fleet_total + length store in
        record {
          items = page;
          next_cursor = next_cursor_at start f.limit items page;
          total = if filtered then length items else fleet;
          counts = record {
            all = fleet;
            by_phase = count_phases fleet_by_phase (values store);
            with_drift = fleet_with_drift;
          };
        }

    unfoldable pub get_tenant :
        (TenantSummary → TenantDetail) → Created → String → Option TenantDetail
    unfolding get
    get_tenant detail_for store slug = elim (get slug store) [
      | some c ↦ some (pending_detail lower c)
      | none ↦ elim (find (has_slug slug) fixed) [ none ↦ none | some t ↦ some (detail_for t) ]
    ]
