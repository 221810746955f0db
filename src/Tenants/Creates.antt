-- ===== src/Tenants/Creates.antt =====
-- What a request to create a tenant does to the list of tenants.
use authz_plane.Common.{
  String, none, some, List, [], ◌∷◌, ◌++◌, Bool, true, false, ◌||◌, ◌==◌, ◌≡◌, ◌↔◌, refl, ap, sym,
  ◌∙◌, subst, arith, any, if◌then◌else◌, Option-cases, Bool-cases, inl, inr, eq_iff, eq_refl,
  find-any, and-cases,
}
use authz_plane.Common.Dict.{get, set, values}
use authz_plane.Common.Cursor.{IsDistinctBy}
use authz_plane.Tenants.Types.{TenantSummary, CreateTenantInput, CreatedTenant, Created}
use authz_plane.Tenants.Slug.{is_slug, validate_slug}
use authz_plane.Tenants.Shapes.{validate_slug-is_slug}
use authz_plane.Tenants.Server.{
  newest_first, has_slug, parse_input, new_summary, CreateResult, created, slug_taken, malformed,
  all_tenants, find_any, is_slug_available, create_tenant,
}

-- Each created tenant is stored under its slug.
abbrev pub IsIndexed : Created → Type 0
IsIndexed [] = Unit
IsIndexed ((k, c) ∷ store) = (c.summary.slug ≡ k) × IsIndexed store

abbrev pub slug_of : TenantSummary → String
slug_of t = t.slug

-- No two tenants have one slug.
abbrev pub IsDistinct : List TenantSummary → Type 0
IsDistinct ts = IsDistinctBy slug_of ts

newest_first-append :
    (cs : List CreatedTenant) (c : CreatedTenant) (others : List TenantSummary)
    → newest_first (cs ++ (c ∷ [])) others ≡ c.summary ∷ newest_first cs others
newest_first-append [] c others = refl
newest_first-append (d ∷ cs) c others = newest_first-append cs c (d.summary ∷ others)

any-newest_first :
    (p : TenantSummary → Bool) (cs : List CreatedTenant) (others : List TenantSummary)
    → any p (newest_first cs others) ≡ (any (λ (c : CreatedTenant). p c.summary) cs || any p others)
any-newest_first p [] others = refl
any-newest_first p (c ∷ cs) others = ground (arith, any-newest_first p cs (c.summary ∷ others))

get_missing :
    (slug : String) (store : Created)
    → IsIndexed store
    → any (λ (c : CreatedTenant). has_slug slug c.summary) (values store) ≡ false
    → get slug store ≡ none
unfolding get
get_missing slug [] d h = refl
get_missing slug ((k, c) ∷ store) (e, d) h =
    let apart : (k == slug) ≡ false = ground (arith, ap (λ s. s == slug) e) in
    rw apart (get_missing slug store d (ground arith))

values-set :
    (slug : String) (c : CreatedTenant) (store : Created)
    → get slug store ≡ none
    → values (set slug c store) ≡ values store ++ (c ∷ [])
unfolding get set
values-set slug c [] h = refl
values-set slug c ((k, d) ∷ store) h = ground (arith, values-set slug c store)

set-IsIndexed :
    (c : CreatedTenant) (store : Created) → IsIndexed store → IsIndexed (set c.summary.slug c store)
unfolding set
set-IsIndexed c [] d = (refl, tt)
set-IsIndexed c ((k, x) ∷ store) (e, d) = elim (Bool-cases (k == c.summary.slug)) [
  | inl here ↦ rw here (sym ((eq_iff k c.summary.slug).0 here), d)
  | inr there ↦ rw there (e, set-IsIndexed c store d)
]

some_if :
    {A : Type 0} (b : Bool) (x y : A) → (if b then some x else none) ≡ some y → (b ≡ true) × (x ≡ y)
some_if true x y h = (refl, cc)
some_if false x y h = cc

parse_input-is_slug :
    (raw input : CreateTenantInput) → parse_input raw ≡ some input → is_slug input.slug ≡ true
unfolding parse_input
parse_input-is_slug raw input h =
    let (tests, same) = some_if _ _ input h in
    let sound = (and-cases _ _ (and-cases _ _ (and-cases _ _ tests).1).1).0 in
    subst (λ (i : CreateTenantInput). is_slug i.slug ≡ true) same sound

module _ (fixed : List TenantSummary) where
  -- No tenant has the slug, so none is stored under it.
  find_any-get :
      (store : Created) (slug : String)
      → IsIndexed store
      → find_any fixed store slug ≡ none
      → get slug store ≡ none
  unfolding find_any all_tenants
  find_any-get store slug d h =
      let absent = (find-any (has_slug slug) (newest_first (values store) fixed)).0 h in
      let both = sym (any-newest_first (has_slug slug) (values store) fixed) ∙ absent in
      get_missing slug store d (ground (arith, both))

  added :
      (store : Created) (c : CreatedTenant)
      → IsIndexed store
      → find_any fixed store c.summary.slug ≡ none
      → all_tenants fixed (set c.summary.slug c store) ≡ c.summary ∷ all_tenants fixed store
  unfolding all_tenants
  added store c d h =
      rw (values-set c.summary.slug c store (find_any-get store c.summary.slug d h))
        (newest_first-append (values store) c fixed)

  step_new :
      (raw input : CreateTenantInput) (now : String) (store : Created)
      → parse_input raw ≡ some input
      → find_any fixed store input.slug ≡ none
      → create_tenant fixed raw now store ≡ (
        created (new_summary input now),
        set input.slug (record { summary = new_summary input now; input = input }) store,
      )
  unfolding create_tenant
  step_new raw input now store parsed absent = rw (create_tenant, parsed, absent) refl

  -- A request that is well formed is answered with a new tenant exactly when the check of its slug
  -- says that the slug is available.
  pub create_tenant-available :
      (raw input : CreateTenantInput) (now : String) (store : Created)
      → parse_input raw ≡ some input
      → ((is_slug_available fixed store input.slug).available ≡ true)
        ↔ ((create_tenant fixed raw now store).0 ≡ created (new_summary input now))
  unfolding create_tenant is_slug_available
  create_tenant-available raw input now store parsed =
      let fine : validate_slug input.slug ≡ none =
        (validate_slug-is_slug input.slug).1 (parse_input-is_slug raw input parsed) in
      elim (Option-cases (find_any fixed store input.slug)) [
        | inl absent ↦ ground (arith, parsed, fine, absent)
        | inr (t, found) ↦ ground (arith, parsed, fine, found)
      ]

  -- What a new tenant changes.
  abbrev AfterCreate : Created → CreateResult × Created → Type 0
  AfterCreate store (created t, store') =
      (all_tenants fixed store' ≡ t ∷ all_tenants fixed store)
      × (is_slug t.slug ≡ true)
      × IsIndexed store'
      × IsDistinct (all_tenants fixed store')
      × (is_slug_available fixed store' t.slug
          ≡ record { available = false; reason = some "taken" })
  AfterCreate store (slug_taken message, store') = Unit
  AfterCreate store (malformed, store') = Unit

  taken :
      (store : Created) (t : TenantSummary) (ts : List TenantSummary)
      → all_tenants fixed store ≡ t ∷ ts
      → is_slug t.slug ≡ true
      → is_slug_available fixed store t.slug ≡ record { available = false; reason = some "taken" }
  unfolding is_slug_available find_any
  taken store t ts h valid =
      let fine = (validate_slug-is_slug t.slug).1 valid in
      let found : find_any fixed store t.slug ≡ some t = rw (find_any, h, eq_refl t.slug) refl in
      rw (is_slug_available, fine, found) refl

  new-AfterCreate :
      (c : CreatedTenant) (store : Created)
      → IsIndexed store
      → IsDistinct (all_tenants fixed store)
      → is_slug c.summary.slug ≡ true
      → find_any fixed store c.summary.slug ≡ none
      → AfterCreate store (created c.summary, set c.summary.slug c store)
  unfolding find_any
  new-AfterCreate c store indexed distinct valid absent =
      let first = added store c indexed absent in
      (
        first,
        valid,
        set-IsIndexed c store indexed,
        subst IsDistinct (sym first) (absent, distinct),
        taken (set c.summary.slug c store) c.summary _ first valid,
      )

  -- A request that is answered with a new tenant puts it before all others, which stay as they are
  -- and in their order. Its slug is a valid one that is taken from then on, and the slugs stay
  -- distinct. It is assumed that created tenants are stored under their slugs, which stays so, and
  -- that the slugs were distinct.
  pub create_tenant-lists :
      (raw : CreateTenantInput) (now : String) (store store' : Created) (t : TenantSummary)
      → IsIndexed store
      → IsDistinct (all_tenants fixed store)
      → create_tenant fixed raw now store ≡ (created t, store')
      → (all_tenants fixed store' ≡ t ∷ all_tenants fixed store)
        × (is_slug t.slug ≡ true)
        × IsIndexed store'
        × IsDistinct (all_tenants fixed store')
        × (is_slug_available fixed store' t.slug
            ≡ record { available = false; reason = some "taken" })
  unfolding create_tenant new_summary find_any is_slug_available
  create_tenant-lists raw now store store' t indexed distinct h =
      elim (Option-cases (parse_input raw)) [
        | inl bad ↦ ground (arith, bad)
        | inr (input, parsed) ↦ elim (Option-cases (find_any fixed store input.slug)) [
          | inr (u, found) ↦ ground (arith, parsed, found)
          | inl absent ↦
              subst (AfterCreate store) (sym (step_new raw input now store parsed absent) ∙ h) (
                new-AfterCreate (record { summary = new_summary input now; input = input }) store
                  indexed distinct (parse_input-is_slug raw input parsed) absent)
        ]
      ]
