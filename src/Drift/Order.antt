-- ===== src/Drift/Order.antt =====
-- Which open findings are listed, and in which order.
use authz_plane.Common.{
  ℕ, String, Option, none, some, List, Bool, true, false, ◌&&◌, filter, ◌≡◌, ◌⊎◌, ◌↔◌, ◌<◌, inl,
  inr, eqb, Memᴰ, filter_sound, filter_complete, and-cases, eq_iff, refl, ap, arith,
}
use mathlib.Core.List.{Perm}
use authz_plane.Common.Dict.{values}
use authz_plane.Common.Sort.{
  Ordered, IsSorted-Ordered, sort_by_sound, sort_by_complete, filter-sort_by-Perm, sort_by-Perm,
  sort_by, IsSorted, sort_by-IsSorted, filter-IsSorted,
}
use authz_plane.Drift.Model.{
  high, medium, low, DriftStatus, opened, acknowledged, Severity, DriftFinding, Store,
  DriftListFilter,
}
use authz_plane.Drift.Heal.{is_open}
use authz_plane.Drift.List.{
  severity_rank, in_scope, has_severity, of_severity, comes_before, open_findings, list_drift,
}

-- The findings of a tenant, where a filter that is absent or empty lets all of them pass.
abbrev pub IsOfTenant : Option String → DriftFinding → Type 0
IsOfTenant none f = Unit
IsOfTenant (some tenant) f = (tenant ≡ "") ⊎ (f.tenant ≡ tenant)

abbrev pub IsOfSeverity : Option Severity → DriftFinding → Type 0
IsOfSeverity none f = Unit
IsOfSeverity (some severity) f = f.severity ≡ severity

pub data MoreSevere : Severity → Severity → Type 0 where
  high_medium : MoreSevere high medium
  high_low : MoreSevere high low
  medium_low : MoreSevere medium low

-- The order of the list: the more severe finding first, then the later one, then by identifier.
abbrev pub Precedes : (String → ℕ) → (String → String → Bool) → DriftFinding → DriftFinding → Type 0
Precedes parse_date locale_at_most a b =
    MoreSevere a.severity b.severity
    ⊎ ((a.severity ≡ b.severity)
        × ((parse_date b.detected_at < parse_date a.detected_at)
            ⊎ ((parse_date a.detected_at ≡ parse_date b.detected_at)
                × (locale_at_most a.id b.id ≡ true))))

MoreSevere-cases :
    (a b : Severity) → MoreSevere a b ⊎ ((a ≡ b) ⊎ (severity_rank b < severity_rank a))
MoreSevere-cases high high = inr (inl refl)
MoreSevere-cases high medium = inl MoreSevere.high_medium
MoreSevere-cases high low = inl MoreSevere.high_low
MoreSevere-cases medium high = inr (inr (omega arith))
MoreSevere-cases medium medium = inr (inl refl)
MoreSevere-cases medium low = inl MoreSevere.medium_low
MoreSevere-cases low high = inr (inr (omega arith))
MoreSevere-cases low medium = inr (inr (omega arith))
MoreSevere-cases low low = inr (inl refl)

status_cases : (d : DriftStatus) → (d ≡ opened) ⊎ (d ≡ acknowledged)
status_cases opened = inl refl
status_cases acknowledged = inr refl

is_open_iff : (f : DriftFinding) → (is_open f ≡ true) ↔ (f.status ≡ opened)
is_open_iff f = elim (status_cases f.status) [
  | inl h ↦ (λ k. h, λ k. rw h refl)
  | inr h ↦ (λ k. ground (arith, h, k), λ k. cc)
]

in_scope_iff :
    (tenant : Option String) (f : DriftFinding) → (in_scope tenant f ≡ true) ↔ IsOfTenant tenant f
in_scope_iff none f = (λ h. tt, λ h. refl)
in_scope_iff (some tenant) f = ground (arith, eq_iff tenant "", eq_iff f.tenant tenant)

rank_iff : (a b : Severity) → (eqb (severity_rank a) (severity_rank b) ≡ true) ↔ (a ≡ b)
rank_iff high high = (λ h. refl, λ h. refl)
rank_iff high medium = (λ h. cc, λ h. cc)
rank_iff high low = (λ h. cc, λ h. cc)
rank_iff medium high = (λ h. cc, λ h. cc)
rank_iff medium medium = (λ h. refl, λ h. refl)
rank_iff medium low = (λ h. cc, λ h. cc)
rank_iff low high = (λ h. cc, λ h. cc)
rank_iff low medium = (λ h. cc, λ h. cc)
rank_iff low low = (λ h. refl, λ h. refl)

mem-of_severity :
    (severity : Option Severity) (scope : List DriftFinding) (f : DriftFinding)
    → Memᴰ f (of_severity severity scope) ↔ (Memᴰ f scope × IsOfSeverity severity f)
mem-of_severity none scope f = (λ m. (m, tt), λ m. m.0)
mem-of_severity (some v) scope f = (
  λ m. let (k, h) = filter_sound (has_severity v) f scope m in (k, (rank_iff f.severity v).0 h),
  λ m. filter_complete (has_severity v) f scope m.0 ((rank_iff f.severity v).1 m.1),
)

mem-scope :
    (tenant : Option String) (fs : List DriftFinding) (f : DriftFinding)
    → Memᴰ f (filter (λ g. is_open g && in_scope tenant g) fs)
      ↔ (Memᴰ f fs × (f.status ≡ opened) × IsOfTenant tenant f)
mem-scope tenant fs f = (
  λ m.
      let (k, h) = filter_sound (λ g. is_open g && in_scope tenant g) f fs m in
      let (o, t) = and-cases (is_open f) (in_scope tenant f) h in
      (k, (is_open_iff f).0 o, (in_scope_iff tenant f).0 t),
  λ m.
      filter_complete (λ g. is_open g && in_scope tenant g) f fs m.0
        (rw ((is_open_iff f).1 m.1, (in_scope_iff tenant f).1 m.2) refl),
)

module _ (parse_date : String → ℕ) (iso : ℕ → String) (locale_at_most : String → String → Bool)
    (total : (x y : String) → locale_at_most x y ≡ false → locale_at_most y x ≡ true)
    (trans : (x y z : String)
      → locale_at_most x y ≡ true
      → locale_at_most y z ≡ true
      → locale_at_most x z ≡ true) where
  before_total :
      (a b : DriftFinding)
      → comes_before parse_date iso locale_at_most a b ≡ false
      → comes_before parse_date iso locale_at_most b a ≡ true
  before_total a b h = ground (arith, total a.id b.id)

  before_trans :
      (a b c : DriftFinding)
      → comes_before parse_date iso locale_at_most a b ≡ true
      → comes_before parse_date iso locale_at_most b c ≡ true
      → comes_before parse_date iso locale_at_most a c ≡ true
  before_trans a b c h k = ground (arith, trans a.id b.id c.id)

  -- What the test says, written out.
  sound :
      (a b : DriftFinding)
      → comes_before parse_date iso locale_at_most a b ≡ true
      → Precedes parse_date locale_at_most a b
  sound a b h = elim (MoreSevere-cases a.severity b.severity) [
    | inl above ↦ inl above
    | inr (inl level) ↦ inr (level, ground (arith, level, ap severity_rank level, h))
    | inr (inr below) ↦ ground (arith, below, h)
  ]

  IsSorted-of_severity :
      (severity : Option Severity) (scope : List DriftFinding)
      → IsSorted (comes_before parse_date iso locale_at_most) scope
      → IsSorted (comes_before parse_date iso locale_at_most) (of_severity severity scope)
  IsSorted-of_severity none scope s = s
  IsSorted-of_severity (some v) scope s =
      filter-IsSorted (comes_before parse_date iso locale_at_most) (has_severity v) scope s

  of_severity-Perm :
      (severity : Option Severity) (scope : List DriftFinding)
      → Perm
          (of_severity severity (sort_by (comes_before parse_date iso locale_at_most) scope))
          (of_severity severity scope)
  of_severity-Perm none scope = sort_by-Perm (comes_before parse_date iso locale_at_most) scope
  of_severity-Perm (some v) scope =
      filter-sort_by-Perm (comes_before parse_date iso locale_at_most) (has_severity v) scope

  -- A finding is listed exactly if it is stored, open, of the tenant asked for (any, if none or an
  -- empty one is given) and of the severity asked for (any, if none is given). The list
  -- has each as often as it is stored. The list is in order, if the locale's comparison
  -- is a total order: the more severe first, then the latest first, then by identifier.
  pub list_drift-Ordered :
      (filters : DriftListFilter) (now : ℕ) (s : Store)
      → ((f : DriftFinding)
          → Memᴰ f (list_drift parse_date iso locale_at_most filters now s).items ↔ (
              Memᴰ f (values s.findings)
              × (f.status ≡ opened)
              × IsOfTenant filters.tenant f
              × IsOfSeverity filters.severity f))
        × Perm (list_drift parse_date iso locale_at_most filters now s).items (
            of_severity filters.severity
              (filter (λ f. is_open f && in_scope filters.tenant f) (values s.findings)))
        × Ordered
            (Precedes parse_date locale_at_most)
            (list_drift parse_date iso locale_at_most filters now s).items
  unfolding list_drift open_findings
  list_drift-Ordered filters now s =
      let before = comes_before parse_date iso locale_at_most in
      let scope = filter (λ f. is_open f && in_scope filters.tenant f) (values s.findings) in
      (
        λ f. (
          λ m.
              let (k, of) = (mem-of_severity filters.severity (sort_by before scope) f).0 m in
              let (stored, state, tenant) =
                (mem-scope filters.tenant (values s.findings) f).0
                  (sort_by_sound before f scope k) in
              (stored, state, tenant, of),
          λ m. (mem-of_severity filters.severity (sort_by before scope) f).1 (
            sort_by_complete before f scope
                ((mem-scope filters.tenant (values s.findings) f).1 (m.0, m.1, m.2)),
            m.3,
          ),
        ),
        of_severity-Perm filters.severity scope,
        IsSorted-Ordered before (Precedes parse_date locale_at_most) sound _ (
            IsSorted-of_severity filters.severity (sort_by before scope)
              (sort_by-IsSorted before before_total before_trans scope)),
      )
