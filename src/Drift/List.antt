-- ===== src/Drift/List.antt =====
-- `openFindings` and `listDrift`.
--
-- `parse_date` is `Date.parse`, `iso` is `toISOString` and `locale_at_most` is `localeCompare` with a
-- result of at most zero.
use Prim.Native.String.{compare}
use text.Mathlib.Text.{is_le}
use authz_plane.Common.{
  ℕ, String, Option, none, some, List, [], ◌∷◌, Bool, true, false, not, ◌&&◌, ◌||◌, ◌==◌, ltb, eqb,
  filter, map, length, if◌then◌else◌,
}
use authz_plane.Common.Dict.{values}
use authz_plane.Common.Int.{ℤ, gtz, floor_difference}
use authz_plane.Common.Sort.{sort_by}
use authz_plane.Drift.Model.{
  Severity, high, medium, low, DriftFinding, Store, DriftListFilter, DriftList,
}
use authz_plane.Drift.Heal.{is_open}

abbrev pub severity_rank : Severity → ℕ
severity_rank high = 0
severity_rank medium = 1
severity_rank low = 2

-- A filter value that is absent or empty lets everything pass.
abbrev pub in_scope : Option String → DriftFinding → Bool
in_scope none f = true
in_scope (some tenant) f = tenant == "" || f.tenant == tenant

abbrev pub has_severity : Severity → DriftFinding → Bool
has_severity severity f = eqb (severity_rank f.severity) (severity_rank severity)

abbrev pub of_severity : Option Severity → List DriftFinding → List DriftFinding
of_severity none scope = scope
of_severity (some severity) scope = filter (has_severity severity) scope

-- `new Set(xs)`, spread into an array
unfoldable pub distinct : List String → List String
distinct [] = []
distinct (x ∷ xs) = x ∷ filter (λ y. not (y == x)) (distinct xs)

abbrev pub text_at_most : String → String → Bool
text_at_most a b = is_le (compare a b)

module _ (parse_date : String → ℕ) (iso : ℕ → String)
    (locale_at_most : String → String → Bool) where
  -- The comparison of `openFindings`, with a result of at most zero.
  abbrev pub comes_before : DriftFinding → DriftFinding → Bool
  comes_before a b =
      let ra = severity_rank a.severity in
      let rb = severity_rank b.severity in
      let ta = parse_date a.detected_at in
      let tb = parse_date b.detected_at in
      if ltb ra rb
      then true
      else if ltb rb ra
      then false
      else if ltb tb ta
      then true
      else if ltb ta tb
      then false
      else locale_at_most a.id b.id

  unfoldable pub open_findings : Store → Option String → List DriftFinding
  unfolding sort_by
  open_findings s tenant =
      sort_by comes_before (filter (λ f. is_open f && in_scope tenant f) (values s.findings))

  abbrev pub age : ℕ → DriftFinding → ℤ
  age now f = floor_difference now (parse_date f.detected_at) 1000

  -- One round of the reduction.
  abbrev pub older : ℕ → Option ℤ → DriftFinding → Option ℤ
  older now none f = some (age now f)
  older now (some acc) f = if gtz (age now f) acc then some (age now f) else some acc

  unfoldable pub oldest : ℕ → Option ℤ → List DriftFinding → Option ℤ
  oldest now acc [] = acc
  oldest now acc (f ∷ fs) = oldest now (older now acc f) fs

  unfoldable pub list_drift : DriftListFilter → ℕ → Store → DriftList
  unfolding open_findings oldest distinct sort_by
  list_drift filters now s =
      let scope = open_findings s filters.tenant in
      record {
        generated_at = iso now;
        items = of_severity filters.severity scope;
        stats = record {
          open_count = length scope;
          tenants_affected = length (distinct (map (λ (f : DriftFinding). f.tenant) scope));
          oldest_unresolved_seconds = oldest now none scope;
          healed_today = s.healed_today;
        };
        last_resync_at = s.last_resync_at;
        resync_interval_seconds = 600;
        tenants =
            sort_by text_at_most
              (distinct (map (λ (f : DriftFinding). f.tenant) (open_findings s none)));
      }
