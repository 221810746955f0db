-- ===== src/Drift/Tests.antt =====
-- A store of three findings, and the theorems at it.
use authz_plane.Common.{
  Memᴰ, ◌↔◌, ℕ, ◌+◌, String, none, some, [], ◌∷◌, Bool, true, false, ◌&&◌, ◌==◌, any, filter,
  length, map, ◌≡◌, refl,
}
use mathlib.Core.List.{Perm}
use authz_plane.Common.Dict.{get, values}
use authz_plane.Common.Dict.Keys.{IsKeyed}
use authz_plane.Common.Int.{pos}
use authz_plane.Common.Sort.{Ordered}
use authz_plane.Drift.Model.{
  Severity, high, low, DriftStatus, opened, acknowledged, DriftFinding, Store, DriftListFilter,
  HealRun,
}
use authz_plane.Drift.Heal.{is_open, heal_findings}
use authz_plane.Drift.List.{in_scope, of_severity, list_drift}
use authz_plane.Drift.Heals.{open_for}
use authz_plane.Drift.Laws.{run_entry, heal_findings-get, heal_findings-runs}
use authz_plane.Drift.Order.{IsOfTenant, IsOfSeverity, Precedes, list_drift-Ordered}

abbrev finding : String → String → Severity → DriftStatus → DriftFinding
finding id tenant severity status = record {
  id = id;
  tenant = tenant;
  auto_heal = false;
  resource = record {
    kind = "zitadel.idp";
    path = "claimMappings.email";
    ref = "zitadel.idp/okta";
  };
  desired = some "email";
  actual = none;
  severity = severity;
  status = status;
  detected_at = "2026-09-04T10:00:00Z";
  detected_by_run = "a7d3";
  title = "claimMappings.email changed out-of-band";
  impact = "logins";
  evidence = record {
    actual_state_hash = "1";
    last_known_hash = "2";
    sibling_findings = 1;
    conclusion = "manual edit";
  };
  heal_plan = record { resource = "zitadel.idp"; description = "restore"; change_key = "3a91" };
  reconcile_run_id = none;
}

abbrev three : Store
three = record {
  findings =
      ("f1", finding "f1" "acme" low opened)
      ∷ ("f2", finding "f2" "acme" high opened)
      ∷ ("f3", finding "f3" "globex" high acknowledged)
      ∷ [];
  healed_today = 4;
  last_resync_at = "2026-09-04T10:00:00Z";
}

abbrev draw : ℕ → String
draw n = "aaaabbbbcccc"

abbrev no_date : String → ℕ
no_date s = 1000

abbrev no_iso : ℕ → String
no_iso n = "now"

-- A locale in which all identifiers are alike.
abbrev alike : String → String → Bool
alike a b = true

abbrev everywhere : DriftListFilter
everywhere = record { tenant = none; severity = none }

-- The stale and the acknowledged identifier are passed over.
one_run :
    (heal_findings draw ("f1" ∷ "f2" ∷ "f1" ∷ "f3" ∷ "f9" ∷ []) three).0
    ≡ record { tenant = "acme"; run_id = "aaaabbbbcccc" } ∷ []
unfolding heal_findings
one_run = refl

healed : (heal_findings draw ("f1" ∷ "f2" ∷ "f1" ∷ "f3" ∷ "f9" ∷ []) three).1.healed_today ≡ 6
unfolding heal_findings
healed = refl

severest_first :
    (list_drift no_date no_iso alike everywhere 5000 three).items
    ≡ finding "f2" "acme" high opened ∷ finding "f1" "acme" low opened ∷ []
unfolding list_drift
severest_first = refl

oldest_age :
    (list_drift no_date no_iso alike everywhere 5000 three).stats.oldest_unresolved_seconds
    ≡ some (pos 4)
unfolding list_drift
oldest_age = refl

three-IsKeyed : IsKeyed three.findings
unfolding get
three-IsKeyed = IsKeyed.entry refl (IsKeyed.entry refl (IsKeyed.entry refl IsKeyed.empty))

heal_findings-get_example :
    get "f3" (heal_findings draw ("f1" ∷ "f3" ∷ []) three).1.findings
    ≡ some (finding "f3" "globex" high acknowledged)
unfolding get
heal_findings-get_example = heal_findings-get draw ("f1" ∷ "f3" ∷ []) three "f3"

heal_findings-runs_example :
    IsKeyed (map run_entry (heal_findings draw ("f1" ∷ "f2" ∷ []) three).0)
    × ((tenant : String)
        → any (λ (r : HealRun). r.tenant == tenant) (heal_findings draw ("f1" ∷ "f2" ∷ []) three).0
          ≡ any (open_for tenant three.findings) ("f1" ∷ "f2" ∷ []))
    × ((heal_findings draw ("f1" ∷ "f2" ∷ []) three).1.healed_today
          + length (heal_findings draw ("f1" ∷ "f2" ∷ []) three).1.findings
        ≡ 4 + 3)
    × IsKeyed (heal_findings draw ("f1" ∷ "f2" ∷ []) three).1.findings
heal_findings-runs_example = heal_findings-runs draw ("f1" ∷ "f2" ∷ []) three three-IsKeyed

list_drift-Ordered_example :
    ((f : DriftFinding)
      → Memᴰ f (list_drift no_date no_iso alike everywhere 5000 three).items ↔ (
          Memᴰ f (values three.findings)
          × (f.status ≡ opened)
          × IsOfTenant everywhere.tenant f
          × IsOfSeverity everywhere.severity f))
    × Perm (list_drift no_date no_iso alike everywhere 5000 three).items (
        of_severity everywhere.severity
          (filter (λ f. is_open f && in_scope everywhere.tenant f) (values three.findings)))
    × Ordered (Precedes no_date alike) (list_drift no_date no_iso alike everywhere 5000 three).items
list_drift-Ordered_example =
    list_drift-Ordered no_date no_iso alike (λ x y h. refl) (λ x y z h k. refl) everywhere 5000
      three
