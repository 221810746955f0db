-- ===== src/Drift/Laws.antt =====
-- The promises of the drift store.
use authz_plane.Common.{
  ℕ, ◌+◌, String, none, is_some, List, [], ◌∷◌, ◌&&◌, ◌==◌, if◌then◌else◌, any, map, length, ◌≡◌,
  refl, ap, ◌∙◌, sym, subst, arith,
}
use authz_plane.Common.Dict.{Dict, get}
use authz_plane.Common.Dict.Keys.{IsKeyed}
use authz_plane.Drift.Model.{Store, HealRun}
use authz_plane.Drift.Heal.{Healing, heal_loop, heal_findings}
use authz_plane.Drift.Heals.{
  open_at, open_for, listed, heal_loop-get, heal_loop-tenants, heal_loop-Tally,
}

-- After a heal a finding is gone if its identifier is in the list and it was open; every other
-- finding, acknowledged or not listed, is there as before.
pub heal_findings-get :
    (fresh : ℕ → String) (ids : List String) (s : Store) (j : String)
    → get j (heal_findings fresh ids s).1.findings
      ≡ (if listed j ids && open_at j s.findings then none else get j s.findings)
unfolding heal_findings
heal_findings-get fresh ids s j =
    heal_loop-get fresh ids j (record { tenants = []; store = s; draws = 0 })

abbrev pub run_entry : HealRun → String × String
run_entry r = (r.tenant, r.run_id)

abbrev pub run_of : String × String → HealRun
run_of e = record { tenant = e.0; run_id = e.1 }

runs_for :
    (tenant : String) (m : Dict String)
    → any (λ (r : HealRun). r.tenant == tenant) (map run_of m) ≡ is_some (get tenant m)
unfolding get
runs_for tenant [] = refl
runs_for tenant ((k, v) ∷ m) = ground (arith, runs_for tenant m)

entries_back : (m : Dict String) → map run_entry (map run_of m) ≡ m
entries_back [] = refl
entries_back (e ∷ m) = ap (λ r. e ∷ r) (entries_back m)

-- A heal answers with one run for each tenant that has an open finding in the list, and none for any
-- other tenant, and each such tenant once; the healed count grows by the number of findings taken
-- away. It is assumed that no identifier is stored twice, and that stays so.
pub heal_findings-runs :
    (fresh : ℕ → String) (ids : List String) (s : Store)
    → IsKeyed s.findings
    → IsKeyed (map run_entry (heal_findings fresh ids s).0)
      × ((tenant : String)
          → any (λ (r : HealRun). r.tenant == tenant) (heal_findings fresh ids s).0
            ≡ any (open_for tenant s.findings) ids)
      × ((heal_findings fresh ids s).1.healed_today + length (heal_findings fresh ids s).1.findings
          ≡ s.healed_today + length s.findings)
      × IsKeyed (heal_findings fresh ids s).1.findings
unfolding heal_findings get
heal_findings-runs fresh ids s k =
    let h : Healing = record { tenants = []; store = s; draws = 0 } in
    let t = heal_loop-Tally fresh ids h in
    let m = (heal_loop fresh ids h).tenants in
    (
      subst IsKeyed (sym (entries_back m)) (t.tenants IsKeyed.empty),
      λ tenant. runs_for tenant m ∙ heal_loop-tenants fresh ids tenant h,
      t.healed k,
      t.findings k,
    )
