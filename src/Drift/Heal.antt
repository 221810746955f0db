-- ===== src/Drift/Heal.antt =====
-- `healFindings`, `acknowledgeFinding`, `getDriftFinding` and `resyncAll`.
--
-- `fresh` gives the identifiers of the random source, by the number of the draw.
use authz_plane.Common.{
  ℕ, ◌+◌, String, Option, none, some, List, [], ◌∷◌, Bool, true, false, if◌then◌else◌, map,
}
use authz_plane.Common.Dict.{Dict, get, set, delete}
use authz_plane.Drift.Model.{opened, acknowledged, DriftFinding, Store, HealRun, ResyncResponse}

abbrev pub is_open : DriftFinding → Bool
is_open f = elim f.status [ opened ↦ true | acknowledged ↦ false ]

unfoldable pub get_drift_finding : String → Store → Option DriftFinding
unfolding get
get_drift_finding id s = get id s.findings

-- The runs by tenant, the store and the number of draws so far.
pub record Healing : Type 0 where
  pub tenants : Dict String
  pub store : Store
  pub draws : ℕ

module _ (fresh : ℕ → String) where
  -- The run of a tenant, which is drawn if it has none yet.
  abbrev pub run_for : String → Healing → String × ℕ
  run_for tenant h = elim (get tenant h.tenants) [
    | some run_id ↦ (run_id, h.draws)
    | none ↦ (fresh h.draws, h.draws + 1)
  ]

  abbrev pub heal_one : String → DriftFinding → Healing → Healing
  heal_one id f h = record {
    tenants = set f.tenant (run_for f.tenant h).0 h.tenants;
    store = record h.store {
      findings = delete id h.store.findings;
      healed_today = h.store.healed_today + 1;
    };
    draws = (run_for f.tenant h).1;
  }

  -- One round of the loop.
  unfoldable pub heal_step : String → Healing → Healing
  unfolding get set delete
  heal_step id h = elim (get id h.store.findings) [
    | none ↦ h
    | some f ↦ if is_open f then heal_one id f h else h
  ]

  unfoldable pub heal_loop : List String → Healing → Healing
  unfolding heal_step
  heal_loop [] h = h
  heal_loop (id ∷ ids) h = heal_loop ids (heal_step id h)

  unfoldable pub heal_findings : List String → Store → List HealRun × Store
  unfolding heal_loop
  heal_findings ids s =
      let h = heal_loop ids (record { tenants = []; store = s; draws = 0 }) in
      (map (λ (e : String × String). record { tenant = e.0; run_id = e.1 }) h.tenants, h.store)

unfoldable pub acknowledge_finding : String → Store → Option DriftFinding × Store
unfolding get set
acknowledge_finding id s = elim (get id s.findings) [
  | none ↦ (none, s)
  | some f ↦
      let next = record f { status = acknowledged } in
      (some next, record s { findings = set id next s.findings })
]

unfoldable pub resync_all : String → Store → ResyncResponse × Store
resync_all now s =
    (record { status = "accepted"; scheduled_at = now }, record s { last_resync_at = now })
