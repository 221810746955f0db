-- ===== src/Drift/Heals.antt =====
-- What a bulk heal does to the findings, to the runs of the tenants and to the count.
use authz_plane.Common.{
  ℕ, ◌+◌, String, none, some, is_some, ◌⊎◌, List, [], ◌∷◌, Bool, true, false, ◌&&◌, ◌||◌, ◌==◌,
  if◌then◌else◌, any, any-cong, length, ◌≡◌, refl, ap, ◌∙◌, sym, subst, arith, Bool-cases,
  Option-cases, inl, inr, eq_iff,
}
use authz_plane.Common.Dict.{Dict, get, delete, get-set, get-delete}
use authz_plane.Common.Dict.Keys.{IsKeyed, set-IsKeyed, delete-IsKeyed, length-set, length-delete}
use authz_plane.Drift.Model.{DriftFinding}
use authz_plane.Drift.Heal.{is_open, Healing, run_for, heal_one, heal_step, heal_loop}

abbrev pub open_at : String → Dict DriftFinding → Bool
open_at j findings = elim (get j findings) [ none ↦ false | some f ↦ is_open f ]

-- Whether the finding of an identifier is open and of the tenant.
abbrev pub open_for : String → Dict DriftFinding → String → Bool
open_for tenant findings j = elim (get j findings) [
  | none ↦ false
  | some f ↦ is_open f && f.tenant == tenant
]

abbrev pub listed : String → List String → Bool
listed j ids = any (λ i. i == j) ids

module _ (fresh : ℕ → String) where
  heal_step-cases :
      (id : String) (h : Healing)
      → ((open_at id h.store.findings ≡ false) × (heal_step fresh id h ≡ h))
        ⊎ ((f : DriftFinding) × (get id h.store.findings ≡ some f)
            × (is_open f ≡ true)
            × (heal_step fresh id h ≡ heal_one fresh id f h))
  unfolding heal_step
  heal_step-cases id h = elim (Option-cases (get id h.store.findings)) [
    | inl missing ↦ inl (rw (open_at, missing) refl, rw (heal_step, missing) refl)
    | inr (f, e) ↦ elim (Bool-cases (is_open f)) [
      | inl opened ↦ inr (f, e, opened, rw (heal_step, e, opened) refl)
      | inr closed ↦ inl (rw (open_at, e, closed) refl, rw (heal_step, e, closed) refl)
    ]
  ]

  heal_step-get :
      (id j : String) (h : Healing)
      → get j (heal_step fresh id h).store.findings
        ≡ (if id == j && open_at j h.store.findings then none else get j h.store.findings)
  heal_step-get id j h = elim (heal_step-cases id h) [
    | inl (closed, e) ↦ elim (Bool-cases (id == j)) [
      | inl same ↦
          let c : open_at j h.store.findings ≡ false =
            subst (λ x. open_at x h.store.findings ≡ false) ((eq_iff id j).0 same) closed in
          ap (λ (x : Healing). get j x.store.findings) e ∙ sym (rw (same, c) refl)
      | inr apart ↦ ap (λ (x : Healing). get j x.store.findings) e ∙ rw apart refl
    ]
    | inr (f, here, o, e) ↦
        ap (λ (x : Healing). get j x.store.findings) e
        ∙ get-delete id j h.store.findings
        ∙ (elim (Bool-cases (id == j)) [
          | inl same ↦
              let c : open_at j h.store.findings ≡ true =
                subst (λ x. open_at x h.store.findings ≡ true) ((eq_iff id j).0 same)
                  (rw (open_at, here, o) refl) in
              rw (same, c) refl
          | inr apart ↦ rw apart refl
        ])
  ]

  pub heal_loop-get :
      (ids : List String) (j : String) (h : Healing)
      → get j (heal_loop fresh ids h).store.findings
        ≡ (if listed j ids && open_at j h.store.findings then none else get j h.store.findings)
  unfolding heal_loop
  heal_loop-get [] j h = refl
  heal_loop-get (id ∷ ids) j h =
      ground (arith, heal_loop-get ids j (heal_step fresh id h), heal_step-get id j h)

  -- The tenants with a run after a round.
  heal_one-tenants :
      (id tenant : String) (f : DriftFinding) (h : Healing)
      → is_some (get tenant (heal_one fresh id f h).tenants)
        ≡ (f.tenant == tenant || is_some (get tenant h.tenants))
  heal_one-tenants id tenant f h =
      ground (arith, get-set f.tenant tenant (run_for fresh f.tenant h).0 h.tenants)

  open_for-delete :
      (id tenant : String) (f : DriftFinding) (findings : Dict DriftFinding)
      → get id findings ≡ some f
      → (f.tenant == tenant) ≡ false
      → (j : String) → open_for tenant (delete id findings) j ≡ open_for tenant findings j
  open_for-delete id tenant f findings here other j = elim (Bool-cases (id == j)) [
    | inl same ↦
        let g : get j findings ≡ some f =
          subst (λ x. get x findings ≡ some f) ((eq_iff id j).0 same) here in
        ground (arith, get-delete id j findings, same, g, other)
    | inr apart ↦ ground (arith, get-delete id j findings, apart)
  ]

  open_for-closed :
      (id tenant : String) (findings : Dict DriftFinding)
      → open_at id findings ≡ false
      → open_for tenant findings id ≡ false
  open_for-closed id tenant findings h = elim (Option-cases (get id findings)) [
    | inl missing ↦ rw (open_for, missing) refl
    | inr (f, e) ↦ ground (arith, e, h)
  ]

  pub heal_loop-tenants :
      (ids : List String) (tenant : String) (h : Healing)
      → is_some (get tenant (heal_loop fresh ids h).tenants)
        ≡ (is_some (get tenant h.tenants) || any (open_for tenant h.store.findings) ids)
  unfolding heal_loop
  heal_loop-tenants [] tenant h = ground arith
  heal_loop-tenants (id ∷ ids) tenant h = elim (heal_step-cases id h) [
    | inl (closed, e) ↦
        ap (λ x. is_some (get tenant (heal_loop fresh ids x).tenants)) e
        ∙ heal_loop-tenants ids tenant h
        ∙ ground (arith, open_for-closed id tenant h.store.findings closed)
    | inr (f, here, o, e) ↦
        let here' : open_for tenant h.store.findings id ≡ (f.tenant == tenant) =
          rw (open_for, here, o) refl in
        ap (λ x. is_some (get tenant (heal_loop fresh ids x).tenants)) e
        ∙ heal_loop-tenants ids tenant (heal_one fresh id f h)
        ∙ (elim (Bool-cases (f.tenant == tenant)) [
          | inl own ↦ ground (arith, heal_one-tenants id tenant f h, here', own)
          | inr other ↦ ground (
            arith,
            heal_one-tenants id tenant f h,
            here',
            other,
            any-cong (open_for tenant (delete id h.store.findings))
                (open_for tenant h.store.findings) ids
                (open_for-delete id tenant f h.store.findings here other),
          )
        ])
  ]

  -- The counts after a round.
  pub record Tally (h : Healing) (h' : Healing) : Type 0 where
    pub findings : IsKeyed h.store.findings → IsKeyed h'.store.findings
    pub tenants : IsKeyed h.tenants → IsKeyed h'.tenants
    pub healed :
        IsKeyed h.store.findings
        → h'.store.healed_today + length h'.store.findings
          ≡ h.store.healed_today + length h.store.findings
    pub draws : h.draws ≡ length h.tenants → h'.draws ≡ length h'.tenants

  heal_one-Tally :
      (id : String) (f : DriftFinding) (h : Healing)
      → get id h.store.findings ≡ some f
      → Tally h (heal_one fresh id f h)
  heal_one-Tally id f h here = record {
    findings = λ k. delete-IsKeyed id h.store.findings k;
    tenants = λ k. set-IsKeyed f.tenant (run_for fresh f.tenant h).0 h.tenants k;
    healed = λ k. omega (arith, length-delete id f h.store.findings k here);
    draws = λ e. ground (arith, e, length-set f.tenant (run_for fresh f.tenant h).0 h.tenants);
  }

  pub heal_loop-Tally : (ids : List String) (h : Healing) → Tally h (heal_loop fresh ids h)
  unfolding heal_loop
  heal_loop-Tally [] h = record {
    findings = λ k. k;
    tenants = λ k. k;
    healed = λ k. refl;
    draws = λ e. e;
  }
  heal_loop-Tally (id ∷ ids) h = elim (heal_step-cases id h) [
    | inl (closed, e) ↦ subst (λ x. Tally h (heal_loop fresh ids x)) (sym e) (heal_loop-Tally ids h)
    | inr (f, here, o, e) ↦
        let one = heal_one-Tally id f h here in
        let rest = heal_loop-Tally ids (heal_one fresh id f h) in
        subst (λ x. Tally h (heal_loop fresh ids x)) (sym e)
          (record {
            findings = λ k. rest.findings (one.findings k);
            tenants = λ k. rest.tenants (one.tenants k);
            healed = λ k. rest.healed (one.findings k) ∙ one.healed k;
            draws = λ d. rest.draws (one.draws d);
          })
  ]
