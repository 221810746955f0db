-- ===== src/Spec/Restore.antt =====
-- A restore writes an old body as a new generation.
use authz_plane.Common.{
  ℕ, ◌+◌, String, Option, none, some, List, ◌∷◌, false, eqb, ◌≡◌, ◌≢◌, inl, inr, refl, ap, subst,
  ◌∙◌, sym, arith, Bool-cases, show, template,
}
use authz_plane.Common.Dict.{get}
use authz_plane.Spec.Model.{SpecVersion, SaveSpecResponse, TenantSpecState, ValidationOutcome}
use authz_plane.Spec.Save.{
  SaveResult, saved, refused, thrown, version_at, save_spec, restore_result, restore_version,
}
use authz_plane.Spec.Laws.{Entry, history, HasStatuses}
use authz_plane.Spec.History.{save_spec-history}

restored_result :
    (r : SaveResult) (answer : SaveSpecResponse)
    → restore_result r ≡ saved answer
    → r ≡ saved answer
restored_result (saved a) answer h = h
restored_result (refused f) answer h = cc
restored_result thrown answer h = cc

module _ {World : Type 0} (validate : String → Option String → ValidationOutcome)
    (enqueue : String → String → String → World → String × World) (slug : String) where
  abbrev note : ℕ → Option String
  note generation = some (template ("restore of gen " ∷ show generation ∷ List.[]))

  restore_version-save_spec :
      (generation : ℕ) (key author now : String) (state : TenantSpecState) (world : World)
      (source : SpecVersion) (answer : SaveSpecResponse)
      → version_at generation state.versions ≡ some source
      → (restore_version validate enqueue slug generation key author now state world).0
        ≡ saved answer
      → (eqb generation state.current_generation ≡ false)
        × ((save_spec validate enqueue slug source.body
              (some state.current_generation)
              key
              author
              now
              (note generation)
              state
              world).0
            ≡ saved answer)
        × ((restore_version validate enqueue slug generation key author now state world).1
            ≡ (save_spec validate enqueue slug source.body
                (some state.current_generation)
                key
                author
                now
                (note generation)
                state
                world).1)
  unfolding restore_version
  restore_version-save_spec generation key author now state world source answer e h =
      elim (Bool-cases (eqb generation state.current_generation)) [
        | inl same ↦ ground (arith, e, same)
        | inr other ↦
            let r =
              save_spec validate enqueue slug source.body (some state.current_generation) key author
                now (note generation) state world in
            let q : restore_version validate enqueue slug generation key author now state world
                ≡ (restore_result r.0, r.1, r.2) =
              rw (restore_version, e, other) refl in
            (other, restored_result r.0 answer (sym (ap (λ x. x.0) q) ∙ h), ap (λ x. x.1) q)
      ]

  -- A restore that is accepted under a new key is of a generation that is not the current one. It
  -- leaves the entries of the history as they are but for their statuses and puts one before them,
  -- with the body of the restored version and the next generation, which becomes the current one.
  -- In the new history the new version is current, the version of the observed generation is
  -- applied and all others are superseded.
  pub restore_version-history :
      (generation : ℕ) (key author now : String) (state : TenantSpecState) (world : World)
      (source : SpecVersion) (answer : SaveSpecResponse)
      → get key state.by_key ≡ none
      → version_at generation state.versions ≡ some source
      → (restore_version validate enqueue slug generation key author now state world).0
        ≡ saved answer
      → (generation ≢ state.current_generation)
        × (e : Entry) × (history
              (restore_version validate enqueue slug generation key author now state world).1
            ≡ e ∷ history state)
        × (e.body ≡ source.body)
        × (e.generation ≡ state.current_generation + 1)
        × ((restore_version validate enqueue slug generation key author now state
              world).1.current_generation
            ≡ state.current_generation + 1)
        × HasStatuses
            (restore_version validate enqueue slug generation key author now state world).1
  restore_version-history generation key author now state world source answer new e h =
      let (other, s, q) =
        restore_version-save_spec generation key author now state world source answer e h in
      let (m, good, next, added, grown, reached, numbered, same_body, by, statuses) =
        save_spec-history validate enqueue slug source.body (some state.current_generation) key
          author now (note generation) state world answer new s in
      (
        λ k. ground (arith, other, k),
        added,
        ap history q ∙ grown,
        same_body,
        numbered ∙ next,
        ap (λ (x : TenantSpecState). x.current_generation) q ∙ reached ∙ next,
        subst HasStatuses (sym q) statuses,
      )
