-- ===== src/Spec/History.antt =====
-- Saves: the history only grows, a stale save is refused, a replay changes nothing.
use authz_plane.Common.{
  ℕ, ◌+◌, String, Option, none, some, ◌∷◌, true, false, ◌≡◌, inl, inr, refl, ap, subst, ◌∙◌, sym,
  arith, eq_refl, ◌==◌,
}
use authz_plane.Common.Dict.{get, get-set}
use authz_plane.Spec.Model.{SaveSpecResponse, TenantSpecState, ValidationOutcome}
use authz_plane.Spec.Save.{saved, refused, applied_body, new_version, stale, save_spec}
use authz_plane.Spec.Laws.{
  Entry, entry, history, HasStatuses, appended-HasStatuses, map-restatus, save_spec-saved,
  save_spec-replayed, save_spec-moved,
}

module _ {World : Type 0} (validate : String → Option String → ValidationOutcome)
    (enqueue : String → String → String → World → String × World) (slug : String) where
  -- A save that is accepted under a new key edited the current generation, has a valid body, and
  -- makes the next generation the current one: its entry, with the body and the author of the save,
  -- comes before all the entries of the history, which stay as they are but for their statuses. In
  -- the new history the new version is current, the version of the observed generation is applied
  -- and all others are superseded.
  pub save_spec-history :
      (body : String) (if_match : Option ℕ) (key author now : String) (override : Option String)
      (state : TenantSpecState) (world : World) (answer : SaveSpecResponse)
      → get key state.by_key ≡ none
      → (save_spec validate enqueue slug body if_match key author now override state world).0
        ≡ saved answer
      → (if_match ≡ some state.current_generation)
        × ((validate body (applied_body state)).valid ≡ true)
        × (answer.generation ≡ state.current_generation + 1)
        × (e : Entry) × (history
              (save_spec validate enqueue slug body if_match key author now override state world).1
            ≡ e ∷ history state)
        × ((save_spec validate enqueue slug body if_match key author now override state
              world).1.current_generation
            ≡ answer.generation)
        × (e.generation ≡ answer.generation)
        × (e.body ≡ body)
        × (e.author ≡ author)
        × HasStatuses
            (save_spec validate enqueue slug body if_match key author now override state world).1
  save_spec-history body if_match key author now override state world answer new h =
      elim (save_spec-saved validate enqueue slug body if_match key author now override state world
        answer h) [
          | inl (e, q) ↦ cc
          | inr (n, m, good, a) ↦
              let added = new_version (state.current_generation + 1) author now a.summary body in
              (
                m,
                good,
                a.next,
                entry added,
                ap history a.after
                    ∙ ap (λ es. entry added ∷ es)
                        (map-restatus (state.current_generation + 1) state.observed_generation
                          state.versions),
                ap (λ (x : TenantSpecState). x.current_generation) a.after ∙ sym a.next,
                sym a.next,
                refl,
                refl,
                subst HasStatuses (sym a.after) (
                    appended-HasStatuses (state.current_generation + 1) author now a.summary body
                      key answer state),
              )
        ]

  -- After an accepted save, every save with its key gives the same answer again and changes nothing,
  -- whatever body it carries and whichever generation it edited.
  pub save_spec_replay :
      (body : String) (if_match : Option ℕ) (key author now : String) (override : Option String)
      (state : TenantSpecState) (world : World) (answer : SaveSpecResponse) (body' : String)
      (if_match' : Option ℕ) (author' now' : String) (override' : Option String) (world' : World)
      → (save_spec validate enqueue slug body if_match key author now override state world).0
        ≡ saved answer
      → save_spec validate enqueue slug body' if_match' key author' now' override'
          (save_spec validate enqueue slug body if_match key author now override state world).1
          world'
        ≡ (
          saved answer,
          (save_spec validate enqueue slug body if_match key author now override state world).1,
          world',
        )
  save_spec_replay body if_match key author now override state world answer body' if_match' author'
        now' override' world' h =
      save_spec-replayed validate enqueue slug body' if_match' key author' now' override'
        (save_spec validate enqueue slug body if_match key author now override state world).1 world'
        answer
        (elim (save_spec-saved validate enqueue slug body if_match key author now override state
          world answer h) [
            | inl (e, q) ↦ ap (λ (x : TenantSpecState). get key x.by_key) q ∙ e
            | inr (n, m, good, a) ↦
                ap (λ (x : TenantSpecState). get key x.by_key) a.after
                ∙ get-set key key answer state.by_key
                ∙ rw (eq_refl key) refl
          ])

  -- Of two saves that edited the same generation the second is refused as stale and changes nothing,
  -- if the first is accepted, neither key is known before and the
  -- keys differ.
  pub save_spec-stale :
      (body : String) (edited : ℕ) (key author now : String) (override : Option String)
      (state : TenantSpecState) (world : World) (answer : SaveSpecResponse)
      (body' key' author' now' : String) (override' : Option String) (world' : World)
      → get key state.by_key ≡ none
      → get key' state.by_key ≡ none
      → (key == key') ≡ false
      → (save_spec validate enqueue slug body (some edited) key author now override state world).0
        ≡ saved answer
      → save_spec validate enqueue slug body'
          (some edited)
          key'
          author'
          now'
          override'
          (save_spec validate enqueue slug body (some edited) key author now override state world).1
          world'
        ≡ (
          refused (stale edited (edited + 1)),
          (save_spec validate enqueue slug body
              (some edited)
              key
              author
              now
              override
              state
              world).1,
          world',
        )
  save_spec-stale body edited key author now override state world answer body' key' author' now'
        override' world' new new' apart h =
      elim (save_spec-saved validate enqueue slug body (some edited) key author now override state
        world answer h) [
          | inl (e, q) ↦ cc
          | inr (n, m, good, a) ↦
              let same : edited ≡ state.current_generation = cc in
              save_spec-moved validate enqueue slug body' edited (edited + 1) key' author' now'
                override'
                (save_spec validate enqueue slug body (some edited) key author now override state
                  world).1
                world'
                (ap (λ (x : TenantSpecState). get key' x.by_key) a.after
                  ∙ get-set key key' answer state.by_key
                  ∙ rw apart new')
                (ap (λ (x : TenantSpecState). x.current_generation) a.after
                  ∙ ap (λ n. n + 1) (sym same))
                (ground arith)
        ]
