-- ===== src/Spec/Laws.antt =====
-- The branches of a save, and the history of a specification.
use authz_plane.Common.{
  ℕ, ◌+◌, String, Option, none, some, List, [], ◌∷◌, true, false, eqb, map, ◌≡◌, ◌≢◌, ◌⊎◌, ◌↔◌, All,
  inl, inr, refl, ap, ◌∙◌, sym, arith, Bool-cases, Option-cases, template,
}
use authz_plane.Common.Dict.{get}
use authz_plane.Spec.Model.{
  current, applied, SpecVersion, SaveSpecResponse, TenantSpecState, ValidationOutcome,
}
use authz_plane.Spec.Save.{
  saved, refused, thrown, current_version, applied_body, summary_of, restatus, new_version, stale,
  appended, append_version, save_spec,
}

-- What no later save changes of a version: all but its status.
pub record Entry : Type 0 where
  pub generation : ℕ
  pub author : String
  pub created_at : String
  pub hash : String
  pub summary : String
  pub body : String

abbrev pub entry : SpecVersion → Entry
entry v = record {
  generation = v.generation;
  author = v.author;
  created_at = v.created_at;
  hash = v.hash;
  summary = v.summary;
  body = v.body;
}

abbrev pub history : TenantSpecState → List Entry
history state = map entry state.versions

-- The status of a version where `now` is the current generation and `observed` the one last seen
-- applied: current for the first, applied for the second unless that is the first, and superseded
-- for all others.
abbrev pub HasStatus : ℕ → ℕ → SpecVersion → Type 0
HasStatus now observed v =
    ((v.status ≡ current) ↔ (v.generation ≡ now))
    × ((v.status ≡ applied) ↔ ((v.generation ≡ observed) × (v.generation ≢ now)))

-- Every version of the history has the status that belongs to its generation.
abbrev pub HasStatuses : TenantSpecState → Type 0
HasStatuses state =
    All (HasStatus state.current_generation state.observed_generation) state.versions

restatus-HasStatus :
    (g observed : ℕ) (v : SpecVersion) → HasStatus g observed (restatus g observed v)
restatus-HasStatus g observed v = ground arith

map-restatus-HasStatus :
    (g observed : ℕ) (vs : List SpecVersion)
    → All (HasStatus g observed) (map (restatus g observed) vs)
map-restatus-HasStatus g observed [] = tt
map-restatus-HasStatus g observed (v ∷ vs) =
    (restatus-HasStatus g observed v, map-restatus-HasStatus g observed vs)

new_version-HasStatus :
    (g observed : ℕ) (author now summary body : String)
    → HasStatus g observed (new_version g author now summary body)
new_version-HasStatus g observed author now summary body = ground arith

pub appended-HasStatuses :
    (g : ℕ) (author now summary body key : String) (answer : SaveSpecResponse)
    (state : TenantSpecState)
    → HasStatuses (appended (new_version g author now summary body) key answer state)
appended-HasStatuses g author now summary body key answer state = (
  new_version-HasStatus g state.observed_generation author now summary body,
  map-restatus-HasStatus g state.observed_generation state.versions,
)

pub map-restatus :
    (g observed : ℕ) (vs : List SpecVersion)
    → map entry (map (restatus g observed) vs) ≡ map entry vs
map-restatus g observed [] = refl
map-restatus g observed (v ∷ vs) = ap (λ es. entry v ∷ es) (map-restatus g observed vs)

saved_inj : {a b : SaveSpecResponse} → saved a ≡ saved b → a ≡ b
saved_inj h = cc

module _ {World : Type 0} (validate : String → Option String → ValidationOutcome)
    (enqueue : String → String → String → World → String × World) (slug : String) where
  -- What a save under a new key with an answer did.
  pub record Appended (body key author now : String) (answer : SaveSpecResponse)
      (state state' : TenantSpecState) : Type 0 where
    pub summary : String
    pub next : answer.generation ≡ state.current_generation + 1
    pub after :
        state'
        ≡ appended
            (new_version (state.current_generation + 1) author now summary body)
            key
            answer
            state

  run_of : String → String → World → String
  run_of key now world = (enqueue slug (template (key ∷ ":reconcile" ∷ [])) now world).0

  append_version-Appended :
      (body key author now : String) (override : Option String) (state : TenantSpecState)
      (world : World) (answer : SaveSpecResponse)
      → (append_version validate enqueue slug body key author now override state world).0
        ≡ saved answer
      → Appended body key author now answer state
          (append_version validate enqueue slug body key author now override state world).1
  unfolding run_of append_version
  append_version-Appended body key author now override state world answer h =
      elim (Option-cases (summary_of override (current_version state) body)) [
        | inl missing ↦
            let q : (append_version validate enqueue slug body key author now override state
                  world).0
                ≡ thrown =
              rw (append_version, missing) refl in
            cc
        | inr (words, e) ↦
            let a : SaveSpecResponse = record {
              generation = state.current_generation + 1;
              run_id = run_of key now world;
            } in
            let new = new_version (state.current_generation + 1) author now words body in
            let q : (append_version validate enqueue slug body key author now override state
                  world).0
                ≡ saved a =
              rw (append_version, e) refl in
            let t : (append_version validate enqueue slug body key author now override state
                  world).1
                ≡ appended new key a state =
              rw (append_version, e) refl in
            let same : answer ≡ a = saved_inj (sym h ∙ q) in
            record {
              summary = words;
              next = ap (λ (x : SaveSpecResponse). x.generation) same;
              after = t ∙ ap (λ x. appended new key x state) (sym same);
            }
      ]

  pub save_spec-saved :
      (body : String) (if_match : Option ℕ) (key author now : String) (override : Option String)
      (state : TenantSpecState) (world : World) (answer : SaveSpecResponse)
      → (save_spec validate enqueue slug body if_match key author now override state world).0
        ≡ saved answer
      → ((get key state.by_key ≡ some answer)
          × ((save_spec validate enqueue slug body if_match key author now override state world).1
              ≡ state))
        ⊎ ((get key state.by_key ≡ none)
            × (if_match ≡ some state.current_generation)
            × ((validate body (applied_body state)).valid ≡ true)
            × Appended body key author now answer state
                (save_spec validate enqueue slug body if_match key author now override state
                  world).1)
  unfolding save_spec
  save_spec-saved body if_match key author now override state world answer h =
      elim (Option-cases (get key state.by_key)) [
        | inr (replay, e) ↦
            let q : save_spec validate enqueue slug body if_match key author now override state
                  world
                ≡ (saved replay, state, world) =
              rw (save_spec, e) refl in
            inl (e ∙ ap some (saved_inj (sym (ap (λ r. r.0) q) ∙ h)), ap (λ r. r.1) q)
        | inl new ↦ elim (Option-cases if_match) [
          | inl absent ↦ ground (arith, new, absent)
          | inr (edited, m) ↦ elim (Bool-cases (eqb edited state.current_generation)) [
            | inr moved ↦ ground (arith, new, m, moved)
            | inl same ↦ elim (Bool-cases (validate body (applied_body state)).valid) [
              | inr bad ↦ ground (arith, new, m, same, bad)
              | inl good ↦
                  let q : save_spec validate enqueue slug body if_match key author now override
                        state world
                      ≡ append_version validate enqueue slug body key author now override state
                          world =
                    rw (save_spec, new, m, same, good) refl in
                  inr (
                    new,
                    m ∙ ap some (ground (arith, same)),
                    good,
                    rw q (
                        append_version-Appended body key author now override state world answer
                          (sym (ap (λ r. r.0) q) ∙ h)),
                  )
            ]
          ]
        ]
      ]

  pub save_spec-replayed :
      (body : String) (if_match : Option ℕ) (key author now : String) (override : Option String)
      (state : TenantSpecState) (world : World) (answer : SaveSpecResponse)
      → get key state.by_key ≡ some answer
      → save_spec validate enqueue slug body if_match key author now override state world
        ≡ (saved answer, state, world)
  unfolding save_spec
  save_spec-replayed body if_match key author now override state world answer e =
      rw (save_spec, e) refl

  pub save_spec-moved :
      (body : String) (edited reached : ℕ) (key author now : String) (override : Option String)
      (state : TenantSpecState) (world : World)
      → get key state.by_key ≡ none
      → state.current_generation ≡ reached
      → eqb edited reached ≡ false
      → save_spec validate enqueue slug body (some edited) key author now override state world
        ≡ (refused (stale edited reached), state, world)
  unfolding save_spec
  save_spec-moved body edited reached key author now override state world new at apart =
      let apart' : eqb edited state.current_generation ≡ false = rw at apart in
      let q : save_spec validate enqueue slug body (some edited) key author now override state world
          ≡ (refused (stale edited state.current_generation), state, world) =
        rw (save_spec, new, apart') refl in
      q ∙ ap (λ g. (refused (stale edited g), state, world)) at
