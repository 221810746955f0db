-- ===== src/Dsl/Ends.antt =====
-- The cycle guard ends the walk: no relation is entered while it is being visited.
use authz_plane.Common.{
  ℕ, zero, suc, ◌+◌, ◌<◌, max, String, Option, none, some, List, [], ◌∷◌, true, false, not, ◌==◌,
  ◌≡◌, refl, ◌∙◌, ap, arith, filter, length, map, Memᴰ, Option-cases, Bool-cases, inl, inr, mem-map,
  filter-drops, eq_refl, length-map, length-filter,
}
use authz_plane.Common.Dict.{get}
use authz_plane.Dsl.Types.{RelationDef, TypeDef, ParsedModel}
use authz_plane.Dsl.Summary.{
  ModelSummary, Walk, Target, relation_key, is_visited, enter, leave, rewrites_of, deepest,
  depth_of, all_relations, summarize_all, summarize,
}
use authz_plane.Dsl.Depth.{
  AllKnown, Known, rewrites_of-Known, all_relations-Known, all_relations_mem,
}

-- The keys of the model that are not being visited.
key_of : Target → String
key_of (type, rel) = relation_key type rel

abbrev free : List String → List String → ℕ
free keys visiting = length (filter (λ k. not (is_visited k visiting)) keys)

filter-fresh :
    (key : String) (visiting : List String)
    → is_visited key visiting ≡ false
    → filter (λ k. not (k == key)) visiting ≡ visiting
filter-fresh key [] h = refl
filter-fresh key (k ∷ ks) h = ground (arith, filter-fresh key ks)

free-enter :
    (keys : List String) (key : String) (visiting : List String)
    → Memᴰ key keys
    → is_visited key visiting ≡ false
    → free keys (key ∷ visiting) < free keys visiting
free-enter keys key visiting m h =
    filter-drops (λ k. not (is_visited k visiting)) (λ k. not (is_visited k (key ∷ visiting))) key
      keys (λ k. weaken k) m (ground (arith, h)) (ground (arith, eq_refl key))
  where
    weaken :
        (k : String)
        → not (is_visited k (key ∷ visiting)) ≡ true
        → not (is_visited k visiting) ≡ true
    weaken k e = ground arith

-- The call returns, and what was being visited is again.
abbrev Returns : Option (ℕ × Walk) → Walk → Type 0
Returns result w = (d : ℕ) × (w' : Walk) × (result ≡ some (d, w')) × (w'.visiting ≡ w.visiting)

deepest-Returns :
    (go : TypeDef → RelationDef → Walk → Option (ℕ × Walk)) (targets : List Target)
    (visiting : List String)
    → ((type : TypeDef) (rel : RelationDef)
        → Memᴰ (type, rel) targets
        → (w : Walk) → w.visiting ≡ visiting
        → Returns (go type rel w) w)
    → (depth : ℕ) (w : Walk) → w.visiting ≡ visiting
    → Returns (deepest go targets depth w) w
unfolding deepest
deepest-Returns go [] visiting h depth w e = (depth, w, refl, refl)
deepest-Returns go ((type, rel) ∷ targets) visiting h depth w e =
    let (d, w', ran, same) = h type rel (Memᴰ.head refl) w e in
    let (d2, w2, ran2, same2) =
      deepest-Returns go targets visiting (λ t r m. h t r (Memᴰ.tail m)) (max depth (1 + d)) w'
        (same ∙ e) in
    (d2, w2, rw (deepest, ran) ran2, same2 ∙ same)

module _ (types : List TypeDef) where
  abbrev keys : List String
  keys = map key_of (all_relations types)

  key_mem :
      (type : TypeDef) (rel : RelationDef)
      → Known types (type, rel)
      → Memᴰ (relation_key type rel) keys
  unfolding key_of
  key_mem type rel k = mem-map key_of (all_relations_mem types type rel k)

  entered :
      (fuel : ℕ) (type : TypeDef) (rel : RelationDef) (w : Walk)
      → get (relation_key type rel) w.memo ≡ none
      → is_visited (relation_key type rel) w.visiting ≡ false
      → Returns
          (deepest
            (depth_of types fuel)
            (rewrites_of types type rel)
            0
            (enter (relation_key type rel) w))
          (enter (relation_key type rel) w)
      → Returns (depth_of types (suc fuel) type rel w) w
  unfolding depth_of
  entered fuel type rel w miss fresh (d, w', ran, same) = (
    d,
    leave (relation_key type rel) d w',
    rw (depth_of, miss, fresh, ran) refl,
    rw (same, eq_refl (relation_key type rel))
        (filter-fresh (relation_key type rel) w.visiting fresh),
  )

  depth_of-Returns :
      (fuel : ℕ) (type : TypeDef) (rel : RelationDef)
      → Known types (type, rel)
      → (w : Walk) → free keys w.visiting < fuel
      → Returns (depth_of types fuel type rel w) w
  unfolding depth_of
  depth_of-Returns zero type rel k w h = absurd (omega arith)
  depth_of-Returns (suc fuel) type rel k w h =
      elim (Option-cases (get (relation_key type rel) w.memo)) [
        | inr (cached, hit) ↦ (cached, w, rw (depth_of, hit) refl, refl)
        | inl miss ↦ elim (Bool-cases (is_visited (relation_key type rel) w.visiting)) [
          | inl cycle ↦ (0, w, rw (depth_of, miss, cycle) refl, refl)
          | inr fresh ↦
              let less =
                free-enter keys (relation_key type rel) w.visiting (key_mem type rel k) fresh in
              entered fuel type rel w miss fresh (
                deepest-Returns (depth_of types fuel) (rewrites_of types type rel)
                  (relation_key type rel ∷ w.visiting)
                  (λ t r m v e.
                    depth_of-Returns fuel t r (rewrites_of-Known types type rel (k.0) (t, r) m) v
                      (rw e (omega (arith, less))))
                  0 (enter (relation_key type rel) w) refl)
        ]
      ]

  summarize_all-total :
      (fuel : ℕ) (ts : List Target)
      → AllKnown types ts
      → length keys < fuel
      → (n : ℕ) (sum : ModelSummary) (w : Walk) → sum.relations + length ts ≡ n
      → (depth : ℕ) × (summarize_all (depth_of types fuel) ts sum w
          ≡ some (record sum { relations = n; depth = depth }))
  unfolding summarize_all
  summarize_all-total fuel [] k h n sum w e =
      let same : sum.relations ≡ n = omega (arith, e) in
      (sum.depth, ap (λ m. some (record sum { relations = m })) same)
  summarize_all-total fuel ((type, rel) ∷ ts) k h n sum w e =
      let (d, w', ran, same) =
        depth_of-Returns fuel type rel (k (type, rel) (Memᴰ.head refl)) w
          (omega (arith, length-filter (λ key. not (is_visited key w.visiting)) keys)) in
      let (depth, rest) =
        summarize_all-total fuel ts (λ t m. k t (Memᴰ.tail m)) h n
          (record sum { relations = sum.relations + 1; depth = max sum.depth d }) w'
          (omega (arith, e)) in
      (depth, rw (summarize_all, ran) rest)

-- The summary of a model is found with one round of fuel for each relation and one more, whatever
-- cycles its rewrites have; it counts the types and the relations of all types.
pub summarize-total :
    (model : ParsedModel)
    → (depth : ℕ) × (summarize model
        ≡ some (record {
          types = length model.types;
          relations = length (all_relations model.types);
          depth = depth;
        }))
unfolding summarize
summarize-total model =
    summarize_all-total model.types (suc (length (all_relations model.types)))
      (all_relations model.types) (all_relations-Known model.types)
      (omega (arith, length-map key_of (all_relations model.types))) _ _ _ (omega arith)
