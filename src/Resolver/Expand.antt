-- ===== src/Resolver/Expand.antt =====
-- One node of the explanation: what its children grant, and that it grants only what can be derived.
use authz_plane.Common.{
  and-cases, ℕ, suc, ◌+◌, String, some, List, [], ◌∷◌, ◌++◌, Bool, true, false, ◌&&◌, ◌||◌, ◌==◌,
  ◌≡◌, inl, inr, refl, sym, ◌∙◌, ap, arith, any, find, Memᴰ, eq_iff, Option-cases, is_some,
  any-append, or-cases, find_sound, filter_sound, mem-of_map,
}
use authz_plane.Resolver.Model.{
  TupleToUserset, RelationDef, AuthorizationModel, StoredTuple, ExplainVia, direct, ExplainNode,
  NodeHead, head_of, Ctx, depth_cap, def_of, grants, is_allowed, result_of, ExplainResult, allowed,
  denied,
}
use authz_plane.Resolver.Model
use authz_plane.Resolver.Evaluate.{
  visit, map_ctx, is_tuple, direct_leaf, targets, via_tupleset, direct_branch, expand,
  with_children,
}
use authz_plane.Resolver.Grants.{Grants, stored, computed, through}
use authz_plane.Resolver.Iterate.{is_allowed-result_of, map_ctx_sound}

pub head_of-with_children :
    (h : NodeHead) (ns : List ExplainNode) → head_of (with_children h ns) ≡ h
head_of-with_children h [] = refl
head_of-with_children h (n ∷ ns) = refl

-- What the test of a stored tuple says.
pub is_tuple_sound :
    (o r u : String) (t : StoredTuple)
    → is_tuple o r u t ≡ true
    → (t.object ≡ o) × (t.relation ≡ r) × (t.user ≡ u)
is_tuple_sound o r u t h = ground (arith, eq_iff t.object o, eq_iff t.relation r, eq_iff t.user u)

pub is_tuple_complete :
    (o r u : String) (t : StoredTuple)
    → t.object ≡ o
    → t.relation ≡ r
    → t.user ≡ u
    → is_tuple o r u t ≡ true
is_tuple_complete o r u t p q e =
    ground (arith, eq_iff t.object o, eq_iff t.relation r, eq_iff t.user u)

module _ (model : AuthorizationModel) (tuples : List StoredTuple) (provenance : Bool)
    (user : String) where
  abbrev pub Go : Type 0
  Go = String → String → ℕ → ExplainVia → Ctx → ExplainNode × Ctx

  abbrev pub leaf_at : Go
  leaf_at = direct_leaf model tuples provenance user

  pub grants-direct_leaf :
      (o r : String) (depth : ℕ) (via : ExplainVia) (c : Ctx)
      → grants (leaf_at o r depth via c).0 ≡ is_some (find (is_tuple o r user) tuples)
  unfolding direct_leaf
  grants-direct_leaf o r depth via c = ground arith

  pub grants-via_tupleset :
      (go : Go) (o : String) (depth : ℕ) (ttu : TupleToUserset) (c : Ctx)
      → grants (via_tupleset model tuples provenance user go o depth ttu c).0
        ≡ any grants
            (map_ctx
              (λ target. go target ttu.relation (depth + 2) direct)
              (targets model tuples provenance user o ttu.tupleset)
              (visit (depth + 1) c)).0
  unfolding via_tupleset
  grants-via_tupleset go o depth ttu c =
      ap (λ (h : NodeHead). is_allowed h.result) (head_of-with_children _ _)
      ∙ is_allowed-result_of _

  pub any-direct_branch :
      (b : Bool) (o r : String) (depth : ℕ) (c : Ctx)
      → any grants (direct_branch model tuples provenance user b o r depth c).0
        ≡ (b && is_some (find (is_tuple o r user) tuples))
  unfolding direct_branch direct_leaf
  any-direct_branch true o r depth c = ground arith
  any-direct_branch false o r depth c = refl

  pub targets_sound :
      (o tupleset target : String)
      → Memᴰ target (targets model tuples provenance user o tupleset)
      → (t : StoredTuple) × Memᴰ t tuples
        × (t.object ≡ o)
        × (t.relation ≡ tupleset)
        × (t.user ≡ target)
  unfolding targets
  targets_sound o tupleset target m =
      let (t, k, e) = mem-of_map _ _ m in
      let (k', test) = filter_sound _ t tuples k in (t, k', (both t test).0, (both t test).1, sym e)
    where
      both :
          (t : StoredTuple)
          → (t.object == o && t.relation == tupleset) ≡ true
          → (t.object ≡ o) × (t.relation ≡ tupleset)
      both t h = ground (arith, eq_iff t.object o, eq_iff t.relation tupleset)

  pub stored_of_find :
      {n : ℕ} (o r : String) (def : RelationDef)
      → def_of model o r ≡ some def
      → def.direct ≡ true
      → is_some (find (is_tuple o r user) tuples) ≡ true
      → Grants model tuples user (suc n) o r
  stored_of_find o r def d e h = elim (Option-cases (find (is_tuple o r user) tuples)) [
    | inl missed ↦ cc
    | inr (t, found) ↦
        let (m, test) = find_sound (is_tuple o r user) tuples found in
        let (p, q, u) = is_tuple_sound o r user t test in stored def t d e m p q u
  ]

  -- The three parts of the children of a node, with the context that each leaves.
  module _ (go : Go) (def : RelationDef) (o r : String) (depth : ℕ) (c : Ctx) where
    abbrev pub at_direct : List ExplainNode × Ctx
    at_direct = direct_branch model tuples provenance user def.direct o r depth (visit depth c)

    abbrev pub at_computed : List ExplainNode × Ctx
    at_computed = map_ctx (λ other. go o other (depth + 1) Model.computed) def.computed at_direct.1

    abbrev pub at_through : List ExplainNode × Ctx
    at_through =
        map_ctx (via_tupleset model tuples provenance user go o depth) def.tuple_to_userset
          at_computed.1

    pub grants-expand :
        (via : ExplainVia)
        → grants (expand model tuples provenance user go def o r depth via c).0
          ≡ (any grants at_direct.0 || (any grants at_computed.0 || any grants at_through.0))
    unfolding expand
    grants-expand via =
        is_allowed-result_of _
        ∙ (any-append grants at_direct.0 (at_computed.0 ++ at_through.0)
            ∙ ap (λ b. any grants at_direct.0 || b) (any-append grants at_computed.0 at_through.0))

  -- What one level of rewrites grants, given what the calls below it do.
  module _ (go : Go) (def : RelationDef) (o r : String) (depth n : ℕ)
      (e : def_of model o r ≡ some def)
      (below : (other : String) (c : Ctx)
        → grants (go o other (depth + 1) Model.computed c).0 ≡ true
        → Grants model tuples user n o other)
      (deeper : (target rel : String) (c : Ctx)
        → grants (go target rel (depth + 2) direct c).0 ≡ true
        → (m : ℕ) × (n ≡ suc m) × Grants model tuples user m target rel) where
    pub direct_branch_sound :
        (c : Ctx)
        → any grants (direct_branch model tuples provenance user def.direct o r depth c).0 ≡ true
        → Grants model tuples user (suc n) o r
    direct_branch_sound c h =
        let (d, found) = and-cases _ _ (sym (any-direct_branch def.direct o r depth c) ∙ h) in
        stored_of_find o r def e d found

    pub through_sound :
        (ttu : TupleToUserset) (c : Ctx)
        → Memᴰ ttu def.tuple_to_userset
        → grants (via_tupleset model tuples provenance user go o depth ttu c).0 ≡ true
        → Grants model tuples user (suc n) o r
    through_sound ttu c k h =
        let h' = sym (grants-via_tupleset go o depth ttu c) ∙ h in
        let (target, m, (below, same, g)) =
          map_ctx_sound (λ target. go target ttu.relation (depth + 2) direct)
            (λ target. (m : ℕ) × (n ≡ suc m) × Grants model tuples user m target ttu.relation)
            (λ target c'. deeper target ttu.relation c')
            (targets model tuples provenance user o ttu.tupleset) (visit (depth + 1) c) h' in
        let (t, mt, p, q, u) = targets_sound o ttu.tupleset target m in
        rw same (through def ttu t e k mt p q (rw u g))

    pub expand_sound :
        (via : ExplainVia) (c : Ctx)
        → grants (expand model tuples provenance user go def o r depth via c).0 ≡ true
        → Grants model tuples user (suc n) o r
    expand_sound via c h = elim (or-cases _ _ (sym (grants-expand go def o r depth c via) ∙ h)) [
      | inl ds ↦ direct_branch_sound (visit depth c) ds
      | inr more ↦ elim (or-cases _ _ more) [
        | inl cs ↦
            let (other, m, g) =
              map_ctx_sound (λ other. go o other (depth + 1) Model.computed)
                (λ other. Grants model tuples user n o other) below def.computed
                (at_direct go def o r depth c).1 cs in
            computed def other e m g
        | inr ts ↦
            let (ttu, m, g) =
              map_ctx_sound (via_tupleset model tuples provenance user go o depth)
                (λ ttu. Memᴰ ttu def.tuple_to_userset → Grants model tuples user (suc n) o r)
                (λ ttu c' h' m. through_sound ttu c' m h') def.tuple_to_userset
                (at_computed go def o r depth c).1 ts in
            g m
      ]
    ]
