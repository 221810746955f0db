-- ===== src/Resolver/Complete.antt =====
-- The resolver allows all that can be derived, within the depth cap or where the cap was not hit.
use authz_plane.Common.{
  ℕ, zero, suc, ◌+◌, ◌≤◌, ◌<◌, String, some, List, Bool, true, false, ◌&&◌, ◌||◌, ◌==◌, ◌≡◌, inl,
  inr, ◌∙◌, ap, arith, any, Memᴰ, if◌then◌else◌, eq_iff, Bool-cases, Option-cases, ltb, eqb, length,
  or-true_right, or-true_left, find_complete, filter_complete, mem-map, subst,
}
use authz_plane.Resolver.Model.{
  TupleToUserset, RelationDef, AuthorizationModel, StoredTuple, ExplainVia, direct, ExplainNode,
  Ctx, depth_cap, def_of, grants,
}
use authz_plane.Resolver.Model
use authz_plane.Resolver.Evaluate.{
  visit, is_tuple, direct_leaf, targets, via_tupleset, branch_count, expand, evaluate,
}
use authz_plane.Resolver.Grants.{Grants, stored, computed, through}
use authz_plane.Resolver.Expand.{
  grants-direct_leaf, grants-via_tupleset, any-direct_branch, grants-expand, is_tuple_complete,
}
use authz_plane.Resolver.Sound.{run, evaluate-step, evaluate-cut}
use authz_plane.Resolver.Keeps.{
  Clear, Call, Keeps, Go, GoKeeps, map_ctx_flagged, direct_leaf-Keeps, via_tupleset-Keeps,
  through-Keeps, expand-Keeps, ds, cs, ts,
}

-- How much room a derivation has: with `strict` any, otherwise it fits below the cap.
abbrev pub Fits : Bool → ℕ → ℕ → Type 0
Fits true n depth = Unit
Fits false n depth = n + depth ≤ suc depth_cap

Fits-down : (strict : Bool) (n depth : ℕ) → Fits strict (suc n) depth → Fits strict n (depth + 1)
Fits-down true n depth h = tt
Fits-down false n depth h = omega arith

Fits-through :
    (strict : Bool) (n depth : ℕ) → Fits strict (suc (suc n)) depth → Fits strict n (depth + 2)
Fits-through true n depth h = tt
Fits-through false n depth h = omega arith

targets_complete :
    (model : AuthorizationModel) (tuples : List StoredTuple) (provenance : Bool) (user : String)
    (o tupleset : String) (t : StoredTuple)
    → Memᴰ t tuples
    → t.object ≡ o
    → t.relation ≡ tupleset
    → Memᴰ t.user (targets model tuples provenance user o tupleset)
unfolding targets
targets_complete model tuples provenance user o tupleset t m p q =
    mem-map (λ (s : StoredTuple). s.user) (filter_complete _ t tuples m (test t p q))
  where
    test :
        (s : StoredTuple)
        → s.object ≡ o
        → s.relation ≡ tupleset
        → (s.object == o && s.relation == tupleset) ≡ true
    test s p q = ground (arith, eq_iff s.object o, eq_iff s.relation tupleset)

length-mem : {A : Type 0} {x : A} {xs : List A} → Memᴰ x xs → 1 ≤ length xs
length-mem (Memᴰ.head e) = omega arith
length-mem (Memᴰ.tail m) = omega arith

module _ (model : AuthorizationModel) (tuples : List StoredTuple) (provenance : Bool)
    (user : String) where
  abbrev go : ℕ → Go
  go fuel = run model tuples provenance user fuel

  evaluate-Keeps : (fuel : ℕ) → GoKeeps (go fuel)
  unfolding evaluate
  evaluate-Keeps zero o r depth via c h = cc
  evaluate-Keeps (suc fuel) o r depth via c h = elim (Bool-cases (ltb depth_cap depth)) [
    | inl cut ↦
        cc ((evaluate-cut model tuples provenance user (suc fuel) o r depth via c (ground arith)).1)
    | inr under ↦ elim (Option-cases (def_of model o r)) [
      | inl missing ↦ ground arith
      | inr (def, found) ↦
          at_node def
            (subst (λ (p : ExplainNode × Ctx). p.1.depth_cap_hit ≡ false)
              (evaluate-step model tuples provenance user fuel o r depth via c def under found) h)
            (λ h'.
              expand-Keeps model tuples provenance user (go fuel) (evaluate-Keeps fuel) def o r
                depth c via h')
    ]
  ]
    where
      at_node :
          (def : RelationDef)
          → (if eqb (branch_count model tuples provenance user def) 1 && def.direct
              then direct_leaf model tuples provenance user o r depth via c
              else expand model tuples provenance user
                  (go fuel)
                  def
                  o
                  r
                  depth
                  via
                  c).1.depth_cap_hit
            ≡ false
          → ((expand model tuples provenance user (go fuel) def o r depth via c).1.depth_cap_hit
                ≡ false
              → c.depth_cap_hit ≡ false)
          → c.depth_cap_hit ≡ false
      at_node def h' k =
          elim (Bool-cases (eqb (branch_count model tuples provenance user def) 1 && def.direct)) [
            | inl only ↦
                direct_leaf-Keeps model tuples provenance user o r depth via c (rw only at h')
            | inr many ↦ k (rw many at h')
          ]

  Clear-Keeps :
      (strict : Bool) (f : Call) (c : Ctx) → Keeps f → Clear strict (f c).1 → Clear strict c
  Clear-Keeps true f c k h = k c h
  Clear-Keeps false f c k h = tt

  -- Above the cap nothing can be left to derive.
  beyond :
      (strict : Bool) (fuel n : ℕ) (o r : String) (depth : ℕ) (via : ExplainVia) (c : Ctx)
      → Fits strict (suc n) depth
      → depth_cap < depth
      → Clear strict (go fuel o r depth via c).1
      → ⊥
  beyond true fuel n o r depth via c h k clear =
      cc ((evaluate-cut model tuples provenance user fuel o r depth via c k).1)
  beyond false fuel n o r depth via c h k clear = omega arith

  -- One level, given what the calls below it grant.
  module _ (strict : Bool) (fuel : ℕ) (o r : String) (depth : ℕ) (via : ExplainVia) (c : Ctx)
      (def : RelationDef) (found : def_of model o r ≡ some def)
      (under : ltb depth_cap depth ≡ false)
      (clear : Clear strict (go (suc fuel) o r depth via c).1) where
    abbrev is_leaf : Bool
    is_leaf = eqb (branch_count model tuples provenance user def) 1 && def.direct

    abbrev node : ExplainNode × Ctx
    node = expand model tuples provenance user (go fuel) def o r depth via c

    abbrev ds_of : List ExplainNode × Ctx
    ds_of = ds model tuples provenance user (go fuel) (evaluate-Keeps fuel) def o r depth c

    abbrev cs_of : List ExplainNode × Ctx
    cs_of = cs model tuples provenance user (go fuel) (evaluate-Keeps fuel) def o r depth c

    abbrev ts_of : List ExplainNode × Ctx
    ts_of = ts model tuples provenance user (go fuel) (evaluate-Keeps fuel) def o r depth c

    at_expand : is_leaf ≡ false → (go (suc fuel) o r depth via c ≡ node)
    at_expand many =
        evaluate-step model tuples provenance user fuel o r depth via c def under found ∙ rw many

    at_leaf :
        is_leaf ≡ true
        → go (suc fuel) o r depth via c ≡ direct_leaf model tuples provenance user o r depth via c
    at_leaf only =
        evaluate-step model tuples provenance user fuel o r depth via c def under found ∙ rw only

    Clear-ts : is_leaf ≡ false → Clear strict ts_of.1
    Clear-ts many =
        unfold expand in subst (λ (p : ExplainNode × Ctx). Clear strict p.1) (at_expand many) clear

    Clear-cs : is_leaf ≡ false → Clear strict cs_of.1
    Clear-cs many = flag strict (Clear-ts many)
      where
        flag : (b : Bool) → Clear b ts_of.1 → Clear b cs_of.1
        flag true h =
            through-Keeps model tuples provenance user (go fuel) (evaluate-Keeps fuel) def o r depth
              c h
        flag false h = tt

    expand-grants :
        is_leaf ≡ false
        → (any grants ds_of.0 || (any grants cs_of.0 || any grants ts_of.0)) ≡ true
        → grants (go (suc fuel) o r depth via c).0 ≡ true
    expand-grants many h =
        ap (λ (p : ExplainNode × Ctx). grants p.0) (at_expand many)
        ∙ (grants-expand model tuples provenance user (go fuel) def o r depth c via ∙ h)

    stored_complete :
        (t : StoredTuple)
        → def.direct ≡ true
        → Memᴰ t tuples
        → is_tuple o r user t ≡ true
        → grants (go (suc fuel) o r depth via c).0 ≡ true
    stored_complete t d m test =
        let (t', hit) = find_complete (is_tuple o r user) t tuples m test in
        elim (Bool-cases is_leaf) [
          | inl only ↦
              ap (λ (p : ExplainNode × Ctx). grants p.0) (at_leaf only)
              ∙ (grants-direct_leaf model tuples provenance user o r depth via c ∙ rw hit)
          | inr many ↦ expand-grants many (
              rw (
                any-direct_branch model tuples provenance user def.direct o r depth (visit depth c),
                d,
                hit,
              ))
        ]

    computed_complete :
        (other : String)
        → Memᴰ other def.computed
        → ((c' : Ctx)
            → Clear strict (go fuel o other (depth + 1) Model.computed c').1
            → grants (go fuel o other (depth + 1) Model.computed c').0 ≡ true)
        → grants (go (suc fuel) o r depth via c).0 ≡ true
    computed_complete other m below =
        let many : is_leaf ≡ false = ground (arith, length-mem m) in
        expand-grants many (
          or-true_right (any grants ds_of.0) (any grants cs_of.0 || any grants ts_of.0) (
            or-true_left (any grants cs_of.0) (any grants ts_of.0) (
              map_ctx_flagged strict (λ other. go fuel o other (depth + 1) Model.computed) other
                def.computed (λ other. evaluate-Keeps fuel o other (depth + 1) Model.computed) m
                below ds_of.1 (Clear-cs many))))

    through_complete :
        (ttu : TupleToUserset) (t : StoredTuple)
        → Memᴰ ttu def.tuple_to_userset
        → Memᴰ t tuples
        → t.object ≡ o
        → t.relation ≡ ttu.tupleset
        → ((c' : Ctx)
            → Clear strict (go fuel t.user ttu.relation (depth + 2) direct c').1
            → grants (go fuel t.user ttu.relation (depth + 2) direct c').0 ≡ true)
        → grants (go (suc fuel) o r depth via c).0 ≡ true
    through_complete ttu t m mt p q below =
        let many : is_leaf ≡ false = ground (arith, length-mem m) in
        expand-grants many (
          or-true_right _ _ (
            or-true_right _ _ (
              map_ctx_flagged strict (via_tupleset model tuples provenance user (go fuel) o depth)
                ttu def.tuple_to_userset
                (via_tupleset-Keeps model tuples provenance user (go fuel) (evaluate-Keeps fuel) o
                  depth)
                m
                (λ c' h.
                  grants-via_tupleset model tuples provenance user (go fuel) o depth ttu c'
                  ∙ map_ctx_flagged strict
                      (λ target. go fuel target ttu.relation (depth + 2) direct) t.user
                      (targets model tuples provenance user o ttu.tupleset)
                      (λ target. evaluate-Keeps fuel target ttu.relation (depth + 2) direct)
                      (targets_complete model tuples provenance user o ttu.tupleset t mt p q) below
                      (visit (depth + 1) c') (unfold via_tupleset in h))
                cs_of.1 (Clear-ts many))))

  pub evaluate_complete :
      (strict : Bool) (fuel n : ℕ) (o r : String) (depth : ℕ) (via : ExplainVia) (c : Ctx)
      → Fits strict n depth
      → suc depth_cap ≤ fuel + depth
      → Grants model tuples user n o r
      → Clear strict (go fuel o r depth via c).1
      → grants (go fuel o r depth via c).0 ≡ true
  evaluate_complete strict zero n o r depth via c fits f (stored {n = k} def t e d m p q u) h =
      absurd (beyond strict zero k o r depth via c fits (omega arith) h)
  evaluate_complete strict zero n o r depth via c fits f (computed {n = k} def other e m g) h =
      absurd (beyond strict zero k o r depth via c fits (omega arith) h)
  evaluate_complete strict zero n o r depth via c fits f (through {n = k} def ttu t e m mt p q g)
        h =
      absurd (beyond strict zero (suc k) o r depth via c fits (omega arith) h)
  evaluate_complete strict (suc fuel) n o r depth via c fits f (stored {n = k} def t e d m p q u)
        h =
      elim (Bool-cases (ltb depth_cap depth)) [
        | inl cut ↦ absurd (beyond strict (suc fuel) k o r depth via c fits (ground arith) h)
        | inr under ↦
            stored_complete strict fuel o r depth via c def e under h t d m
              (is_tuple_complete o r user t p q u)
      ]
  evaluate_complete strict (suc fuel) n o r depth via c fits f (computed {n = k} def other e m g)
        h =
      let below = λ (c' : Ctx).
        evaluate_complete strict fuel k o other (depth + 1) Model.computed c'
          (Fits-down strict k depth fits) (omega arith) g in
      elim (Bool-cases (ltb depth_cap depth)) [
        | inl cut ↦ absurd (beyond strict (suc fuel) k o r depth via c fits (ground arith) h)
        | inr under ↦ computed_complete strict fuel o r depth via c def e under h other m below
      ]
  evaluate_complete strict (suc fuel) n o r depth via c fits f
        (through {n = k} def ttu t e m mt p q g) h =
      let below = λ (c' : Ctx).
        evaluate_complete strict fuel k t.user ttu.relation (depth + 2) direct c'
          (Fits-through strict k depth fits) (omega arith) g in
      elim (Bool-cases (ltb depth_cap depth)) [
        | inl cut ↦ absurd (beyond strict (suc fuel) (suc k) o r depth via c fits (ground arith) h)
        | inr under ↦
            through_complete strict fuel o r depth via c def e under h ttu t m mt p q below
      ]
