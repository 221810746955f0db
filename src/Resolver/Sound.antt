-- ===== src/Resolver/Sound.antt =====
-- The resolver allows only what can be derived.
use authz_plane.Common.{
  and-cases, ℕ, zero, suc, ◌+◌, ◌<◌, String, none, some, List, Bool, true, false, ◌&&◌, ◌≡◌, inl,
  inr, refl, sym, ◌∙◌, arith, if◌then◌else◌, Bool-cases, Option-cases, ltb, eqb, subst,
}
use authz_plane.Resolver.Model.{
  TupleToUserset, RelationDef, AuthorizationModel, StoredTuple, ExplainVia, direct, ExplainNode,
  NodeHead, head_of, Ctx, depth_cap, def_of, grants, is_allowed, result_of, ExplainResult, allowed,
  denied,
}
use authz_plane.Resolver.Model
use authz_plane.Resolver.Evaluate.{direct_leaf, branch_count, expand, evaluate}
use authz_plane.Resolver.Grants.{Grants}
use authz_plane.Resolver.Expand.{grants-direct_leaf, stored_of_find, expand_sound}

module _ (model : AuthorizationModel) (tuples : List StoredTuple) (provenance : Bool)
    (user : String) where
  -- The recursion with its first four arguments.
  abbrev pub run : ℕ → String → String → ℕ → ExplainVia → Ctx → ExplainNode × Ctx
  run fuel = evaluate model tuples provenance user fuel

  abbrev Derives : ℕ → String → String → Type 0
  Derives = Grants model tuples user

  -- One step of the recursion, below the cap.
  pub evaluate-step :
      (fuel : ℕ) (o r : String) (depth : ℕ) (via : ExplainVia) (c : Ctx) (def : RelationDef)
      → ltb depth_cap depth ≡ false
      → def_of model o r ≡ some def
      → run (suc fuel) o r depth via c ≡ (
          if eqb (branch_count model tuples provenance user def) 1 && def.direct
          then direct_leaf model tuples provenance user o r depth via c
          else expand model tuples provenance user (run fuel) def o r depth via c)
  unfolding evaluate
  evaluate-step fuel o r depth via c def h e = ground arith

  pub evaluate-cut :
      (fuel : ℕ) (o r : String) (depth : ℕ) (via : ExplainVia) (c : Ctx)
      → depth_cap < depth
      → (grants (run fuel o r depth via c).0 ≡ false)
        × ((run fuel o r depth via c).1.depth_cap_hit ≡ true)
  unfolding evaluate
  evaluate-cut zero o r depth via c h = (refl, refl)
  evaluate-cut (suc fuel) o r depth via c h = ground arith

  pub evaluate-unknown :
      (fuel : ℕ) (o r : String) (depth : ℕ) (via : ExplainVia) (c : Ctx)
      → def_of model o r ≡ none
      → grants (run fuel o r depth via c).0 ≡ false
  unfolding evaluate
  evaluate-unknown zero o r depth via c e = refl
  evaluate-unknown (suc fuel) o r depth via c e = ground arith

  pub evaluate_sound :
      (fuel n : ℕ) (o r : String) (depth : ℕ) (via : ExplainVia) (c : Ctx)
      → depth + n ≡ suc depth_cap
      → grants (run fuel o r depth via c).0 ≡ true
      → Derives n o r
  evaluate_sound zero n o r depth via c e h = unfold evaluate in cc
  evaluate_sound (suc fuel) zero o r depth via c e h =
      cc ((evaluate-cut (suc fuel) o r depth via c (omega arith)).0)
  evaluate_sound (suc fuel) (suc n) o r depth via c e h = elim (Option-cases (def_of model o r)) [
    | inl missing ↦ cc (evaluate-unknown (suc fuel) o r depth via c missing)
    | inr (def, found) ↦
        step def found
          (λ other c' h'.
            evaluate_sound fuel n o other (depth + 1) Model.computed c' (omega arith) h')
          (deeper n (omega arith)
            (λ m eq target rel c' h'. evaluate_sound fuel m target rel (depth + 2) direct c' eq h'))
  ]
    where
      deeper :
          (k : ℕ)
          → depth + suc k ≡ 9
          → ((m : ℕ)
              → depth + 2 + m ≡ 9
              → (target rel : String) (c' : Ctx)
              → grants (run fuel target rel (depth + 2) direct c').0 ≡ true
              → Derives m target rel)
          → (target rel : String) (c' : Ctx)
          → grants (run fuel target rel (depth + 2) direct c').0 ≡ true
          → (m : ℕ) × (k ≡ suc m) × Derives m target rel
      deeper zero eq rec target rel c' h' =
          cc ((evaluate-cut fuel target rel (depth + 2) direct c' (omega arith)).0)
      deeper (suc k) eq rec target rel c' h' = (k, refl, rec k (omega arith) target rel c' h')

      step :
          (def : RelationDef)
          → def_of model o r ≡ some def
          → ((other : String) (c' : Ctx)
              → grants (run fuel o other (depth + 1) Model.computed c').0 ≡ true
              → Derives n o other)
          → ((target rel : String) (c' : Ctx)
              → grants (run fuel target rel (depth + 2) direct c').0 ≡ true
              → (m : ℕ) × (n ≡ suc m) × Derives m target rel)
          → Derives (suc n) o r
      step def found below lower =
          let under : ltb depth_cap depth ≡ false = ground arith in
          let h' =
            subst (λ (p : ExplainNode × Ctx). grants p.0 ≡ true)
              (evaluate-step fuel o r depth via c def under found) h in
          elim (Bool-cases (eqb (branch_count model tuples provenance user def) 1 && def.direct)) [
            | inl only ↦
                stored_of_find model tuples provenance user o r def found (and-cases _ _ only).1 (
                  sym (grants-direct_leaf model tuples provenance user o r depth via c)
                  ∙ (rw only at h'))
            | inr many ↦
                expand_sound model tuples provenance user (run fuel) def o r depth n found below
                  lower via c (rw many at h')
          ]
