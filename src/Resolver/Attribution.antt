-- ===== src/Resolver/Attribution.antt =====
-- Every part of the resolver attributes what it grants to a stored tuple.
use authz_plane.Common.{
  fun_ext, ℕ, zero, suc, ◌+◌, String, none, some, List, Bool, true, false, ◌&&◌, ◌≡◌, inl, inr,
  refl, sym, ◌∙◌, ap, arith, find, if◌then◌else◌, Bool-cases, Option-cases, is_some, ltb, eqb,
  or-cases, find_sound, subst,
}
use authz_plane.Resolver.Model.{
  TupleToUserset, RelationDef, AuthorizationModel, StoredTuple, ExplainVia, direct, ExplainNode,
  DecisiveTuple, Ctx, depth_cap, def_of, grants,
}
use authz_plane.Resolver.Model
use authz_plane.Resolver.Evaluate.{
  visit, decide, is_tuple, direct_leaf, targets, via_tupleset, direct_branch, branch_count, expand,
  evaluate, denied_leaf,
}
use authz_plane.Resolver.Expand.{grants-direct_leaf, grants-via_tupleset, grants-expand}
use authz_plane.Resolver.Keeps.{Go}
use authz_plane.Resolver.Sound.{evaluate-step}
use authz_plane.Resolver.Evidence.{
  IsHonest, Attributes, AttributesAll, IsHonest-visit, map_ctx-Attributes, IsHonest-decide,
  decide-names,
}

module _ (tuples : List StoredTuple) (user : String) (model : AuthorizationModel)
    (provenance : Bool) where
  direct_leaf-miss :
      (o r : String) (depth : ℕ) (via : ExplainVia) (c : Ctx)
      → find (is_tuple o r user) tuples ≡ none
      → (direct_leaf model tuples provenance user o r depth via c).1 ≡ visit depth c
  unfolding direct_leaf
  direct_leaf-miss o r depth via c e = rw (e, direct_leaf)

  direct_leaf-hit :
      (o r : String) (depth : ℕ) (via : ExplainVia) (c : Ctx) (t : StoredTuple)
      → find (is_tuple o r user) tuples ≡ some t
      → (direct_leaf model tuples provenance user o r depth via c).1
        ≡ decide o r user t (visit depth c)
  unfolding direct_leaf
  direct_leaf-hit o r depth via c t e = rw (e, direct_leaf)

  direct_leaf-Attributes :
      (o r : String) (depth : ℕ) (via : ExplainVia)
      → Attributes tuples user (direct_leaf model tuples provenance user o r depth via)
  direct_leaf-Attributes o r depth via = elim (Option-cases (find (is_tuple o r user) tuples)) [
    | inl missed ↦ record {
      keeps = λ c h.
          rw (direct_leaf-miss o r depth via c missed) (IsHonest-visit tuples user depth c h);
      stays = λ c h. rw (direct_leaf-miss o r depth via c missed) h;
      names = λ c h. cc (
        sym (grants-direct_leaf model tuples provenance user o r depth via c) ∙ h,
        ap {B = Bool} is_some missed,
      );
    }
    | inr (t, hit) ↦
        let (m, test) = find_sound (is_tuple o r user) tuples hit in
        record {
          keeps = λ c h. rw (direct_leaf-hit o r depth via c t hit) (
              IsHonest-decide tuples user o r t (visit depth c) m test
                (IsHonest-visit tuples user depth c h));
          stays = λ c h.
              rw (direct_leaf-hit o r depth via c t hit)
                (decide-names tuples user o r t (visit depth c));
          names = λ c h.
              rw (direct_leaf-hit o r depth via c t hit)
                (decide-names tuples user o r t (visit depth c));
        }
  ]

  direct_branch-Attributes :
      (b : Bool) (o r : String) (depth : ℕ)
      → AttributesAll tuples user (direct_branch model tuples provenance user b o r depth)
  unfolding direct_branch
  direct_branch-Attributes false o r depth = record {
    keeps = λ c h. h;
    stays = λ c h. h;
    names = λ c h. cc;
  }
  direct_branch-Attributes true o r depth =
      let a = direct_leaf-Attributes o r (depth + 1) direct in
      record {
        keeps = a.keeps;
        stays = a.stays;
        names = λ c h. elim (or-cases _ _ h) [ inl here ↦ a.names c here | inr none_left ↦ cc ];
      }

  module _ (go : Go)
      (a : (o r : String) (depth : ℕ) (via : ExplainVia)
        → Attributes tuples user (go o r depth via)) where
    via_tupleset-Attributes :
        (o : String) (depth : ℕ) (ttu : TupleToUserset)
        → Attributes tuples user (via_tupleset model tuples provenance user go o depth ttu)
    unfolding via_tupleset
    via_tupleset-Attributes o depth ttu =
        let all =
          map_ctx-Attributes tuples user (λ target. go target ttu.relation (depth + 2) direct)
            (targets model tuples provenance user o ttu.tupleset)
            (λ target. a target ttu.relation (depth + 2) direct) in
        record {
          keeps =
              λ c h. all.keeps (visit (depth + 1) c) (IsHonest-visit tuples user (depth + 1) c h);
          stays = λ c h. all.stays (visit (depth + 1) c) h;
          names = λ c h.
              all.names (visit (depth + 1) c)
                (sym (grants-via_tupleset model tuples provenance user go o depth ttu c) ∙ h);
        }

    expand-Attributes :
        (def : RelationDef) (o r : String) (depth : ℕ) (via : ExplainVia)
        → Attributes tuples user (expand model tuples provenance user go def o r depth via)
    unfolding expand
    expand-Attributes def o r depth via =
        let ds = direct_branch-Attributes def.direct o r depth in
        let cs =
          map_ctx-Attributes tuples user (λ other. go o other (depth + 1) Model.computed)
            def.computed (λ other. a o other (depth + 1) Model.computed) in
        let ts =
          map_ctx-Attributes tuples user (via_tupleset model tuples provenance user go o depth)
            def.tuple_to_userset (via_tupleset-Attributes o depth) in
        record {
          keeps = λ c h.
              ts.keeps _
                (cs.keeps _ (ds.keeps (visit depth c) (IsHonest-visit tuples user depth c h)));
          stays = λ c h. ts.stays _ (cs.stays _ (ds.stays (visit depth c) h));
          names = λ c h.
              elim (or-cases _ _
                (sym (grants-expand model tuples provenance user go def o r depth c via) ∙ h)) [
                  | inl d ↦ ts.stays _ (cs.stays _ (ds.names (visit depth c) d))
                  | inr more ↦ elim (or-cases _ _ more) [
                    | inl k ↦ ts.stays _ (cs.names _ k)
                    | inr t ↦ ts.names _ t
                  ]
                ];
        }

  denied_leaf-Attributes :
      (o r : String) (via : ExplainVia) (cut : Bool) (f : Ctx → Ctx)
      → ((c : Ctx) → IsHonest tuples user c → IsHonest tuples user (f c))
      → ((c : Ctx) → (f c).decisive ≡ c.decisive)
      → Attributes tuples user (λ c. (denied_leaf o r via cut, f c))
  denied_leaf-Attributes o r via cut f k e = record {
    keeps = k;
    stays = λ c h. ap {B = Bool} is_some (e c) ∙ h;
    names = λ c h. cc;
  }

  evaluate-over :
      (fuel : ℕ) (o r : String) (depth : ℕ) (via : ExplainVia) (c : Ctx)
      → ltb depth_cap depth ≡ true
      → evaluate model tuples provenance user (suc fuel) o r depth via c
        ≡ (denied_leaf o r via true, record c { depth_cap_hit = true })
  unfolding evaluate
  evaluate-over fuel o r depth via c h = rw h

  evaluate-missing :
      (fuel : ℕ) (o r : String) (depth : ℕ) (via : ExplainVia) (c : Ctx)
      → ltb depth_cap depth ≡ false
      → def_of model o r ≡ none
      → evaluate model tuples provenance user (suc fuel) o r depth via c
        ≡ (denied_leaf o r via false, visit depth c)
  unfolding evaluate
  evaluate-missing fuel o r depth via c h e = ground arith

  pub evaluate-Attributes :
      (fuel : ℕ) (o r : String) (depth : ℕ) (via : ExplainVia)
      → Attributes tuples user (evaluate model tuples provenance user fuel o r depth via)
  evaluate-Attributes zero o r depth via =
      unfold evaluate in
      denied_leaf-Attributes o r via true (λ c. record c { depth_cap_hit = true })
        (λ c h. record { decisive = h.decisive }) (λ c. refl)
  evaluate-Attributes (suc fuel) o r depth via = elim (Bool-cases (ltb depth_cap depth)) [
    | inl over ↦
        subst (Attributes tuples user)
          (sym (fun_ext (λ c. evaluate-over fuel o r depth via c over)))
          (denied_leaf-Attributes o r via true (λ c. record c { depth_cap_hit = true })
            (λ c h. record { decisive = h.decisive }) (λ c. refl))
    | inr under ↦ elim (Option-cases (def_of model o r)) [
      | inl missing ↦
          subst (Attributes tuples user)
            (sym (fun_ext (λ c. evaluate-missing fuel o r depth via c under missing)))
            (denied_leaf-Attributes o r via false (visit depth) (IsHonest-visit tuples user depth)
              (λ c. refl))
      | inr (def, found) ↦
          subst (Attributes tuples user)
            (sym (
              fun_ext (λ c.
                evaluate-step model tuples provenance user fuel o r depth via c def under found)))
            (at_node def (
              expand-Attributes (evaluate model tuples provenance user fuel)
                (evaluate-Attributes fuel) def o r depth via))
    ]
  ]
    where
      at_node :
          (def : RelationDef)
          → Attributes tuples user (
              expand model tuples provenance user
                (evaluate model tuples provenance user fuel)
                def
                o
                r
                depth
                via)
          → Attributes tuples user (λ c.
            if eqb (branch_count model tuples provenance user def) 1 && def.direct
            then direct_leaf model tuples provenance user o r depth via c
            else expand model tuples provenance user
                (evaluate model tuples provenance user fuel)
                def
                o
                r
                depth
                via
                c)
      at_node def a =
          elim (Bool-cases (eqb (branch_count model tuples provenance user def) 1 && def.direct)) [
            | inl only ↦ rw only (direct_leaf-Attributes o r depth via)
            | inr many ↦ rw many a
          ]
