-- ===== src/Resolver/Evaluate.antt =====
-- `explain`'s closures: `find`, `visit`, `directLeaf` and the recursion `evaluate`. Each takes the
-- context that it changes and gives it back.
use authz_plane.Common.{
  ℕ, zero, suc, ◌+◌, String, none, some, List, [], ◌∷◌, ◌++◌, Bool, true, false, ltb, eqb, ◌&&◌,
  if◌then◌else◌, ◌==◌, any, find, filter, map, length, template,
}
use authz_plane.Resolver.Model.{
  TupleToUserset, RelationDef, AuthorizationModel, StoredTuple, allowed, denied, ExplainVia, union,
  direct, computed, tuple_to_userset, Provenance, NodeHead, ExplainNode, leaf, branch, children_of,
  grants, result_of, Ctx, depth_cap, def_of,
}

abbrev pub visit : ℕ → Ctx → Ctx
visit depth ctx = record ctx {
  nodes = ctx.nodes + 1;
  max_depth = if ltb ctx.max_depth depth then depth else ctx.max_depth;
}

-- `xs.map(f)` for an `f` that changes the context
unfoldable pub map_ctx :
    {A : Type 0} → (A → Ctx → ExplainNode × Ctx) → List A → Ctx → List ExplainNode × Ctx
map_ctx f [] ctx = ([], ctx)
map_ctx f (x ∷ xs) ctx =
    let (n, ctx') = f x ctx in let (ns, ctx'') = map_ctx f xs ctx' in (n ∷ ns, ctx'')

abbrev pub userset : String → String → String
userset object relation = template (object ∷ "#" ∷ relation ∷ [])

abbrev pub tuple_text : String → String → String → String
tuple_text object relation user = template (object ∷ "#" ∷ relation ∷ "@" ∷ user ∷ [])

abbrev pub is_tuple : String → String → String → StoredTuple → Bool
is_tuple object relation user t = t.object == object && (t.relation == relation && t.user == user)

abbrev pub provenance_of : StoredTuple → Provenance
provenance_of t = record {
  tuple_id = t.tuple_id;
  written_at = t.written_at;
  written_by = t.written_by;
  audit_event_id = t.audit_event_id;
}

abbrev pub decide : String → String → String → StoredTuple → Ctx → Ctx
decide object relation user hit ctx = elim ctx.decisive [
  | some d ↦ ctx
  | none ↦ record ctx {
    decisive = some (record {
      node = tuple_text object relation user;
      tuple_id = hit.tuple_id;
      written_at = hit.written_at;
      written_by = hit.written_by;
      audit_event_id = hit.audit_event_id;
    });
    decisive_object = object;
    decisive_relation = relation;
  }
]

abbrev pub leaf_label : ExplainVia → String → String → String → String
leaf_label direct object relation user = tuple_text object relation user
leaf_label _ object relation user = userset object relation

abbrev pub denied_leaf : String → String → ExplainVia → Bool → ExplainNode
denied_leaf object relation via truncated = leaf (record {
  node = userset object relation;
  result = denied;
  via = via;
  provenance = none;
  truncated = truncated;
})

abbrev pub branch_via : ExplainVia → ExplainVia
branch_via computed = computed
branch_via _ = union

abbrev pub with_children : NodeHead → List ExplainNode → ExplainNode
with_children h [] = leaf h
with_children h (n ∷ ns) = branch h (children_of (n ∷ ns))

module _ (model : AuthorizationModel) (tuples : List StoredTuple) (include_provenance : Bool)
    (user : String) where
  unfoldable pub direct_leaf : String → String → ℕ → ExplainVia → Ctx → ExplainNode × Ctx
  direct_leaf object relation depth via ctx =
      let label = leaf_label via object relation user in
      elim (find (is_tuple object relation user) tuples) [
        | none ↦ (
          leaf (record {
            node = label;
            result = denied;
            via = via;
            provenance = none;
            truncated = false;
          }),
          visit depth ctx,
        )
        | some hit ↦ (
          leaf (record {
            node = label;
            result = allowed;
            via = via;
            provenance = if include_provenance then some (provenance_of hit) else none;
            truncated = false;
          }),
          decide object relation user hit (visit depth ctx),
        )
      ]

  -- The users of the tuples that a tupleset names.
  unfoldable pub targets : String → String → List String
  targets object tupleset =
      map (λ (t : StoredTuple). t.user)
        (filter (λ (t : StoredTuple). t.object == object && t.relation == tupleset) tuples)

  -- One tuple-to-userset rewrite; `go` evaluates a target.
  unfoldable pub via_tupleset :
      (String → String → ℕ → ExplainVia → Ctx → ExplainNode × Ctx)
      → String
      → ℕ
      → TupleToUserset
      → Ctx
      → ExplainNode × Ctx
  unfolding targets map_ctx
  via_tupleset go object depth ttu ctx =
      let (ns, ctx') =
        map_ctx (λ target. go target ttu.relation (depth + 2) direct) (targets object ttu.tupleset)
          (visit (depth + 1) ctx) in
      (
        with_children
            (record {
              node = userset object ttu.tupleset;
              result = result_of (any grants ns);
              via = tuple_to_userset;
              provenance = none;
              truncated = false;
            })
            ns,
        ctx',
      )

  -- The direct branch, where the definition has one.
  unfoldable pub direct_branch : Bool → String → String → ℕ → Ctx → List ExplainNode × Ctx
  unfolding direct_leaf
  direct_branch false object relation depth ctx = ([], ctx)
  direct_branch true object relation depth ctx =
      let (n, ctx') = direct_leaf object relation (depth + 1) direct ctx in (n ∷ [], ctx')

  abbrev pub branch_count : RelationDef → ℕ
  branch_count def =
      (if def.direct then 1 else 0) + length def.computed + length def.tuple_to_userset

  -- The rewrites of a definition, as the children of one node.
  unfoldable pub expand :
      (String → String → ℕ → ExplainVia → Ctx → ExplainNode × Ctx)
      → RelationDef
      → String
      → String
      → ℕ
      → ExplainVia
      → Ctx
      → ExplainNode × Ctx
  unfolding direct_branch via_tupleset map_ctx
  expand go def object relation depth via ctx =
      let (ds, ctx₁) = direct_branch def.direct object relation depth (visit depth ctx) in
      let (cs, ctx₂) = map_ctx (λ other. go object other (depth + 1) computed) def.computed ctx₁ in
      let (ts, ctx₃) = map_ctx (via_tupleset go object depth) def.tuple_to_userset ctx₂ in
      let children = ds ++ (cs ++ ts) in
      (
        branch
            (record {
              node = userset object relation;
              result = result_of (any grants children);
              via = branch_via via;
              provenance = none;
              truncated = false;
            })
            (children_of children),
        ctx₃,
      )

  -- The recursion, on fuel. The depth grows with every call and is cut above the cap, so fuel from
  -- `depth_cap` on is never used up; without fuel the answer is that of the cut.
  unfoldable pub evaluate : ℕ → String → String → ℕ → ExplainVia → Ctx → ExplainNode × Ctx
  unfolding expand direct_leaf def_of
  evaluate zero object relation depth via ctx =
      (denied_leaf object relation via true, record ctx { depth_cap_hit = true })
  evaluate (suc fuel) object relation depth via ctx =
      let go = evaluate fuel in
      if ltb depth_cap depth
      then (denied_leaf object relation via true, record ctx { depth_cap_hit = true })
      else elim (def_of model object relation) [
        | none ↦ (denied_leaf object relation via false, visit depth ctx)
        | some def ↦
            if eqb (branch_count def) 1 && def.direct
            then direct_leaf object relation depth via ctx
            else expand go def object relation depth via ctx
      ]
