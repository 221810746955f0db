-- ===== src/Dsl/Closed.antt =====
-- A model without issues mentions no name that it does not define.
use authz_plane.Common.{
  String, some, is_some, List, [], ◌∷◌, ◌++◌, true, ◌≡◌, refl, sym, arith, Option-cases, inl, inr,
  Memᴰ, find_sound, mem-cons_cases, subst, ◌==◌, false, if◌then◌else◌, split_on,
}
use authz_plane.Common.Chars.{newlines_from}
use authz_plane.Dsl.Parse.{issue, ParseState, parse_lines}
use authz_plane.Dsl.Types.{TupleToUserset, RelationDef, TypeDef, ParseIssue}
use authz_plane.Dsl.References.{
  base_of, type_by_name, rel_of, direct_issues, computed_issues, target_issues, rewrite_issues,
  relation_issues, relations_issues, types_issues, header_issues, empty_state, parse_model,
}

-- The type of a subject is defined.
abbrev pub Resolves : List TypeDef → String → Type 0
Resolves types subject = (t : TypeDef) × (type_by_name (base_of subject) types ≡ some t)

-- The relation is defined on a type.
abbrev pub Defines : TypeDef → String → Type 0
Defines type name = (r : RelationDef) × (rel_of type name ≡ some r)

-- Every name that a relation mentions is defined: the types of its subjects, the relations it is
-- computed from, and for a rewrite the relation it goes through and, on each type that this one
-- points at, the relation that it asks for.
pub record IsClosed (types : List TypeDef) (type : TypeDef) (rel : RelationDef) : Type 0 where
  pub direct : (d : String) → Memᴰ d rel.direct → Resolves types d
  pub computed : (c : String) → Memᴰ c rel.computed → Defines type c
  pub rewrites :
      (ttu : TupleToUserset)
      → Memᴰ ttu rel.tuple_to_userset
      → (via : RelationDef) × (rel_of type ttu.via ≡ some via)
        × ((target : String)
            → Memᴰ target via.direct
            → (t : TypeDef) × (type_by_name (base_of target) types ≡ some t)
              × Defines t ttu.relation)

append_empty : {xs ys : List ParseIssue} → xs ++ ys ≡ [] → (xs ≡ []) × (ys ≡ [])
append_empty {xs = []} h = (refl, h)
append_empty {xs = x ∷ xs} h = cc

module _ (types : List TypeDef) (type : TypeDef) (rel : RelationDef) where
  direct_closed :
      (ds : List String)
      → direct_issues types type rel ds ≡ []
      → (d : String) → Memᴰ d ds
      → Resolves types d
  direct_closed [] h d m = elim m [ ]
  direct_closed (e ∷ ds) h d m = elim (Option-cases (type_by_name (base_of e) types)) [
    | inl missing ↦ ground (arith, missing)
    | inr (t, found) ↦ elim (mem-cons_cases m) [
      | inl same ↦ (t, rw same found)
      | inr there ↦ direct_closed ds (ground (arith, found)) d there
    ]
  ]

  computed_closed :
      (cs : List String)
      → computed_issues types type rel cs ≡ []
      → (c : String) → Memᴰ c cs
      → Defines type c
  computed_closed [] h c m = elim m [ ]
  computed_closed (e ∷ cs) h c m = elim (Option-cases (rel_of type e)) [
    | inl missing ↦ ground (arith, missing)
    | inr (r, found) ↦ elim (mem-cons_cases m) [
      | inl same ↦ (r, rw same found)
      | inr there ↦ computed_closed cs (ground (arith, found)) c there
    ]
  ]

  targets_closed :
      (ttu : TupleToUserset) (targets : List String)
      → target_issues types type rel ttu targets ≡ []
      → (target : String) → Memᴰ target targets
      → (t : TypeDef) → type_by_name (base_of target) types ≡ some t
      → Defines t ttu.relation
  targets_closed ttu [] h target m t found = elim m [ ]
  targets_closed ttu (e ∷ targets) h target m t found = elim (mem-cons_cases m) [
    | inl same ↦
        let found' : type_by_name (base_of e) types ≡ some t =
          subst (λ x. type_by_name (base_of x) types ≡ some t) same found in
        elim (Option-cases (rel_of t ttu.relation)) [
          | inl missing ↦ ground (arith, found', missing)
          | inr (r, defined) ↦ (r, defined)
        ]
    | inr there ↦ elim (Option-cases (type_by_name (base_of e) types)) [
      | inl unknown ↦ targets_closed ttu targets (ground (arith, unknown)) target there t found
      | inr (u, known) ↦ elim (Option-cases (rel_of u ttu.relation)) [
        | inl missing ↦ ground (arith, known, missing)
        | inr (r, defined) ↦
            targets_closed ttu targets (ground (arith, known, defined)) target there t found
      ]
    ]
  ]

  rewrites_closed :
      (ttus : List TupleToUserset)
      → rewrite_issues types type rel ttus ≡ []
      → (ttu : TupleToUserset) → Memᴰ ttu ttus
      → (via : RelationDef) × (rel_of type ttu.via ≡ some via)
        × (target_issues types type rel ttu via.direct ≡ [])
  rewrites_closed [] h ttu m = elim m [ ]
  rewrites_closed (e ∷ ttus) h ttu m = elim (Option-cases (rel_of type e.via)) [
    | inl missing ↦ ground (arith, missing)
    | inr (via, found) ↦
        let (own, rest) =
          append_empty {xs = target_issues types type rel e via.direct}
            {ys = rewrite_issues types type rel ttus} (ground (arith, found)) in
        elim (mem-cons_cases m) [
          | inl same ↦
              subst
                (λ (x : TupleToUserset).
                  (v : RelationDef) × (rel_of type x.via ≡ some v)
                  × (target_issues types type rel x v.direct ≡ []))
                (sym same) (via, found, own)
          | inr there ↦ rewrites_closed ttus rest ttu there
        ]
  ]

relations_clear :
    (types : List TypeDef) (type : TypeDef) (rs : List RelationDef)
    → relations_issues types type rs ≡ []
    → (r : RelationDef) → Memᴰ r rs
    → relation_issues types type r ≡ []
relations_clear types type [] h r m = elim m [ ]
relations_clear types type (s ∷ rs) h r m =
    let (own, rest) = append_empty {xs = relation_issues types type s} h in
    elim (mem-cons_cases m) [
      | inl same ↦ subst (λ x. relation_issues types type x ≡ []) (sym same) own
      | inr there ↦ relations_clear types type rs rest r there
    ]

types_clear :
    (types ts : List TypeDef)
    → types_issues types ts ≡ []
    → (t : TypeDef) → Memᴰ t ts
    → relations_issues types t t.relations ≡ []
types_clear types [] h t m = elim m [ ]
types_clear types (u ∷ ts) h t m =
    let (own, rest) = append_empty {xs = relations_issues types u u.relations} h in
    elim (mem-cons_cases m) [
      | inl same ↦ subst (λ (x : TypeDef). relations_issues types x x.relations ≡ []) (sym same) own
      | inr there ↦ types_clear types ts rest t there
    ]

direct_clear :
    (types : List TypeDef) (type : TypeDef) (r : RelationDef)
    → relation_issues types type r ≡ []
    → (direct_issues types type r r.direct ≡ [])
      × (computed_issues types type r r.computed ≡ [])
      × (rewrite_issues types type r r.tuple_to_userset ≡ [])
unfolding relation_issues
direct_clear types type r h =
    let (d, rest) = append_empty {xs = direct_issues types type r r.direct} h in
    let (c, w) = append_empty {xs = computed_issues types type r r.computed} rest in (d, c, w)

relation-IsClosed :
    (types : List TypeDef) (type : TypeDef) (r : RelationDef)
    → relations_issues types type type.relations ≡ []
    → Memᴰ r type.relations
    → IsClosed types type r
relation-IsClosed types type r h m =
    let (d, c, w) = direct_clear types type r (relations_clear types type type.relations h r m) in
    record {
      direct = direct_closed types type r r.direct d;
      computed = computed_closed types type r r.computed c;
      rewrites = λ ttu k.
          let (via, found, clear) = rewrites_closed types type r r.tuple_to_userset w ttu k in
          let (via_mem, _) =
            find_sound (λ (x : RelationDef). x.name == ttu.via) type.relations found in
          let (via_direct, _, _) =
            direct_clear types type via (relations_clear types type type.relations h via via_mem) in
          (
            via,
            found,
            λ target j.
                let (t, known) = direct_closed types type via via.direct via_direct target j in
                (t, known, targets_closed types type r ttu via.direct clear target j t known),
          );
    }

header_schema : (st : ParseState) → header_issues st ≡ [] → is_some st.schema ≡ true
header_schema st h =
    let (_, version) =
      append_empty {xs = if st.saw_model then [] else issue 1 ("missing model header" ∷ []) ∷ []}
        h in
    elim (Option-cases st.schema) [ inl missing ↦ ground (arith, missing) | inr (v, e) ↦ rw e refl ]

-- A model that is parsed without an issue has a schema version, and every name that one of its
-- relations mentions is defined, on every type that a rewrite leads to as well.
pub parse_model-IsClosed :
    (dsl : String)
    → (parse_model dsl).issues ≡ []
    → (is_some (parse_model dsl).schema ≡ true)
      × ((type : TypeDef)
          → Memᴰ type (parse_model dsl).types
          → (rel : RelationDef) → Memᴰ rel type.relations
          → IsClosed (parse_model dsl).types type rel)
unfolding parse_model
parse_model-IsClosed dsl h =
    let st = parse_lines 1 (split_on b'\n' (newlines_from false dsl)) empty_state in
    let (_, checks) = append_empty {xs = st.issues} h in
    let (header, refs) = append_empty {xs = header_issues st} checks in
    (
      header_schema st header,
      λ type m rel k.
          relation-IsClosed st.types type rel (types_clear st.types st.types refs type m) k,
    )
