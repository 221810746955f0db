-- ===== src/Dsl/References.antt =====
-- The reference checks of `parseModel`, and the whole of it.
use Prim.Native.Char.{code}
use Prim.Native.String.{String, [], ◌∷◌}
use authz_plane.Common.{
  Option, none, some, List, [], ◌∷◌, ◌++◌, false, ◌||◌, ◌==◌, eqb, if◌then◌else◌, find, split_on,
}
use authz_plane.Common.Chars.{newlines_from}
use authz_plane.Dsl.Types.{TupleToUserset, RelationDef, TypeDef, ParseIssue, ParsedModel}
use authz_plane.Dsl.Parse.{issue, ParseState, parse_lines}

-- `d.split(/[#:]/)[0]`
unfoldable pub base_of : String → String
base_of [] = ""
base_of (c ∷ s) =
    let rest = base_of s in if eqb (code c) b'#' || eqb (code c) b':' then "" else c ∷ rest

-- `typeByName.get(name)`: of two types with one name the later.
unfoldable pub type_by_name : String → List TypeDef → Option TypeDef
type_by_name name [] = none
type_by_name name (t ∷ ts) = elim (type_by_name name ts) [
  | some u ↦ some u
  | none ↦ if t.name == name then some t else none
]

abbrev pub rel_of : TypeDef → String → Option RelationDef
rel_of type name = find (λ (r : RelationDef). r.name == name) type.relations

module _ (types : List TypeDef) (type : TypeDef) (rel : RelationDef) where
  abbrev pub direct_issues : List String → List ParseIssue
  direct_issues [] = []
  direct_issues (d ∷ ds) = elim (type_by_name (base_of d) types) [
    | none ↦
        issue rel.line ("unknown type \"" ∷ base_of d ∷ "\" in " ∷ type.name ∷ "." ∷ rel.name ∷ [])
        ∷ direct_issues ds
    | some t ↦ direct_issues ds
  ]

  abbrev pub computed_issues : List String → List ParseIssue
  computed_issues [] = []
  computed_issues (c ∷ cs) = elim (rel_of type c) [
    | none ↦
        issue rel.line
          ("unknown relation \"" ∷ c ∷ "\" referenced by " ∷ type.name ∷ "." ∷ rel.name ∷ [])
        ∷ computed_issues cs
    | some r ↦ computed_issues cs
  ]

  -- The targets of the relation that a rewrite goes through.
  abbrev pub target_issues : TupleToUserset → List String → List ParseIssue
  target_issues ttu [] = []
  target_issues ttu (target ∷ targets) = elim (type_by_name (base_of target) types) [
    | none ↦ target_issues ttu targets
    | some target_type ↦ elim (rel_of target_type ttu.relation) [
      | some r ↦ target_issues ttu targets
      | none ↦
          issue rel.line (
            "relation \"" ∷ ttu.relation ∷ "\" is not defined on " ∷ target_type.name ∷ " (via "
            ∷ ttu.via ∷ ")" ∷ [])
          ∷ target_issues ttu targets
    ]
  ]

  abbrev pub rewrite_issues : List TupleToUserset → List ParseIssue
  rewrite_issues [] = []
  rewrite_issues (ttu ∷ ttus) = elim (rel_of type ttu.via) [
    | none ↦
        issue rel.line (
          "unknown relation \"" ∷ ttu.via ∷ "\" in \"" ∷ ttu.relation ∷ " from " ∷ ttu.via
          ∷ "\" on " ∷ type.name ∷ [])
        ∷ rewrite_issues ttus
    | some via ↦ target_issues ttu via.direct ++ rewrite_issues ttus
  ]

  unfoldable pub relation_issues : List ParseIssue
  unfolding type_by_name base_of
  relation_issues =
      direct_issues rel.direct
      ++ (computed_issues rel.computed ++ rewrite_issues rel.tuple_to_userset)

abbrev pub relations_issues : List TypeDef → TypeDef → List RelationDef → List ParseIssue
relations_issues types type [] = []
relations_issues types type (r ∷ rs) =
    relation_issues types type r ++ relations_issues types type rs

abbrev pub types_issues : List TypeDef → List TypeDef → List ParseIssue
types_issues types [] = []
types_issues types (t ∷ ts) = relations_issues types t t.relations ++ types_issues types ts

abbrev pub header_issues : ParseState → List ParseIssue
header_issues st =
    (if st.saw_model then [] else issue 1 ("missing model header" ∷ []) ∷ [])
    ++ (elim st.schema [ none ↦ issue 1 ("missing schema version" ∷ []) ∷ [] | some v ↦ [] ])

abbrev pub empty_state : ParseState
empty_state = record { schema = none; types = []; issues = []; saw_model = false }

unfoldable pub parse_model : String → ParsedModel
unfolding parse_lines newlines_from split_on relation_issues
parse_model dsl =
    let st = parse_lines 1 (split_on b'\n' (newlines_from false dsl)) empty_state in
    record {
      schema = st.schema;
      types = st.types;
      issues = st.issues ++ (header_issues st ++ types_issues st.types st.types);
    }
