-- ===== src/Dsl/Summary.antt =====
-- `summarize`: how many types and relations a model has, and its longest chain of rewrites.
use authz_plane.Common.{
  ℕ, zero, suc, ◌+◌, max, String, Option, none, some, List, [], ◌∷◌, ◌++◌, Bool, true, false, not,
  ◌==◌, any, filter, template, length, map,
}
use authz_plane.Common.Dict.{Dict, get, set}
use authz_plane.Dsl.Types.{TupleToUserset, RelationDef, TypeDef, ParsedModel}
use authz_plane.Dsl.References.{base_of, type_by_name, rel_of}

pub record ModelSummary : Type 0 where
  pub types : ℕ
  pub relations : ℕ
  pub depth : ℕ

-- The depths found, and the relations whose depth is being found.
pub record Walk : Type 0 where
  pub memo : Dict ℕ
  pub visiting : List String

abbrev pub Target : Type 0
Target = TypeDef × RelationDef

unfoldable pub relation_key : TypeDef → RelationDef → String
relation_key type rel = template (type.name ∷ "#" ∷ rel.name ∷ [])

abbrev pub is_visited : String → List String → Bool
is_visited key visiting = any (λ k. k == key) visiting

abbrev pub enter : String → Walk → Walk
enter key w = record w { visiting = key ∷ w.visiting }

abbrev pub leave : String → ℕ → Walk → Walk
leave key depth w = record {
  memo = set key depth w.memo;
  visiting = filter (λ k. not (k == key)) w.visiting;
}

-- The relations that a relation is rewritten to, in the order of the loops.
abbrev pub same_type_targets : TypeDef → List String → List Target
same_type_targets type [] = []
same_type_targets type (c ∷ cs) =
    let rest = same_type_targets type cs in
    elim (rel_of type c) [ some target ↦ (type, target) ∷ rest | none ↦ rest ]

abbrev pub via_targets : List TypeDef → String → List String → List Target
via_targets types relation [] = []
via_targets types relation (d ∷ ds) =
    let rest = via_targets types relation ds in
    elim (type_by_name (base_of d) types) [
      | none ↦ rest
      | some type ↦ elim (rel_of type relation) [
        | some target ↦ (type, target) ∷ rest
        | none ↦ rest
      ]
    ]

abbrev pub rewrite_targets : List TypeDef → TypeDef → List TupleToUserset → List Target
rewrite_targets types type [] = []
rewrite_targets types type (t ∷ ts) =
    let rest = rewrite_targets types type ts in
    elim (rel_of type t.via) [
      | none ↦ rest
      | some via ↦ via_targets types t.relation via.direct ++ rest
    ]

unfoldable pub rewrites_of : List TypeDef → TypeDef → RelationDef → List Target
unfolding type_by_name base_of
rewrites_of types type rel =
    same_type_targets type rel.computed ++ rewrite_targets types type rel.tuple_to_userset

-- The maximum over the targets, with the walk passed along; `none` is out of fuel.
unfoldable pub deepest :
    (TypeDef → RelationDef → Walk → Option (ℕ × Walk)) → List Target → ℕ → Walk → Option (ℕ × Walk)
deepest go [] depth w = some (depth, w)
deepest go ((type, rel) ∷ targets) depth w = elim (go type rel w) [
  | none ↦ none
  | some (d, w') ↦ deepest go targets (max depth (1 + d)) w'
]

unfoldable pub depth_of : List TypeDef → ℕ → TypeDef → RelationDef → Walk → Option (ℕ × Walk)
unfolding get set relation_key rewrites_of deepest
depth_of types zero type rel w = none
depth_of types (suc fuel) type rel w =
    let key = relation_key type rel in
    elim (get key w.memo) [
      | some cached ↦ some (cached, w)
      | none ↦ elim (is_visited key w.visiting) [
        | true ↦ some (0, w)
        | false ↦
            elim (deepest (depth_of types fuel) (rewrites_of types type rel) 0 (enter key w)) [
              | none ↦ none
              | some (depth, w') ↦ some (depth, leave key depth w')
            ]
      ]
    ]

abbrev pub all_relations : List TypeDef → List Target
all_relations [] = []
all_relations (t ∷ ts) = map (λ (r : RelationDef). (t, r)) t.relations ++ all_relations ts

-- The loop over all relations: their number, and the largest depth.
unfoldable pub summarize_all :
    (TypeDef → RelationDef → Walk → Option (ℕ × Walk))
    → List Target
    → ModelSummary
    → Walk
    → Option ModelSummary
summarize_all go [] sum w = some sum
summarize_all go ((type, rel) ∷ rest) sum w = elim (go type rel w) [
  | none ↦ none
  | some (d, w') ↦
      summarize_all go rest (record sum { relations = sum.relations + 1; depth = max sum.depth d })
        w'
]

-- One round of fuel for each relation and one more.
unfoldable pub summarize : ParsedModel → Option ModelSummary
unfolding depth_of summarize_all
summarize model =
    summarize_all (depth_of model.types (suc (length (all_relations model.types))))
      (all_relations model.types) (record { types = length model.types; relations = 0; depth = 0 })
      (record { memo = []; visiting = [] })
