-- ===== src/Dsl/Lines.antt =====
-- `diffDsl` and `newRelations`: what a draft adds to the live model.
use authz_plane.Common.{
  ℕ, ◌+◌, String, none, some, List, [], ◌∷◌, Bool, true, false, not, ◌&&◌, ◌==◌, ◌++◌,
  if◌then◌else◌, any, find, filter, map, split_on,
}
use authz_plane.Common.Chars.{trim, newlines_from}
use authz_plane.Dsl.Types.{RelationDef, TypeDef, ParsedModel}
use authz_plane.Dsl.Parse.{has_relation}
use authz_plane.Dsl.Summary.{relation_key}

pub record DslDiff : Type 0 where
  pub added : List ℕ
  pub removed : List String

unfoldable pub norm : String → List String
unfolding newlines_from split_on trim
norm s = map trim (split_on b'\n' (newlines_from false s))

-- A line that is not blank and not one of the other body's.
abbrev pub is_new : List String → String → Bool
is_new others l = not (l == "") && not (any (λ o. o == l) others)

abbrev pub added_from : ℕ → List String → List String → List ℕ
added_from n live [] = []
added_from n live (l ∷ ls) =
    let rest = added_from (n + 1) live ls in if is_new live l then n ∷ rest else rest

unfoldable pub diff_dsl : String → String → DslDiff
unfolding norm
diff_dsl live draft = record {
  added = added_from 1 (norm live) (norm draft);
  removed = filter (is_new (norm draft)) (norm live);
}

-- A set is the list of its members, each where it was first added.
unfoldable pub add_key : String → List String → List String
add_key key out = if any (λ k. k == key) out then out else (out ++ (key ∷ []))

-- No relation of that name on the type of that name.
abbrev pub is_absent : List TypeDef → TypeDef → RelationDef → Bool
is_absent live type rel = elim (find (λ (t : TypeDef). t.name == type.name) live) [
  | none ↦ true
  | some before ↦ not (has_relation rel.name before)
]

abbrev pub new_of_type : List TypeDef → TypeDef → List RelationDef → List String → List String
new_of_type live type [] out = out
new_of_type live type (rel ∷ rels) out =
    new_of_type live type rels
      (if is_absent live type rel then add_key (relation_key type rel) out else out)

abbrev pub new_of_types : List TypeDef → List TypeDef → List String → List String
new_of_types live [] out = out
new_of_types live (type ∷ types) out =
    new_of_types live types (new_of_type live type type.relations out)

unfoldable pub new_relations : ParsedModel → ParsedModel → List String
unfolding add_key relation_key
new_relations live draft = new_of_types live.types draft.types []
