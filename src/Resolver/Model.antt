-- ===== src/Resolver/Model.antt =====
-- The model, the stored tuples, the explanation tree and the resolver's context.
use authz_plane.Common.{
  ℕ, String, Option, none, some, List, [], ◌∷◌, Bool, true, false, if◌then◌else◌, ◌==◌, before,
  after?, or_else, any, ◌++◌, map,
}
use authz_plane.Common.Dict.{Dict, get}

pub record TupleToUserset : Type 0 where
  pub tupleset : String
  pub relation : String

-- An absent part is `false` or empty.
pub record RelationDef : Type 0 where
  pub direct : Bool
  pub computed : List String
  pub tuple_to_userset : List TupleToUserset

abbrev pub AuthorizationModel : Type 0
AuthorizationModel = Dict (Dict RelationDef)

pub record StoredTuple : Type 0 where
  pub object : String
  pub relation : String
  pub user : String
  pub tuple_id : String
  pub written_at : String
  pub written_by : String
  pub audit_event_id : String

pub record CheckTuple : Type 0 where
  pub user : String
  pub relation : String
  pub object : String

pub data Consistency : Type 0 where
  strong eventual : Consistency

pub record ResolverOptions : Type 0 where
  pub now : String
  pub model_version : ℕ
  pub consistency : Consistency
  pub include_provenance : Option Bool

pub data ExplainResult : Type 0 where
  allowed denied : ExplainResult

pub data ExplainVia : Type 0 where
  union direct computed tuple_to_userset : ExplainVia

pub record Provenance : Type 0 where
  pub tuple_id : String
  pub written_at : String
  pub written_by : String
  pub audit_event_id : String

-- A node but for its children.
pub record NodeHead : Type 0 where
  pub node : String
  pub result : ExplainResult
  pub via : ExplainVia
  pub provenance : Option Provenance
  pub truncated : Bool

-- `leaf` has no `children` field; `branch` has one, possibly empty.
mutual
  pub data ExplainNode : Type 0 where
    leaf : NodeHead → ExplainNode
    branch : NodeHead → Children → ExplainNode

  pub data Children : Type 0 where
    nil : Children
    cons : ExplainNode → Children → Children

abbrev pub children_of : List ExplainNode → Children
children_of [] = nil
children_of (n ∷ ns) = cons n (children_of ns)

abbrev pub head_of : ExplainNode → NodeHead
head_of (leaf h) = h
head_of (branch h ns) = h

abbrev pub is_allowed : ExplainResult → Bool
is_allowed allowed = true
is_allowed denied = false

abbrev pub grants : ExplainNode → Bool
grants n = is_allowed (head_of n).result

abbrev pub result_of : Bool → ExplainResult
result_of true = allowed
result_of false = denied

pub record DecisiveTuple : Type 0 where
  pub node : String
  pub tuple_id : String
  pub written_at : String
  pub written_by : String
  pub audit_event_id : String

pub record Ctx : Type 0 where
  pub nodes : ℕ
  pub max_depth : ℕ
  pub depth_cap_hit : Bool
  pub decisive : Option DecisiveTuple
  pub decisive_object : String
  pub decisive_relation : String

abbrev pub depth_cap : ℕ
depth_cap = 8

unfoldable pub type_of : String → String
unfolding before
type_of ref = before b':' ref

unfoldable pub id_of : String → String
unfolding after?
id_of ref = or_else (after? b':' ref) ref

-- `model[typeOf(object)]?.[relation]`, own properties only.
unfoldable pub def_of : AuthorizationModel → String → String → Option RelationDef
unfolding get type_of
def_of model object relation = elim (get (type_of object) model) [
  | none ↦ none
  | some type ↦ get relation type
]

-- A `Set` keeps the first insertion of each member.
unfoldable pub add : String → List String → List String
add s seen = if any (λ t. t == s) seen then seen else seen ++ s ∷ []

unfoldable pub add_all : List String → List String → List String
unfolding add
add_all [] seen = seen
add_all (s ∷ ss) seen = add_all ss (add s seen)

unfoldable pub add_types : AuthorizationModel → List String → List String
unfolding add_all
add_types [] seen = seen
add_types ((name, type) ∷ types) seen = add_types types (add_all (map (λ e. e.0) type) seen)

unfoldable pub relations_of : AuthorizationModel → List String
unfolding add_types
relations_of model = add_types model []
