-- ===== src/Relations/Model.antt =====
-- The stored tuples, the requests and the store of one tenant.
use authz_plane.Common.{ℕ, String, Option, List, [], ◌∷◌, Bool, ◌&&◌, ◌==◌, template}
use authz_plane.Common.Int.{ℤ}

pub data TupleSource : Type 0 where
  spec : ℕ → TupleSource
  api drift : TupleSource

pub record Tuple : Type 0 where
  pub id : String
  pub user : String
  pub relation : String
  pub object : String
  pub source : TupleSource
  pub written_at : String

pub record TupleInput : Type 0 where
  pub user : String
  pub relation : String
  pub object : String

-- A stored tuple has the fields of an input, and passes for one.
abbrev pub input_of : Tuple → TupleInput
input_of t = record { user = t.user; relation = t.relation; object = t.object }

pub record WriteRequest : Type 0 where
  pub writes : List TupleInput
  pub deletes : List TupleInput

pub record WriteResult : Type 0 where
  pub written : ℕ
  pub deleted : ℕ
  pub invalidated_decisions : ℕ
  pub model_version : ℕ

pub record Store : Type 0 where
  pub items : List Tuple
  pub total : ℤ
  pub seq : ℕ
  pub model_dsl : String
  pub model_version : ℕ
  pub cached_decisions : ℕ

pub record Failure : Type 0 where
  pub status : ℕ
  pub title : String
  pub detail : Option String

pub data Result {ℓ} (T : Type ℓ) : Type ℓ where
  success : T → Result T
  failure : Failure → Result T

unfoldable pub tuple_key : TupleInput → String
tuple_key t = template (t.user ∷ " " ∷ t.relation ∷ " " ∷ t.object ∷ [])

unfoldable pub same_tuple : TupleInput → TupleInput → Bool
same_tuple a b = a.user == b.user && (a.relation == b.relation && a.object == b.object)
