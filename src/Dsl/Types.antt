-- ===== src/Dsl/Types.antt =====
-- The parser's result: types, their relations and the issues found.
use authz_plane.Common.{ℕ, String, Option, List}

pub record TupleToUserset : Type 0 where
  pub relation : String
  pub via : String

pub record RelationDef : Type 0 where
  pub name : String
  pub direct : List String
  pub computed : List String
  pub tuple_to_userset : List TupleToUserset
  pub line : ℕ

pub record TypeDef : Type 0 where
  pub name : String
  pub relations : List RelationDef
  pub line : ℕ

pub record ParseIssue : Type 0 where
  pub line : ℕ
  pub message : String

pub record ParsedModel : Type 0 where
  pub schema : Option String
  pub types : List TypeDef
  pub issues : List ParseIssue
