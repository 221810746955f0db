-- ===== src/Diff/Types.antt =====
-- The operations of a diff, and how a text is split into lines.
use authz_plane.Common.{
  ℕ, ◌+◌, String, Option, none, some, List, [], ◌∷◌, ltb, length, ◌&&◌, if◌then◌else◌, split_on,
  unix_lines, last_is_empty, pop, ◌≡◌,
}

pub data DiffOpKind : Type 0 where
  equal added removed changed : DiffOpKind

-- `left` and `left_n` are absent from an added line, `right` and `right_n` from a removed one.
pub record DiffOp : Type 0 where
  pub kind : DiffOpKind
  pub left : Option String
  pub right : Option String
  pub left_n : Option ℕ
  pub right_n : Option ℕ

abbrev pub equal_op : String → String → ℕ → ℕ → DiffOp
equal_op l r i j = record {
  kind = equal;
  left = some l;
  right = some r;
  left_n = some (i + 1);
  right_n = some (j + 1);
}

abbrev pub removed_op : String → ℕ → DiffOp
removed_op l i = record {
  kind = removed;
  left = some l;
  right = none;
  left_n = some (i + 1);
  right_n = none;
}

abbrev pub added_op : String → ℕ → DiffOp
added_op r j = record {
  kind = added;
  left = none;
  right = some r;
  left_n = none;
  right_n = some (j + 1);
}

-- A last empty line is dropped, unless it is the only one.
unfoldable pub split : String → List String
unfolding split_on unix_lines last_is_empty pop
split text =
    let lines = split_on 10 (unix_lines text) in
    if ltb 1 (length lines) && last_is_empty lines then pop lines else lines

-- What the operations carry in one field, in order.
abbrev pub pick {ℓ} : {A : Type ℓ} → (DiffOp → Option A) → List DiffOp → List A
pick f [] = []
pick f (o ∷ os) = elim (f o) [ none ↦ pick f os | some x ↦ x ∷ pick f os ]

-- The older text, line by line, and the newer one.
abbrev pub lefts : List DiffOp → List String
lefts os = pick (λ o. o.left) os

abbrev pub rights : List DiffOp → List String
rights os = pick (λ o. o.right) os

abbrev pub left_numbers : List DiffOp → List ℕ
left_numbers os = pick (λ o. o.left_n) os

abbrev pub right_numbers : List DiffOp → List ℕ
right_numbers os = pick (λ o. o.right_n) os

-- What the kind says of the sides.
abbrev pub IsShaped : DiffOp → Type 0
IsShaped o = elim o.kind [
  | equal ↦ (l : String) × (o.left ≡ some l) × (o.right ≡ some l)
  | added ↦ (r : String) × (o.left ≡ none) × (o.right ≡ some r) × (o.left_n ≡ none)
  | removed ↦ (l : String) × (o.left ≡ some l) × (o.right ≡ none) × (o.right_n ≡ none)
  | changed ↦ (l : String) × (r : String) × (o.left ≡ some l) × (o.right ≡ some r)
]
