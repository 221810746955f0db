-- ===== src/Diff/Recover.antt =====
-- An alignment loses nothing: both texts, and the line numbers of both, can be read off it.
use authz_plane.Common.{
  ℕ, ◌+◌, ◌*◌, String, some, List, [], ◌∷◌, ◌++◌, length, ltb, leb, ◌==◌, ◌≡◌, refl, eq_iff,
  Bool-cases, inl, inr, ap, sym, All,
}
use authz_plane.Diff.Types.{
  DiffOp, equal_op, removed_op, added_op, lefts, rights, left_numbers, right_numbers, IsShaped,
  split,
}
use authz_plane.Diff.Align.{remove_from, add_from, walk, align, align_lines, cell, max_cells}

-- n + 1, ..., n + k, for the k lines of a text.
abbrev pub numbers : ℕ → List String → List ℕ
numbers n [] = []
numbers n (l ∷ ls) = (n + 1) ∷ numbers (n + 1) ls

-- `os` turns the lines `ls`, numbered from `i`, into the lines `rs`, numbered from `j`.
pub record Recovers (os : List DiffOp) (i j : ℕ) (ls rs : List String) : Type 0 where
  pub left : lefts os ≡ ls
  pub right : rights os ≡ rs
  pub left_n : left_numbers os ≡ numbers i ls
  pub right_n : right_numbers os ≡ numbers j rs
  pub shaped : All IsShaped os

remove_from-Recovers : (i j : ℕ) (ls : List String) → Recovers (remove_from i ls) i j ls []
unfolding remove_from
remove_from-Recovers i j [] = record {
  left = refl;
  right = refl;
  left_n = refl;
  right_n = refl;
  shaped = tt;
}
remove_from-Recovers i j (l ∷ ls) =
    let r = remove_from-Recovers (i + 1) j ls in
    record {
      left = ap (λ t. l ∷ t) r.left;
      right = r.right;
      left_n = ap (λ t. (i + 1) ∷ t) r.left_n;
      right_n = r.right_n;
      shaped = ((l, refl, refl, refl), r.shaped);
    }

add_from-Recovers : (i j : ℕ) (rs : List String) → Recovers (add_from j rs) i j [] rs
unfolding add_from
add_from-Recovers i j [] = record {
  left = refl;
  right = refl;
  left_n = refl;
  right_n = refl;
  shaped = tt;
}
add_from-Recovers i j (b ∷ rs) =
    let r = add_from-Recovers i (j + 1) rs in
    record {
      left = r.left;
      right = ap (λ t. b ∷ t) r.right;
      left_n = r.left_n;
      right_n = ap (λ t. (j + 1) ∷ t) r.right_n;
      shaped = ((b, refl, refl, refl), r.shaped);
    }

module _ {os : List DiffOp} {i j : ℕ} {ls rs : List String} where
  equal-Recovers :
      (a b : String)
      → a ≡ b
      → Recovers os (i + 1) (j + 1) ls rs
      → Recovers (equal_op a b i j ∷ os) i j (a ∷ ls) (b ∷ rs)
  equal-Recovers a b e r = record {
    left = ap (λ t. a ∷ t) r.left;
    right = ap (λ t. b ∷ t) r.right;
    left_n = ap (λ t. (i + 1) ∷ t) r.left_n;
    right_n = ap (λ t. (j + 1) ∷ t) r.right_n;
    shaped = ((a, refl, ap some (sym e)), r.shaped);
  }

  removed-Recovers :
      (a : String) → Recovers os (i + 1) j ls rs → Recovers (removed_op a i ∷ os) i j (a ∷ ls) rs
  removed-Recovers a r = record {
    left = ap (λ t. a ∷ t) r.left;
    right = r.right;
    left_n = ap (λ t. (i + 1) ∷ t) r.left_n;
    right_n = r.right_n;
    shaped = ((a, refl, refl, refl), r.shaped);
  }

  added-Recovers :
      (b : String) → Recovers os i (j + 1) ls rs → Recovers (added_op b j ∷ os) i j ls (b ∷ rs)
  added-Recovers b r = record {
    left = r.left;
    right = ap (λ t. b ∷ t) r.right;
    left_n = r.left_n;
    right_n = ap (λ t. (j + 1) ∷ t) r.right_n;
    shaped = ((b, refl, refl, refl), r.shaped);
  }

-- Whatever the table holds.
walk-Recovers :
    (lcs : List (List ℕ)) (i j : ℕ) (ls rs : List String) → Recovers (walk lcs i j ls rs) i j ls rs
unfolding walk
walk-Recovers lcs i j [] rs = add_from-Recovers i j rs
walk-Recovers lcs i j (a ∷ ls) [] = remove_from-Recovers i j (a ∷ ls)
walk-Recovers lcs i j (a ∷ ls) (b ∷ rs) = elim (Bool-cases (a == b)) [
  | inl same ↦
      rw same (equal-Recovers a b ((eq_iff a b).0 same) (walk-Recovers lcs (i + 1) (j + 1) ls rs))
  | inr other ↦ rw other (elim (Bool-cases (leb (cell lcs i (j + 1)) (cell lcs (i + 1) j))) [
    | inl up ↦ rw up (removed-Recovers a (walk-Recovers lcs (i + 1) j ls (b ∷ rs)))
    | inr up ↦ rw up (added-Recovers b (walk-Recovers lcs i (j + 1) (a ∷ ls) rs))
  ])
]

replace-Recovers :
    (i j : ℕ) (ls rs : List String) → Recovers (remove_from i ls ++ add_from j rs) i j ls rs
unfolding remove_from
replace-Recovers i j [] rs = add_from-Recovers i j rs
replace-Recovers i j (l ∷ ls) rs = removed-Recovers l (replace-Recovers (i + 1) j ls rs)

pub align-Recovers : (ls rs : List String) → Recovers (align ls rs) 0 0 ls rs
unfolding align
align-Recovers ls rs = elim (Bool-cases (ltb max_cells (length ls * length rs))) [
  | inl large ↦ rw large (replace-Recovers 0 0 ls rs)
  | inr small ↦ rw small (walk-Recovers _ 0 0 ls rs)
]

-- Whatever the two texts, large or small, the alignment holds every line of each in order, numbers
-- the lines of each from 1 without a gap, and gives every operation the sides that its kind
-- promises, an equal one the same line twice.
pub align_lines-Recovers : (a b : String) → Recovers (align_lines a b) 0 0 (split a) (split b)
unfolding align_lines
align_lines-Recovers a b = align-Recovers (split a) (split b)
