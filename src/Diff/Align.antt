-- ===== src/Diff/Align.antt =====
-- `alignLines`: the LCS table and the walk through it.
--
-- The flat array of `w = m + 1` columns is a list of rows: the entry `i * w + j` is entry `j` of row
-- `i`. A `Uint32Array` keeps its entries modulo 2 ^ 32.
use authz_plane.Common.{
  ℕ, ◌+◌, ◌*◌, ◌%◌, ◌^◌, max, String, List, [], ◌∷◌, ◌++◌, ltb, leb, length, get_or, if◌then◌else◌,
  ◌==◌,
}
use authz_plane.Diff.Types.{DiffOp, equal_op, removed_op, added_op, split}

abbrev pub max_cells : ℕ
max_cells = 4000000

-- Row `i`, from the last column to the first; `below` is row `i + 1` from the same column on.
unfoldable pub row : String → List String → List ℕ → List ℕ
row a [] below = 0 ∷ []
row a (b ∷ rs) [] = []
row a (b ∷ rs) (down ∷ below) =
    let rest = row a rs below in
    (if a == b then (get_or below 0 0 + 1) % 2 ^ 32 else max down (get_or rest 0 0)) ∷ rest

abbrev pub zeros : List String → List ℕ
zeros [] = 0 ∷ []
zeros (b ∷ rs) = 0 ∷ zeros rs

-- The rows from the last to the first: row `n` is all zeros, ls the array begins.
unfoldable pub table : List String → List String → List (List ℕ)
table [] rs = zeros rs ∷ []
table (a ∷ ls) rs = let rest = table ls rs in row a rs (get_or rest 0 []) ∷ rest

-- lcs[i * w + j]
abbrev pub cell : List (List ℕ) → ℕ → ℕ → ℕ
cell lcs i j = get_or (get_or lcs i []) j 0

unfoldable pub remove_from : ℕ → List String → List DiffOp
remove_from i [] = []
remove_from i (a ∷ ls) = removed_op a i ∷ remove_from (i + 1) ls

unfoldable pub add_from : ℕ → List String → List DiffOp
add_from j [] = []
add_from j (b ∷ rs) = added_op b j ∷ add_from (j + 1) rs

-- The three loops of the walk; `ls` is A[i..] and `rs` is B[j..].
unfoldable pub walk : List (List ℕ) → ℕ → ℕ → List String → List String → List DiffOp
unfolding remove_from add_from
walk lcs i j [] rs = add_from j rs
walk lcs i j (a ∷ ls) [] = remove_from i (a ∷ ls)
walk lcs i j (a ∷ ls) (b ∷ rs) =
    let same = equal_op a b i j ∷ walk lcs (i + 1) (j + 1) ls rs in
    let drop_left = removed_op a i ∷ walk lcs (i + 1) j ls (b ∷ rs) in
    let take_right = added_op b j ∷ walk lcs i (j + 1) (a ∷ ls) rs in
    if a == b
    then same
    else if leb (cell lcs i (j + 1)) (cell lcs (i + 1) j)
    then drop_left
    else take_right

unfoldable pub align : List String → List String → List DiffOp
unfolding walk table row remove_from add_from
align ls rs =
    if ltb max_cells (length ls * length rs)
    then remove_from 0 ls ++ add_from 0 rs
    else walk (table ls rs) 0 0 ls rs

unfoldable pub align_lines : String → String → List DiffOp
unfolding split align
align_lines a b = align (split a) (split b)
