-- ===== src/Diff/Lcs.antt =====
-- What the table of `alignLines` holds: the length of a longest common subsequence of two suffixes.
use authz_plane.Common.{
  ℕ, zero, suc, ◌+◌, ◌%◌, ◌^◌, ◌<◌, ◌≤◌, max, String, List, [], ◌∷◌, length, get_or, drop,
  if◌then◌else◌, ◌==◌, ◌≡◌, refl, arith, ap, sym, ◌∙◌,
}
use authz_plane.Diff.Align.{row, zeros, table, cell}

-- The reference: the textbook recursion, with no table.
unfoldable pub lcs : List String → List String → ℕ
lcs [] rs = 0
lcs (a ∷ ls) [] = 0
lcs (a ∷ ls) (b ∷ rs) =
    let met = lcs ls rs + 1 in
    let apart = max (lcs ls (b ∷ rs)) (lcs (a ∷ ls) rs) in if a == b then met else apart

pub lcs-nil : (ls : List String) → lcs ls [] ≡ 0
unfolding lcs
lcs-nil [] = refl
lcs-nil (a ∷ ls) = refl

pub lcs-le : (ls rs : List String) → lcs ls rs ≤ length rs
unfolding lcs
lcs-le [] rs = omega arith
lcs-le (a ∷ ls) [] = omega arith
lcs-le (a ∷ ls) (b ∷ rs) = ground (arith, lcs-le ls rs, lcs-le ls (b ∷ rs), lcs-le (a ∷ ls) rs)

-- A whole row of the reference.
lcs_row : List String → List String → List ℕ
lcs_row ls [] = 0 ∷ []
lcs_row ls (b ∷ rs) = lcs ls (b ∷ rs) ∷ lcs_row ls rs

lcs_row-head : (ls rs : List String) → get_or (lcs_row ls rs) 0 0 ≡ lcs ls rs
unfolding lcs_row
lcs_row-head ls [] = sym (lcs-nil ls)
lcs_row-head ls (b ∷ rs) = refl

mod_small : (n : ℕ) → n < 2 ^ 32 → n % 2 ^ 32 ≡ n
mod_small n h = omega arith

row-lcs_row :
    (a : String) (ls rs : List String)
    → length rs < 2 ^ 32
    → row a rs (lcs_row ls rs) ≡ lcs_row (a ∷ ls) rs
unfolding row lcs_row lcs
row-lcs_row a ls [] h = refl
row-lcs_row a ls (b ∷ rs) h = ground (
  arith,
  row-lcs_row a ls rs,
  lcs_row-head ls rs,
  lcs_row-head (a ∷ ls) rs,
  lcs-le ls rs,
  mod_small (lcs ls rs + 1),
)

zeros-lcs_row : (rs : List String) → zeros rs ≡ lcs_row [] rs
unfolding lcs_row lcs
zeros-lcs_row [] = refl
zeros-lcs_row (b ∷ rs) = ap (λ r. 0 ∷ r) (zeros-lcs_row rs)

table-head : (ls rs : List String) → length rs < 2 ^ 32 → get_or (table ls rs) 0 [] ≡ lcs_row ls rs
unfolding table
table-head [] rs h = zeros-lcs_row rs
table-head (a ∷ ls) rs h = ap (row a rs) (table-head ls rs h) ∙ row-lcs_row a ls rs h

lcs_row-at : (ls rs : List String) (j : ℕ) → get_or (lcs_row ls rs) j 0 ≡ lcs ls (drop j rs)
unfolding lcs_row
lcs_row-at ls [] zero = sym (lcs-nil ls)
lcs_row-at ls [] (suc j) = sym (lcs-nil ls)
lcs_row-at ls (b ∷ rs) zero = refl
lcs_row-at ls (b ∷ rs) (suc j) = lcs_row-at ls rs j

-- Every entry that the walk reads, provided that no count passes 32 bits.
pub cell-table :
    (ls rs : List String) (i j : ℕ)
    → length rs < 2 ^ 32
    → cell (table ls rs) i j ≡ lcs (drop i ls) (drop j rs)
unfolding table lcs
cell-table ls rs zero j h = ap (λ r. get_or r j 0) (table-head ls rs h) ∙ lcs_row-at ls rs j
cell-table [] rs (suc i) j h = refl
cell-table (l ∷ ls) rs (suc i) j h = cell-table ls rs i j h
