-- ===== src/Diff/Optimal.antt =====
-- The alignment is a best one: no common subsequence of the two texts is longer than the lines that
-- it keeps.
use authz_plane.Common.{
  ℕ, suc, ◌+◌, ◌*◌, ◌<◌, ◌≤◌, ◌^◌, String, List, [], ◌∷◌, length, ◌≡◌, refl, arith, drop, eq_refl,
}
use authz_plane.Diff.Types.{equal, DiffOp, split}
use authz_plane.Diff.Align.{remove_from, add_from, walk, align, align_lines, cell, max_cells, table}
use authz_plane.Diff.Lcs.{lcs, lcs-nil, cell-table}

-- The lines that an alignment keeps.
abbrev pub kept : List DiffOp → ℕ
kept [] = 0
kept (o ∷ os) = elim o.kind [ equal ↦ suc (kept os) | _ ↦ kept os ]

-- `s` is a subsequence of `ls`.
pub data Subsequence : List String → List String → Type 0 where
  done : Subsequence [] []
  keep : {s ls : List String} (l : String) → Subsequence s ls → Subsequence (l ∷ s) (l ∷ ls)
  skip : {s ls : List String} (l : String) → Subsequence s ls → Subsequence s (l ∷ ls)

-- One more line on either side adds at most one to the length, and takes nothing away.
record Grows (ls rs : List String) : Type 0 where
  left_le : (l : String) → lcs (l ∷ ls) rs ≤ lcs ls rs + 1
  right_le : (r : String) → lcs ls (r ∷ rs) ≤ lcs ls rs + 1
  left_ge : (l : String) → lcs ls rs ≤ lcs (l ∷ ls) rs
  right_ge : (r : String) → lcs ls rs ≤ lcs ls (r ∷ rs)

lcs-Grows : (ls rs : List String) → Grows ls rs
unfolding lcs
lcs-Grows [] [] = record {
  left_le = λ l. omega arith;
  right_le = λ r. omega arith;
  left_ge = λ l. omega arith;
  right_ge = λ r. omega arith;
}
lcs-Grows [] (b ∷ rs) =
    let g = lcs-Grows [] rs in
    record {
      left_le = λ l. ground (arith, g.left_le l);
      right_le = λ r. omega arith;
      left_ge = λ l. omega arith;
      right_ge = λ r. omega arith;
    }
lcs-Grows (a ∷ ls) [] =
    let g = lcs-Grows ls [] in
    record {
      left_le = λ l. omega arith;
      right_le = λ r. ground (arith, g.right_le r, lcs-nil ls);
      left_ge = λ l. omega arith;
      right_ge = λ r. omega arith;
    }
lcs-Grows (a ∷ ls) (b ∷ rs) =
    let g = lcs-Grows ls (b ∷ rs) in
    let k = lcs-Grows (a ∷ ls) rs in
    record {
      left_le = λ l. ground (arith, k.left_le l, k.right_ge b);
      right_le = λ r. ground (arith, g.right_le r, g.left_ge a);
      left_ge = λ l. ground (arith, k.right_le b);
      right_ge = λ r. ground (arith, g.left_le a);
    }

-- No common subsequence is longer than `lcs` says.
lcs-optimal : {s ls rs : List String} → Subsequence s ls → Subsequence s rs → length s ≤ lcs ls rs
unfolding lcs
lcs-optimal done k = omega arith
lcs-optimal (skip l h) done = omega arith
lcs-optimal (keep {ls = ls} l h) (keep {ls = rs} r k) = ground (arith, eq_refl l, lcs-optimal h k)
lcs-optimal (keep {ls = ls} l h) (skip {ls = rs} r k) =
    ground (arith, lcs-optimal (keep l h) k, (lcs-Grows ls rs).left_le l)
lcs-optimal (skip {ls = ls} l h) (keep {ls = rs} r k) =
    ground (arith, lcs-optimal h (keep r k), (lcs-Grows ls rs).right_le r)
lcs-optimal (skip {ls = ls} l h) (skip {ls = rs} r k) =
    ground (arith, lcs-optimal h (skip r k), (lcs-Grows ls rs).right_le r)

-- The entries of a table from row `i` and column `j` on.
abbrev Cells : List (List ℕ) → ℕ → ℕ → List String → List String → Type 0
Cells t i j ls rs = (x y : ℕ) → cell t (i + x) (j + y) ≡ lcs (drop x ls) (drop y rs)

module _ (t : List (List ℕ)) (i j : ℕ) where
  Cells-down :
      (l : String) (ls rs : List String) → Cells t i j (l ∷ ls) rs → Cells t (i + 1) j ls rs
  Cells-down l ls rs h x y = let e : i + 1 + x ≡ i + suc x = omega arith in rw e (h (suc x) y)

  Cells-right :
      (ls : List String) (r : String) (rs : List String)
      → Cells t i j ls (r ∷ rs)
      → Cells t i (j + 1) ls rs
  Cells-right ls r rs h x y = let e : j + 1 + y ≡ j + suc y = omega arith in rw e (h x (suc y))

kept-remove_from : (i : ℕ) (ls : List String) → kept (remove_from i ls) ≡ 0
unfolding remove_from
kept-remove_from i [] = refl
kept-remove_from i (l ∷ ls) = kept-remove_from (i + 1) ls

kept-add_from : (j : ℕ) (rs : List String) → kept (add_from j rs) ≡ 0
unfolding add_from
kept-add_from j [] = refl
kept-add_from j (r ∷ rs) = kept-add_from (j + 1) rs

-- The walk keeps as many lines as the table promises at its corner.
kept-walk :
    (t : List (List ℕ)) (i j : ℕ) (ls rs : List String)
    → Cells t i j ls rs
    → kept (walk t i j ls rs) ≡ lcs ls rs
unfolding walk lcs
kept-walk t i j [] rs h = kept-add_from j rs
kept-walk t i j (l ∷ ls) [] h = kept-remove_from (i + 1) ls
kept-walk t i j (l ∷ ls) (r ∷ rs) h =
    let down = Cells-down t i j l ls (r ∷ rs) h in
    let right = Cells-right t i j (l ∷ ls) r rs h in
    let at_down = down 0 0 in
    let at_right = right 0 0 in
    ground (
      arith,
      at_down,
      at_right,
      kept-walk t (i + 1) (j + 1) ls rs (Cells-right t (i + 1) j ls r rs down),
      kept-walk t (i + 1) j ls (r ∷ rs) down,
      kept-walk t i (j + 1) (l ∷ ls) rs right,
    )

row_fits : (n m : ℕ) → n * m ≤ 4000000 → 0 < n → m < 2 ^ 32
row_fits n m h k = grind arith

table-Cells : (ls rs : List String) → length rs < 2 ^ 32 → Cells (table ls rs) 0 0 ls rs
table-Cells ls rs fits x y =
    let ex : 0 + x ≡ x = omega arith in
    let ey : 0 + y ≡ y = omega arith in rw (ex, ey) (cell-table ls rs x y fits)

-- Where the table is built, the alignment keeps as many lines as a longest common subsequence has.
kept-align :
    (ls rs : List String) → length ls * length rs ≤ max_cells → kept (align ls rs) ≡ lcs ls rs
unfolding align lcs
kept-align [] rs h = ground (arith, kept-add_from 0 rs)
kept-align (l ∷ ls) rs h =
    let fits = row_fits (length (l ∷ ls)) (length rs) h (omega arith) in
    ground (arith, kept-walk (table (l ∷ ls) rs) 0 0 (l ∷ ls) rs (table-Cells (l ∷ ls) rs fits))

-- Where the product of the two numbers of lines is at most `MAX_CELLS`, no common subsequence of the
-- two texts is longer than the lines that the alignment keeps: the table's 32-bit counts and the
-- walk's choices lose nothing.
pub align_lines-optimal :
    (a b : String)
    → length (split a) * length (split b) ≤ max_cells
    → {s : List String} → Subsequence s (split a)
    → Subsequence s (split b)
    → length s ≤ kept (align_lines a b)
unfolding align_lines
align_lines-optimal a b h p q = omega (arith, kept-align (split a) (split b) h, lcs-optimal p q)
