-- ===== src/Diff/Panes.antt =====
-- The two views of a diff hide no change.
use mathlib.Core.Option
use authz_plane.Common.{
  ℕ, zero, suc, ◌≤◌, String, Option, none, some, List, [], ◌∷◌, ◌++◌, Bool, true, false, not,
  length, map, or_else, ◌≡◌, refl, arith, ap, subst, sym, ◌∙◌, All, filter, Bool-cases, inl, inr,
}
use authz_plane.Diff.Types.{DiffOpKind, equal, removed, DiffOp, lefts, rights, IsShaped}
use authz_plane.Diff.Pairs.{is_kind, run, rest}
use authz_plane.Diff.Runs.{length-rest}
use authz_plane.Diff.Views.{
  context, op, DiffLine, context_line, op_line, hidden_line, run_lines, is_nil, unified_from,
  unified_lines, side_by_side,
}

abbrev texts : List DiffLine → List String
texts ls = map (λ (l : DiffLine). l.text) ls

-- The older pane shows the older text, line by line, and the newer pane the newer one, if every
-- operation has the sides of its kind.
pub side_by_side-texts :
    (os : List DiffOp)
    → All IsShaped os
    → (map (λ l. l.text) (side_by_side os).left ≡ lefts os)
      × (map (λ l. l.text) (side_by_side os).right ≡ rights os)
unfolding side_by_side
side_by_side-texts [] h = (refl, refl)
side_by_side-texts (o ∷ os) (p, h) = ground (arith, side_by_side-texts os h)

-- The rows of a view that show a change, and the operations that are one.
abbrev pub is_op : DiffLine → Bool
is_op l = elim l.kind [ context ↦ false | op k ↦ true ]

abbrev pub changes : List DiffOp → List DiffOp
changes os = filter (λ o. not (is_kind o.kind equal)) os

filter-append :
    {A : Type 0} (p : A → Bool) (xs ys : List A) → filter p (xs ++ ys) ≡ filter p xs ++ filter p ys
filter-append p [] ys = refl
filter-append p (x ∷ xs) ys = ground (arith, filter-append p xs ys)

context_lines : (os : List DiffOp) → filter is_op (map context_line os) ≡ []
context_lines [] = refl
context_lines (o ∷ os) = context_lines os

hidden_line-context : (n : ℕ) → filter is_op (hidden_line n) ≡ []
hidden_line-context n = ground arith

run_lines-context :
    (around : Option ℕ) (first last : Bool) (os : List DiffOp)
    → filter is_op (run_lines around first last os) ≡ []
unfolding run_lines
run_lines-context none first last os = context_lines os
run_lines-context (some n) first last os = simp (filter-append, context_lines, hidden_line-context)

op_line-is_op : (o : DiffOp) → is_op (op_line o) ≡ true
op_line-is_op o = ground arith

-- After a run of equal operations the same changes are left.
changes-rest : (os : List DiffOp) → changes (rest equal os) ≡ changes os
unfolding rest
changes-rest [] = refl
changes-rest (o ∷ os) = ground (arith, changes-rest os)

-- A view whose changes are those of `os`.
abbrev Shows : List DiffOp → Option (List DiffLine) → Type 0
Shows os r = (ls : List DiffLine) × (r ≡ some ls) × (filter is_op ls ≡ map op_line (changes os))

is_kind_iff : (j k : DiffOpKind) → is_kind j k ≡ true → j ≡ k
is_kind_iff j k h = ground arith

module _ (fuel : ℕ) (around : Option ℕ) (first : Bool) (o : DiffOp) (os : List DiffOp) where
  abbrev rows : List DiffLine
  rows = run_lines around first (is_nil (rest equal (o ∷ os))) (run equal (o ∷ os))

  unified_from-run :
      o.kind ≡ equal
      → unified_from (suc fuel) around first (o ∷ os)
        ≡ Option.map (λ t. rows ++ t) (unified_from fuel around false (rest equal (o ∷ os)))
  unfolding unified_from
  unified_from-run h = ground arith

  unified_from-op :
      is_kind o.kind equal ≡ false
      → unified_from (suc fuel) around first (o ∷ os)
        ≡ Option.map (λ t. op_line o ∷ t) (unified_from fuel around false os)
  unfolding unified_from
  unified_from-op h = ground arith

  Shows-run :
      o.kind ≡ equal
      → Shows (rest equal (o ∷ os)) (unified_from fuel around false (rest equal (o ∷ os)))
      → Shows (o ∷ os) (unified_from (suc fuel) around first (o ∷ os))
  Shows-run h (ls, e, shown) = (
    rows ++ ls,
    unified_from-run h ∙ ap (Option.map (λ t. rows ++ t)) e,
    simp (filter-append, run_lines-context) (shown ∙ ap (map op_line) (changes-rest (o ∷ os))),
  )

  Shows-op :
      is_kind o.kind equal ≡ false
      → Shows os (unified_from fuel around false os)
      → Shows (o ∷ os) (unified_from (suc fuel) around first (o ∷ os))
  Shows-op h (ls, e, shown) = (
    op_line o ∷ ls,
    unified_from-op h ∙ ap (Option.map (λ t. op_line o ∷ t)) e,
    rw (h, op_line-is_op o) (ap (λ t. op_line o ∷ t) shown),
  )

rest-lt :
    (o : DiffOp) (os : List DiffOp) → o.kind ≡ equal → length (rest equal (o ∷ os)) ≤ length os
unfolding rest
rest-lt o os h = ground (arith, length-rest equal os)

unified_from-Shows :
    (fuel : ℕ) (around : Option ℕ) (first : Bool) (os : List DiffOp)
    → length os ≤ fuel
    → Shows os (unified_from fuel around first os)
unfolding unified_from
unified_from-Shows zero around first [] n = ([], refl, refl)
unified_from-Shows (suc fuel) around first [] n = ([], refl, refl)
unified_from-Shows zero around first (o ∷ os) n = absurd (omega arith)
unified_from-Shows (suc fuel) around first (o ∷ os) n = elim (Bool-cases (is_kind o.kind equal)) [
  | inl same ↦
      let h = is_kind_iff o.kind equal same in
      Shows-run fuel around first o os h
        (unified_from-Shows fuel around false (rest equal (o ∷ os)) (omega (arith, rest-lt o os h)))
  | inr other ↦
      Shows-op fuel around first o os other (unified_from-Shows fuel around false os (omega arith))
]

-- The row of a change: its kind, and the line of the older text if it is removed, else the line of
-- the newer one, with the number there.
abbrev IsLineOf : Option String → Option ℕ → DiffLine → Type 0
IsLineOf text n l = (l.text ≡ or_else text "") × (l.n ≡ n)

abbrev IsSideOf : DiffOpKind → DiffOp → DiffLine → Type 0
IsSideOf removed o l = IsLineOf o.left o.left_n l
IsSideOf _ o l = IsLineOf o.right o.right_n l

-- One row for each operation, in order.
abbrev pub IsRows : List DiffOp → List DiffLine → Type 0
IsRows [] [] = Unit
IsRows (o ∷ os) (l ∷ ls) = (l.kind ≡ op o.kind) × IsSideOf o.kind o l × IsRows os ls
IsRows _ _ = ⊥

op_line-IsSideOf :
    (o : DiffOp)
    → is_kind o.kind equal ≡ false
    → ((op_line o).kind ≡ op o.kind) × IsSideOf o.kind o (op_line o)
op_line-IsSideOf o h = ground (arith, h)

changes-IsRows : (os : List DiffOp) → IsRows (changes os) (map op_line (changes os))
changes-IsRows [] = tt
changes-IsRows (o ∷ os) = elim (Bool-cases (is_kind o.kind equal)) [
  | inl same ↦ rw same (changes-IsRows os)
  | inr other ↦
      let (kind, side) = op_line-IsSideOf o other in rw other (kind, side, changes-IsRows os)
]

-- For every amount of context, `Infinity` included, the loop of `unifiedLines` ends, and the rows that
-- are no context are exactly the changes of the diff, in order: collapsing hides no change. Each such
-- row has the kind of its change and shows the line, with its number, of the older text if that is
-- removed and of the newer text otherwise.
pub unified_lines-changes :
    (os : List DiffOp) (around : Option ℕ)
    → (ls : List DiffLine) × (unified_lines os around ≡ some ls)
      × (filter is_op ls ≡ map op_line (changes os))
      × IsRows (changes os) (filter is_op ls)
unfolding unified_lines
unified_lines-changes os around =
    let (ls, e, shown) = unified_from-Shows (length os) around true os (omega arith) in
    (ls, e, shown, subst (IsRows (changes os)) (sym shown) (changes-IsRows os))
