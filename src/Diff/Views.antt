-- ===== src/Diff/Views.antt =====
-- The summary of a diff, the unified view, the two panes, and the caption.
use authz_plane.Common.{
  ℕ, zero, suc, ◌+◌, ◌-◌, String, Option, none, some, List, [], ◌∷◌, ◌++◌, Bool, true, false, eqb,
  ltb, length, if◌then◌else◌, show, template, or_else, take, drop, max, map,
}
use authz_plane.Diff.Types.{DiffOpKind, equal, added, removed, changed, DiffOp}
use authz_plane.Diff.Pairs.{run, rest}
use mathlib.Core.Option

pub record DiffSummary : Type 0 where
  pub added : ℕ
  pub removed : ℕ
  pub changed : ℕ
  pub unchanged : ℕ
  pub hunks : ℕ

abbrev pub no_ops : DiffSummary
no_ops = record { added = 0; removed = 0; changed = 0; unchanged = 0; hunks = 0 }

-- One round of the loop: the counts and `inHunk`.
unfoldable pub count_op : DiffOpKind → DiffSummary × Bool → DiffSummary × Bool
count_op equal (s, in_hunk) = (record s { unchanged = s.unchanged + 1 }, false)
count_op added (s, in_hunk) =
    (record s { added = s.added + 1; hunks = if in_hunk then s.hunks else s.hunks + 1 }, true)
count_op removed (s, in_hunk) =
    (record s { removed = s.removed + 1; hunks = if in_hunk then s.hunks else s.hunks + 1 }, true)
count_op changed (s, in_hunk) =
    (record s { changed = s.changed + 1; hunks = if in_hunk then s.hunks else s.hunks + 1 }, true)

unfoldable pub summarize_from : DiffSummary × Bool → List DiffOp → DiffSummary
unfolding count_op
summarize_from (s, in_hunk) [] = s
summarize_from state (o ∷ os) = summarize_from (count_op o.kind state) os

unfoldable pub summarize : List DiffOp → DiffSummary
unfolding summarize_from
summarize ops = summarize_from (no_ops, false) ops

pub data LineKind : Type 0 where
  context : LineKind
  op : DiffOpKind → LineKind

-- `DiffLine` of components/ui/diff
pub record DiffLine : Type 0 where
  pub kind : LineKind
  pub text : String
  pub n : Option ℕ

abbrev pub context_line : DiffOp → DiffLine
context_line e = record { kind = context; text = or_else e.right ""; n = e.right_n }

abbrev pub op_line : DiffOp → DiffLine
op_line o = elim o.kind [
  | changed ↦ record { kind = op changed; text = or_else o.right ""; n = o.right_n }
  | added ↦ record { kind = op added; text = or_else o.right ""; n = o.right_n }
  | _ ↦ record { kind = op removed; text = or_else o.left ""; n = o.left_n }
]

abbrev pub plural : ℕ → String
plural n = if eqb n 1 then "" else "s"

abbrev pub hidden_line : ℕ → List DiffLine
hidden_line hidden =
    if ltb 0 hidden
    then record {
      kind = context;
      text = template (show hidden ∷ " unchanged line" ∷ plural hidden ∷ []);
      n = none;
    }
      ∷ []
    else []

-- The rows of one run of equal operations; `first` and `last` say that it stands at an end, and
-- `around` is `none` for Infinity.
unfoldable pub run_lines : Option ℕ → Bool → Bool → List DiffOp → List DiffLine
unfolding show
run_lines none first last ops = map context_line ops
run_lines (some around) first last ops =
    let head = if first then [] else take around ops in
    let tail = if last then [] else drop (max around (length ops - around)) ops in
    let hidden = length ops - length head - length tail in
    map context_line head ++ (hidden_line hidden ++ map context_line tail)

abbrev pub is_nil : List DiffOp → Bool
is_nil [] = true
is_nil (o ∷ os) = false

-- The loop, on fuel; `first` is `i === 0`.
unfoldable pub unified_from : ℕ → Option ℕ → Bool → List DiffOp → Option (List DiffLine)
unfolding run_lines run rest
unified_from fuel around first [] = some []
unified_from zero around first (o ∷ os) = none
unified_from (suc fuel) around first (o ∷ os) =
    let eqs = run equal (o ∷ os) in
    let tail = rest equal (o ∷ os) in
    let later = unified_from fuel around false tail in
    let next = unified_from fuel around false os in
    elim o.kind [
      | equal ↦ Option.map (λ t. run_lines around first (is_nil tail) eqs ++ t) later
      | _ ↦ Option.map (λ t. op_line o ∷ t) next
    ]

unfoldable pub unified_lines : List DiffOp → Option ℕ → Option (List DiffLine)
unfolding unified_from
unified_lines ops around = unified_from (length ops) around true ops

abbrev pub left_line : LineKind → DiffOp → DiffLine
left_line k o = record { kind = k; text = or_else o.left ""; n = o.left_n }

abbrev pub right_line : LineKind → DiffOp → DiffLine
right_line k o = record { kind = k; text = or_else o.right ""; n = o.right_n }

pub record Panes : Type 0 where
  pub left : List DiffLine
  pub right : List DiffLine

unfoldable pub side_by_side : List DiffOp → Panes
side_by_side [] = record { left = []; right = [] }
side_by_side (o ∷ os) =
    let p = side_by_side os in
    elim o.kind [
      | equal ↦ record {
        left = left_line context o ∷ p.left;
        right = right_line context o ∷ p.right;
      }
      | removed ↦ record p { left = left_line (op removed) o ∷ p.left }
      | added ↦ record p { right = right_line (op added) o ∷ p.right }
      | changed ↦ record {
        left = left_line (op changed) o ∷ p.left;
        right = right_line (op changed) o ∷ p.right;
      }
    ]

unfoldable pub changed_fields_label : DiffSummary → String
unfolding show
changed_fields_label s =
    if eqb s.hunks 0
    then "no changes"
    else template (show s.hunks ∷ " changed field" ∷ plural s.hunks ∷ [])
