-- ===== src/Diff/Tests.antt =====
-- The diff on two small specs, and its theorems at them.
use authz_plane.Common.{
  ◌≤◌, String, none, some, List, [], ◌∷◌, ◌≡◌, ◌↔◌, refl, arith, length, All, map, ◌+◌, ◌-◌, filter,
}
use mathlib.Core.Option
use authz_plane.Diff.Types.{
  equal, added, removed, changed, DiffOp, equal_op, removed_op, added_op, split, lefts, rights,
  IsShaped,
}
use authz_plane.Diff.Align.{align_lines}
use authz_plane.Diff.Recover.{Recovers, align_lines-Recovers}
use authz_plane.Diff.Optimal.{kept, done, keep, skip, align_lines-optimal}
use authz_plane.Diff.Pairs.{yaml_key, diff_lines}
use authz_plane.Diff.Collapse.{diff_lines-Recovers}
use authz_plane.Diff.Views.{DiffLine, op_line, summarize, unified_lines, side_by_side}
use authz_plane.Diff.Summary.{count_kind, hunk_ends, summarize_lem}
use authz_plane.Diff.Panes.{is_op, changes, IsRows, unified_lines-changes, side_by_side-texts}

abbrev old_text : String
old_text = "kind: Tenant\n  host: a\n  port: 1\nend\n"

abbrev newer : String
newer = "kind: Tenant\n  host: b\n  port: 2\nend\nmore"

abbrev aligned : List DiffOp
aligned =
    equal_op "kind: Tenant" "kind: Tenant" 0 0
    ∷ removed_op "  host: a" 1
    ∷ removed_op "  port: 1" 2
    ∷ added_op "  host: b" 1
    ∷ added_op "  port: 2" 2
    ∷ equal_op "end" "end" 3 3
    ∷ added_op "more" 4
    ∷ []

align_test : align_lines old_text newer ≡ aligned
unfolding align_lines
align_test = refl

yaml_test :
    (yaml_key "      clientSecretRef: x" ≡ some "6:clientSecretRef")
    × (yaml_key "  - name : y" ≡ some "2:-name")
    × (yaml_key "- 9" ≡ none)
unfolding yaml_key
yaml_test = (refl, refl, refl)

label_test : Option.map (λ os. (summarize os).changed) (diff_lines old_text newer) ≡ some 2
unfolding diff_lines summarize
label_test = refl

align_lines-Recovers_example :
    Recovers (align_lines old_text newer) 0 0 (split old_text) (split newer)
align_lines-Recovers_example = align_lines-Recovers old_text newer

align_lines-optimal_example : 2 ≤ kept (align_lines "a\nb\nc" "b\nc\nd")
unfolding split
align_lines-optimal_example =
    align_lines-optimal "a\nb\nc" "b\nc\nd" (omega arith) (skip "a" (keep "b" (keep "c" done)))
      (keep "b" (keep "c" (skip "d" done)))

diff_lines-Recovers_example :
    (os : List DiffOp) × (diff_lines old_text newer ≡ some os)
    × Recovers os 0 0 (split old_text) (split newer)
diff_lines-Recovers_example = diff_lines-Recovers old_text newer

unified_lines-changes_example :
    (ls : List DiffLine) × (unified_lines aligned (some 1) ≡ some ls)
    × (filter is_op ls ≡ map op_line (changes aligned))
    × IsRows (changes aligned) (filter is_op ls)
unified_lines-changes_example = unified_lines-changes aligned (some 1)

aligned-IsShaped : All IsShaped aligned
aligned-IsShaped = (
  ("kind: Tenant", refl, refl),
  (
    ("  host: a", refl, refl, refl),
    (
      ("  port: 1", refl, refl, refl),
      (
        ("  host: b", refl, refl, refl),
        (("  port: 2", refl, refl, refl), (("end", refl, refl), (("more", refl, refl, refl), tt))),
      ),
    ),
  ),
)

side_by_side-texts_example :
    (map (λ l. l.text) (side_by_side aligned).left ≡ lefts aligned)
    × (map (λ l. l.text) (side_by_side aligned).right ≡ rights aligned)
side_by_side-texts_example = side_by_side-texts aligned aligned-IsShaped

summarize_lem_example :
    ((summarize aligned).added ≡ count_kind added aligned)
    × ((summarize aligned).removed ≡ count_kind removed aligned)
    × ((summarize aligned).changed ≡ count_kind changed aligned)
    × ((summarize aligned).unchanged ≡ count_kind equal aligned)
    × ((summarize aligned).added
          + (summarize aligned).removed
          + (summarize aligned).changed
          + (summarize aligned).unchanged
        ≡ length aligned)
    × ((summarize aligned).hunks ≡ hunk_ends aligned)
    × ((summarize aligned).hunks ≤ length aligned - (summarize aligned).unchanged)
    × (((summarize aligned).hunks ≡ 0) ↔ (count_kind equal aligned ≡ length aligned))
summarize_lem_example = summarize_lem aligned
