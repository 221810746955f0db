-- ===== src/Diff/Summary.antt =====
-- The summary counts every operation once, and calls a diff unchanged exactly when it is.
use authz_plane.Common.{
  ℕ, suc, ◌+◌, ◌-◌, ◌≤◌, List, [], ◌∷◌, Bool, true, false, length, ◌≡◌, ◌↔◌, refl, arith,
}
use authz_plane.Diff.Types.{DiffOpKind, equal, added, removed, changed, DiffOp}
use authz_plane.Diff.Pairs.{is_kind}
use authz_plane.Diff.Views.{DiffSummary, no_ops, count_op, summarize_from, summarize}

-- How often a kind occurs.
abbrev pub count_kind : DiffOpKind → List DiffOp → ℕ
count_kind k [] = 0
count_kind k (o ∷ os) = elim (is_kind o.kind k) [
  | true ↦ suc (count_kind k os)
  | false ↦ count_kind k os
]

-- The counts of `t` are those of `s` and those of `os`.
record Adds (s t : DiffSummary) (os : List DiffOp) : Type 0 where
  added_n : t.added ≡ s.added + count_kind added os
  removed_n : t.removed ≡ s.removed + count_kind removed os
  changed_n : t.changed ≡ s.changed + count_kind changed os
  unchanged_n : t.unchanged ≡ s.unchanged + count_kind equal os
  hunks_ge : s.hunks ≤ t.hunks
  hunks_le :
      t.hunks ≤ s.hunks + (count_kind added os + count_kind removed os + count_kind changed os)

summarize_from-Adds :
    (s : DiffSummary) (in_hunk : Bool) (os : List DiffOp)
    → Adds s (summarize_from (s, in_hunk) os) os
unfolding summarize_from
summarize_from-Adds s in_hunk [] = ground arith
summarize_from-Adds s in_hunk (o ∷ os) =
    let (t, b) = count_op o.kind (s, in_hunk) in ground (arith, summarize_from-Adds t b os)

-- Outside a hunk, a change opens one.
summarize_from-hunks :
    (s : DiffSummary) (os : List DiffOp)
    → (summarize_from (s, false) os).hunks ≡ s.hunks
    → count_kind equal os ≡ length os
unfolding summarize_from
summarize_from-hunks s [] h = refl
summarize_from-hunks s (o ∷ os) h =
    let (t, b) = count_op o.kind (s, false) in
    ground (arith, summarize_from-hunks t os, summarize_from-Adds t b os)

count_kind-length :
    (os : List DiffOp)
    → count_kind equal os + count_kind added os + count_kind removed os + count_kind changed os
      ≡ length os
count_kind-length [] = omega arith
count_kind-length (o ∷ os) = ground (arith, count_kind-length os)

-- How many runs of changes end in the list: a change does that which no other change follows at
-- once.
abbrev pub hunk_ends : List DiffOp → ℕ
hunk_ends [] = 0
hunk_ends (o ∷ []) = elim (is_kind o.kind equal) [ true ↦ 0 | false ↦ 1 ]
hunk_ends (o ∷ p ∷ os) =
    elim (is_kind o.kind equal) [
      | true ↦ 0
      | false ↦ elim (is_kind p.kind equal) [ true ↦ 1 | false ↦ 0 ]
    ]
    + hunk_ends (p ∷ os)

-- One if the list begins with a change.
abbrev begins : List DiffOp → ℕ
begins [] = 0
begins (o ∷ os) = elim (is_kind o.kind equal) [ true ↦ 0 | false ↦ 1 ]

-- Inside a hunk, the first run of changes continues that hunk.
abbrev continued : Bool → List DiffOp → ℕ
continued true os = begins os
continued false os = 0

summarize_from-hunk_ends :
    (s : DiffSummary) (in_hunk : Bool) (os : List DiffOp)
    → (summarize_from (s, in_hunk) os).hunks + continued in_hunk os ≡ s.hunks + hunk_ends os
unfolding summarize_from
summarize_from-hunk_ends s in_hunk [] = ground arith
summarize_from-hunk_ends s in_hunk (o ∷ []) = ground arith
summarize_from-hunk_ends s in_hunk (o ∷ p ∷ os) =
    let (t, b) = count_op o.kind (s, in_hunk) in
    ground (arith, summarize_from-hunk_ends t b (p ∷ os))

-- The summary's four counts are the numbers of operations of each kind, which together are all of
-- them. There is one hunk for each change that no other change follows at once, which is the last of
-- its run; there are at most as many hunks as changes, and none exactly when every operation is an
-- equal one.
pub summarize_lem :
    (os : List DiffOp)
    → ((summarize os).added ≡ count_kind added os)
      × ((summarize os).removed ≡ count_kind removed os)
      × ((summarize os).changed ≡ count_kind changed os)
      × ((summarize os).unchanged ≡ count_kind equal os)
      × ((summarize os).added
            + (summarize os).removed
            + (summarize os).changed
            + (summarize os).unchanged
          ≡ length os)
      × ((summarize os).hunks ≡ hunk_ends os)
      × ((summarize os).hunks ≤ length os - (summarize os).unchanged)
      × (((summarize os).hunks ≡ 0) ↔ (count_kind equal os ≡ length os))
unfolding summarize
summarize_lem os =
    let a = summarize_from-Adds no_ops false os in
    omega (
      arith,
      count_kind-length os,
      a.added_n,
      a.removed_n,
      a.changed_n,
      a.unchanged_n,
      a.hunks_le,
      summarize_from-hunk_ends no_ops false os,
      summarize_from-hunks no_ops os,
    )
