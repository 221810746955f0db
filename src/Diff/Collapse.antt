-- ===== src/Diff/Collapse.antt =====
-- `pairChanges` ends and changes neither text.
use mathlib.Core.Option
use authz_plane.Common.{
  ℕ, zero, suc, ◌≤◌, String, some, List, [], ◌∷◌, ◌++◌, true, false, length, ◌≡◌, refl, arith,
  Bool-cases, inl, inr, ap, subst, ◌∙◌, All, All-append, append-nil, append_assoc,
}
use authz_plane.Diff.Types.{
  added, removed, DiffOp, lefts, rights, left_numbers, right_numbers, IsShaped, split,
}
use authz_plane.Diff.Align.{align_lines}
use authz_plane.Diff.Recover.{Recovers, align_lines-Recovers}
use authz_plane.Diff.Pairs.{
  is_kind, run, rest, pairable, collapse, pair_from, pair_changes, diff_lines,
}
use authz_plane.Diff.Runs.{
  pick-append, run-append-rest, length-rest, IsRun, run-IsRun, rest-IsShaped, rights-removed,
  lefts-added, pick-pair_up_left, pick-pair_up_right, pair_up-IsShaped, IsRun-IsShaped,
}

-- `ps` carries the two texts of `os`, with their numbers, and keeps the shape.
pub record SameText (ps os : List DiffOp) : Type 0 where
  pub left : lefts ps ≡ lefts os
  pub right : rights ps ≡ rights os
  pub left_n : left_numbers ps ≡ left_numbers os
  pub right_n : right_numbers ps ≡ right_numbers os
  pub shaped : All IsShaped ps

collapse-SameText :
    (rs ls : List DiffOp)
    → All (IsRun removed) rs
    → All (IsRun added) ls
    → SameText (collapse rs ls) (rs ++ ls)
unfolding collapse
collapse-SameText rs ls h k =
    let (no_right, no_right_n) = rights-removed rs h in
    let (no_left, no_left_n) = lefts-added ls k in
    elim (Bool-cases (pairable rs ls)) [
      | inr apart ↦ rw apart (record {
        left = refl;
        right = refl;
        left_n = refl;
        right_n = refl;
        shaped =
            All-append IsShaped rs ls (IsRun-IsShaped removed rs h) (IsRun-IsShaped added ls k);
      })
      | inl paired ↦ rw paired (record {
        left =
            rw (pick-append, no_left, append-nil) (pick-pair_up_left _ rs ls (λ r a. refl) paired);
        right = rw (pick-append, no_right) (pick-pair_up_right _ rs ls (λ r a. refl) paired);
        left_n =
            rw (pick-append, no_left_n, append-nil)
              (pick-pair_up_left _ rs ls (λ r a. refl) paired);
        right_n = rw (pick-append, no_right_n) (pick-pair_up_right _ rs ls (λ r a. refl) paired);
        shaped = pair_up-IsShaped rs ls h k;
      })
    ]

SameText-append :
    (ps qs os us : List DiffOp) → SameText ps os → SameText qs us → SameText (ps ++ qs) (os ++ us)
SameText-append ps qs os us h k = record {
  left = simp pick-append (cc (h.left, k.left));
  right = simp pick-append (cc (h.right, k.right));
  left_n = simp pick-append (cc (h.left_n, k.left_n));
  right_n = simp pick-append (cc (h.right_n, k.right_n));
  shaped = All-append IsShaped ps qs h.shaped k.shaped;
}

SameText-cons :
    (o : DiffOp) (ps os : List DiffOp) → IsShaped o → SameText ps os → SameText (o ∷ ps) (o ∷ os)
SameText-cons o ps os p h =
    SameText-append (o ∷ []) ps (o ∷ []) os
      (record { left = refl; right = refl; left_n = refl; right_n = refl; shaped = (p, tt) }) h

-- A removed run, the added run behind it, and what follows.
runs :
    (os : List DiffOp)
    → (run removed os ++ run added (rest removed os)) ++ rest added (rest removed os) ≡ os
runs os =
    append_assoc (run removed os) _ _
    ∙ ap (λ t. run removed os ++ t) (run-append-rest added (rest removed os))
    ∙ run-append-rest removed os

length-rest_lt :
    (o : DiffOp) (os : List DiffOp)
    → is_kind o.kind removed ≡ true
    → length (rest added (rest removed (o ∷ os))) ≤ length os
unfolding rest
length-rest_lt o os h =
    rw h (omega (arith, length-rest added (rest removed os), length-rest removed os))

pair_from-nil : (fuel : ℕ) → pair_from fuel [] ≡ some []
unfolding pair_from
pair_from-nil zero = refl
pair_from-nil (suc fuel) = refl

module _ (fuel : ℕ) (o : DiffOp) (os : List DiffOp) where
  abbrev tail : List DiffOp
  tail = rest removed (o ∷ os)

  abbrev front : List DiffOp
  front = collapse (run removed (o ∷ os)) (run added tail)

  pair_from-removed :
      is_kind o.kind removed ≡ true
      → pair_from (suc fuel) (o ∷ os)
        ≡ Option.map (λ t. front ++ t) (pair_from fuel (rest added tail))
  unfolding pair_from
  pair_from-removed h = rw h

  pair_from-other :
      is_kind o.kind removed ≡ false
      → pair_from (suc fuel) (o ∷ os) ≡ Option.map (λ t. o ∷ t) (pair_from fuel os)
  unfolding pair_from
  pair_from-other h = rw h

pair_from-SameText :
    (fuel : ℕ) (os : List DiffOp)
    → length os ≤ fuel
    → All IsShaped os
    → (ps : List DiffOp) × (pair_from fuel os ≡ some ps) × SameText ps os
pair_from-SameText fuel [] n h = (
  [],
  pair_from-nil fuel,
  record { left = refl; right = refl; left_n = refl; right_n = refl; shaped = tt },
)
pair_from-SameText zero (o ∷ os) n h = absurd (omega arith)
pair_from-SameText (suc fuel) (o ∷ os) n (p, h) = elim (Bool-cases (is_kind o.kind removed)) [
  | inl dels ↦
      let shaped = rest-IsShaped removed (o ∷ os) (p, h) in
      let (ps, e, same) =
        pair_from-SameText fuel (rest added (tail fuel o os))
          (omega (arith, length-rest_lt o os dels)) (rest-IsShaped added (tail fuel o os) shaped) in
      let part =
        collapse-SameText (run removed (o ∷ os)) (run added (tail fuel o os))
          (run-IsRun removed (o ∷ os) (p, h)) (run-IsRun added (tail fuel o os) shaped) in
      (
        front fuel o os ++ ps,
        pair_from-removed fuel o os dels ∙ ap (Option.map (λ t. front fuel o os ++ t)) e,
        subst (SameText (front fuel o os ++ ps)) (runs (o ∷ os))
            (SameText-append _ ps _ _ part same),
      )
  | inr other ↦
      let (ps, e, same) = pair_from-SameText fuel os (omega arith) h in
      (
        o ∷ ps,
        pair_from-other fuel o os other ∙ ap (Option.map (λ t. o ∷ t)) e,
        SameText-cons o ps os p same,
      )
]

-- Whatever the two texts, the loop of `pairChanges` ends, and the diff that it makes still holds
-- every line of both in order with its number, and gives each operation the sides of its kind.
pub diff_lines-Recovers :
    (a b : String)
    → (os : List DiffOp) × (diff_lines a b ≡ some os) × Recovers os 0 0 (split a) (split b)
unfolding diff_lines pair_changes
diff_lines-Recovers a b =
    let r = align_lines-Recovers a b in
    let (ps, e, same) =
      pair_from-SameText (length (align_lines a b)) (align_lines a b) (omega arith) r.shaped in
    (
      ps,
      e,
      record {
        left = same.left ∙ r.left;
        right = same.right ∙ r.right;
        left_n = same.left_n ∙ r.left_n;
        right_n = same.right_n ∙ r.right_n;
        shaped = same.shaped;
      },
    )
