-- ===== src/Diff/Runs.antt =====
-- A run of operations of one kind, and what pairing two runs carries.
use authz_plane.Common.{
  ◌≤◌, String, Option, some, List, [], ◌∷◌, ◌++◌, true, length, ◌≡◌, refl, arith, Bool-cases, inl,
  inr, All,
}
use authz_plane.Diff.Types.{
  DiffOpKind, added, removed, DiffOp, pick, lefts, rights, left_numbers, right_numbers, IsShaped,
}
use authz_plane.Diff.Pairs.{is_kind, run, rest, pairable, changed_op, pair_up}

pub pick-append {ℓ} :
    {A : Type ℓ} (f : DiffOp → Option A) (os ps : List DiffOp)
    → pick f (os ++ ps) ≡ pick f os ++ pick f ps
pick-append f [] ps = refl
pick-append f (o ∷ os) ps = ground (arith, pick-append f os ps)

pub run-append-rest : (k : DiffOpKind) (os : List DiffOp) → run k os ++ rest k os ≡ os
unfolding run rest
run-append-rest k [] = refl
run-append-rest k (o ∷ os) = ground (arith, run-append-rest k os)

pub length-rest : (k : DiffOpKind) (os : List DiffOp) → length (rest k os) ≤ length os
unfolding rest
length-rest k [] = omega arith
length-rest k (o ∷ os) = ground (arith, length-rest k os)

-- Of the kind `k` only, and shaped.
abbrev pub IsRun : DiffOpKind → DiffOp → Type 0
IsRun k o = (o.kind ≡ k) × IsShaped o

is_kind-eq : (j k : DiffOpKind) → is_kind j k ≡ true → j ≡ k
is_kind-eq j k h = ground arith

pub run-IsRun : (k : DiffOpKind) (os : List DiffOp) → All IsShaped os → All (IsRun k) (run k os)
unfolding run
run-IsRun k [] h = tt
run-IsRun k (o ∷ os) (p, h) = elim (Bool-cases (is_kind o.kind k)) [
  | inl same ↦ rw same ((is_kind-eq o.kind k same, p), run-IsRun k os h)
  | inr other ↦ rw other tt
]

pub rest-IsShaped : (k : DiffOpKind) (os : List DiffOp) → All IsShaped os → All IsShaped (rest k os)
unfolding rest
rest-IsShaped k [] h = tt
rest-IsShaped k (o ∷ os) (p, h) = elim (Bool-cases (is_kind o.kind k)) [
  | inl same ↦ rw same (rest-IsShaped k os h)
  | inr other ↦ rw other (p, h)
]

-- A removed run has nothing on the right, and an added one nothing on the left.
pub rights-removed :
    (os : List DiffOp) → All (IsRun removed) os → (rights os ≡ []) × (right_numbers os ≡ [])
rights-removed [] h = (refl, refl)
rights-removed (o ∷ os) ((e, p), h) = ground (arith, rights-removed os h)

pub lefts-added :
    (os : List DiffOp) → All (IsRun added) os → (lefts os ≡ []) × (left_numbers os ≡ [])
lefts-added [] h = (refl, refl)
lefts-added (o ∷ os) ((e, p), h) = ground (arith, lefts-added os h)

pub pick-pair_up_left {ℓ} :
    {A : Type ℓ} (f : DiffOp → Option A) (rs ls : List DiffOp)
    → ((r a : DiffOp) → f (changed_op r a) ≡ f r)
    → pairable rs ls ≡ true
    → pick f (pair_up rs ls) ≡ pick f rs
unfolding pair_up pairable
pick-pair_up_left f [] ls e h = refl
pick-pair_up_left f (r ∷ rs) [] e h = cc
pick-pair_up_left f (r ∷ rs) (a ∷ ls) e h = ground (arith, e r a, pick-pair_up_left f rs ls e)

pub pick-pair_up_right {ℓ} :
    {A : Type ℓ} (f : DiffOp → Option A) (rs ls : List DiffOp)
    → ((r a : DiffOp) → f (changed_op r a) ≡ f a)
    → pairable rs ls ≡ true
    → pick f (pair_up rs ls) ≡ pick f ls
unfolding pair_up pairable
pick-pair_up_right f [] [] e h = refl
pick-pair_up_right f [] (a ∷ ls) e h = cc
pick-pair_up_right f (r ∷ rs) [] e h = cc
pick-pair_up_right f (r ∷ rs) (a ∷ ls) e h = ground (arith, e r a, pick-pair_up_right f rs ls e)

pub pair_up-IsShaped :
    (rs ls : List DiffOp)
    → All (IsRun removed) rs
    → All (IsRun added) ls
    → All IsShaped (pair_up rs ls)
unfolding pair_up
pair_up-IsShaped [] ls h k = tt
pair_up-IsShaped (r ∷ rs) [] h k = tt
pair_up-IsShaped (r ∷ rs) (a ∷ ls) ((e, p), h) ((d, q), k) =
    (sides r a e p d q, pair_up-IsShaped rs ls h k)
  where
    sides :
        (x y : DiffOp)
        → x.kind ≡ removed
        → IsShaped x
        → y.kind ≡ added
        → IsShaped y
        → (l : String) × (b : String) × (x.left ≡ some l) × (y.right ≡ some b)
    sides x y e p d q = let p' = rw e at p in let q' = rw d at q in (p'.0, q'.0, p'.1, q'.2)

pub IsRun-IsShaped : (k : DiffOpKind) (os : List DiffOp) → All (IsRun k) os → All IsShaped os
IsRun-IsShaped k [] h = tt
IsRun-IsShaped k (o ∷ os) ((e, p), h) = (p, IsRun-IsShaped k os h)
