-- ===== src/Common/Cursor.antt =====
-- Pages whose cursor is the key of their last item.
use Prim.Native.Nat.{ℕ, zero, suc, ◌+◌, ◌<◌}
use Prim.Native.String.{String}
use mathlib.Core.Path.{◌≡◌, refl, ap, subst}
use mathlib.Core.Logic.{inl, inr}
use mathlib.Core.Bool.{Bool, false}
use mathlib.Core.Option.{none, some}
use mathlib.Core.List.{List, [], ◌∷◌}
use native.Mathlib.Omega.{arith}
use text.Mathlib.Text.{◌==◌}
use text.Mathlib.TextEquality.{eq_iff}
use authz_plane.Common.Tests.{Bool-cases}
use authz_plane.Common.Lists.{length, take, drop, get_elem?, All, last?, find, find_index, filter}

module _ {A : Type 0} where
  pub elem_at : (m : ℕ) (xs : List A) → m < length xs → (x : A) × (get_elem? xs m ≡ some x)
  elem_at m [] h = absurd (omega (arith, h))
  elem_at zero (x ∷ xs) h = (x, refl)
  elem_at (suc m) (x ∷ xs) h = elem_at m xs (omega (arith, h))

  last-take_first :
      (l : ℕ) (xs : List A) (x : A) → get_elem? xs l ≡ some x → last? (take (suc l) xs) ≡ some x
  last-take_first l [] x h = cc
  last-take_first zero (y ∷ xs) x h = h
  last-take_first (suc l) (y ∷ []) x h = cc
  last-take_first (suc l) (y ∷ z ∷ xs) x h = last-take_first l (z ∷ xs) x h

  pub last-take :
      (n l k : ℕ) (xs : List A) (x : A)
      → k ≡ n + l
      → get_elem? xs k ≡ some x
      → last? (take (suc l) (drop n xs)) ≡ some x
  last-take zero l k xs x e h =
      last-take_first l xs x (subst (λ m. get_elem? xs m ≡ some x) (omega arith) h)
  last-take (suc n) l k [] x e h = cc
  last-take (suc n) l zero (y ∷ xs) x e h = absurd (omega arith)
  last-take (suc n) l (suc k) (y ∷ xs) x e h = last-take n l k xs x (omega arith) h

  missing_elem :
      (p : A → Bool) (xs : List A) (m : ℕ) (x : A)
      → find p xs ≡ none
      → get_elem? xs m ≡ some x
      → p x ≡ false
  missing_elem p [] m x h k = cc
  missing_elem p (y ∷ xs) zero x h k =
      let same : y ≡ x = cc in subst (λ z. p z ≡ false) same (ground arith)
  missing_elem p (y ∷ xs) (suc m) x h k = missing_elem p xs m x (ground arith) k

  -- What holds of every member holds of that at a place.
  pub elem_all :
      (P : A → Type 0) (xs : List A) (m : ℕ) (x : A) → All P xs → get_elem? xs m ≡ some x → P x
  elem_all P [] m x h k = cc
  elem_all P (y ∷ xs) zero x (h, hs) k = let same : y ≡ x = cc in subst P same h
  elem_all P (y ∷ xs) (suc m) x (h, hs) k = elem_all P xs m x hs k

module _ {A : Type 0} (key : A → String) where
  -- The test of an item against a key.
  abbrev pub has_key : String → A → Bool
  has_key k x = key x == k

  -- No two items have one key.
  abbrev pub IsDistinctBy : List A → Type 0
  IsDistinctBy [] = Unit
  IsDistinctBy (x ∷ xs) = (find (has_key (key x)) xs ≡ none) × IsDistinctBy xs

  -- The place of an item is found by its key.
  pub find_index-key :
      (xs : List A) (m : ℕ) (x : A)
      → IsDistinctBy xs
      → get_elem? xs m ≡ some x
      → find_index (has_key (key x)) xs ≡ some m
  find_index-key [] m x d h = cc
  find_index-key (y ∷ xs) zero x d h =
      let same : y ≡ x = cc in ground (arith, eq_iff (key y) (key x), ap key same)
  find_index-key (y ∷ xs) (suc m) x (apart, d) h =
      let other = missing_elem (has_key (key y)) xs m x apart h in
      let there = find_index-key xs m x d h in
      ground (arith, eq_iff (key y) (key x), eq_iff (key x) (key y), other, there)

  find-filter : (p q : A → Bool) (xs : List A) → find p xs ≡ none → find p (filter q xs) ≡ none
  find-filter p q [] h = refl
  find-filter p q (x ∷ xs) h = ground (arith, find-filter p q xs)

  pub filter-IsDistinctBy :
      (q : A → Bool) (xs : List A) → IsDistinctBy xs → IsDistinctBy (filter q xs)
  filter-IsDistinctBy q [] d = tt
  filter-IsDistinctBy q (x ∷ xs) (apart, d) = elim (Bool-cases (q x)) [
    | inl kept ↦ rw kept (find-filter (has_key (key x)) q xs apart, filter-IsDistinctBy q xs d)
    | inr dropped ↦ rw dropped (filter-IsDistinctBy q xs d)
  ]
