-- ===== src/Common/Lists.antt =====
-- Lists measured, indexed and searched the way JavaScript arrays are.
use Prim.Native.Nat.{ℕ, zero, suc, ◌+◌, ◌-◌, ◌≤◌, min}
use mathlib.Core.Path.{◌≡◌, refl, ap, ◌∙◌}
use mathlib.Core.Bool.{Bool, true, false, ◌&&◌, ◌||◌}
use mathlib.Core.List.{List, [], ◌∷◌, ◌++◌, map}
use mathlib.Core.Option.{Option, none, some}
use native.Mathlib.Omega.{arith}
use authz_plane.Common.Tests.{if◌then◌else◌}

module _ {ℓ} {A : Type ℓ} where
  abbrev pub length : List A → ℕ
  length [] = 0
  length (x ∷ xs) = suc (length xs)

  abbrev pub get_or : List A → ℕ → A → A
  get_or [] i d = d
  get_or (x ∷ xs) zero d = x
  get_or (x ∷ xs) (suc i) d = get_or xs i d

  abbrev pub get_elem? : List A → ℕ → Option A
  get_elem? [] i = none
  get_elem? (x ∷ xs) zero = some x
  get_elem? (x ∷ xs) (suc i) = get_elem? xs i

  abbrev pub take : ℕ → List A → List A
  take zero xs = []
  take (suc n) [] = []
  take (suc n) (x ∷ xs) = x ∷ take n xs

  abbrev pub drop : ℕ → List A → List A
  drop zero xs = xs
  drop (suc n) [] = []
  drop (suc n) (x ∷ xs) = drop n xs

  -- `xs.some(p)`, `xs.every(p)`, `xs.find(p)`, `xs.filter(p)`
  abbrev pub any : (A → Bool) → List A → Bool
  any p [] = false
  any p (x ∷ xs) = p x || any p xs

  abbrev pub all : (A → Bool) → List A → Bool
  all p [] = true
  all p (x ∷ xs) = p x && all p xs

  abbrev pub find : (A → Bool) → List A → Option A
  find p [] = none
  find p (x ∷ xs) = if p x then some x else find p xs

  abbrev pub filter : (A → Bool) → List A → List A
  filter p [] = []
  filter p (x ∷ xs) = if p x then x ∷ filter p xs else filter p xs

  -- `xs.findIndex(p)`, with `none` for -1
  abbrev pub find_index : (A → Bool) → List A → Option ℕ
  find_index p [] = none
  find_index p (x ∷ xs) =
      if p x then some 0 else elim (find_index p xs) [ none ↦ none | some i ↦ some (suc i) ]

  abbrev pub last? : List A → Option A
  last? [] = none
  last? (x ∷ []) = some x
  last? (x ∷ y ∷ ys) = last? (y ∷ ys)

module _ {ℓ κ} {A : Type ℓ} (P : A → Type κ) where
  -- `P` holds of every member.
  abbrev pub All : List A → Type κ
  All [] = Unit
  All (x ∷ xs) = P x × All xs

module _ {ℓ} {A : Type ℓ} where
  pub length-append : (xs ys : List A) → length (xs ++ ys) ≡ length xs + length ys
  length-append [] ys = omega arith
  length-append (x ∷ xs) ys = omega (arith, length-append xs ys)

  pub length-map {κ} : {B : Type κ} (f : A → B) (xs : List A) → length (map f xs) ≡ length xs
  length-map f [] = refl
  length-map f (x ∷ xs) = ap suc (length-map f xs)

  pub take-append-drop : (n : ℕ) (xs : List A) → take n xs ++ drop n xs ≡ xs
  take-append-drop zero xs = refl
  take-append-drop (suc n) [] = refl
  take-append-drop (suc n) (x ∷ xs) = ap (λ r. x ∷ r) (take-append-drop n xs)

  pub length-take : (n : ℕ) (xs : List A) → length (take n xs) ≡ min n (length xs)
  length-take zero xs = omega arith
  length-take (suc n) [] = omega arith
  length-take (suc n) (x ∷ xs) = omega (arith, length-take n xs)

  pub length-drop : (n : ℕ) (xs : List A) → length (drop n xs) ≡ length xs - n
  length-drop zero xs = omega arith
  length-drop (suc n) [] = omega arith
  length-drop (suc n) (x ∷ xs) = omega (arith, length-drop n xs)

  pub length-filter : (p : A → Bool) (xs : List A) → length (filter p xs) ≤ length xs
  length-filter p [] = omega arith
  length-filter p (x ∷ xs) = ground (arith, length-filter p xs)

module _ {ℓ κ} {A : Type ℓ} (P : A → Type κ) where
  pub All-append : (xs ys : List A) → All P xs → All P ys → All P (xs ++ ys)
  All-append [] ys h k = k
  All-append (x ∷ xs) ys (p, h) k = (p, All-append xs ys h k)

  pub All-filter : (q : A → Bool) (xs : List A) → All P xs → All P (filter q xs)
  All-filter q [] h = tt
  All-filter q (x ∷ xs) (p, h) = ground (arith, All-filter q xs h)

drop-suc :
    {A : Type 0} (n : ℕ) (xs : List A) {x : A} {r : List A}
    → drop n xs ≡ x ∷ r
    → (get_elem? xs n ≡ some x) × (drop (suc n) xs ≡ r)
drop-suc zero [] h = cc
drop-suc zero (y ∷ xs) h = (cc, cc)
drop-suc (suc n) [] h = cc
drop-suc (suc n) (y ∷ xs) h = drop-suc n xs h

-- The first element behind a drop, and the rest.
pub get_elem?-drop :
    {A : Type 0} (n : ℕ) (xs : List A) {x : A} {r : List A}
    → drop n xs ≡ x ∷ r
    → (get_elem? xs n ≡ some x) × (drop (n + 1) xs ≡ r)
get_elem?-drop n xs {r = r} h =
    let (here, rest) = drop-suc n xs h in
    let one : n + 1 ≡ suc n = omega arith in (here, ap (λ k. drop k xs) one ∙ rest)
