-- ===== src/Common/Search.antt =====
-- Which members `find`, `filter` and `any` return.
use mathlib.Core.Path.{◌≡◌, refl, ap, ◌∙◌}
use mathlib.Core.Logic.{◌⊎◌, inl, inr, ◌↔◌}
use mathlib.Core.Bool.{Bool, true, false, not, ◌||◌, ◌&&◌}
use mathlib.Core.Option.{none, some}
use mathlib.Core.List.{List, [], ◌∷◌, ◌++◌, Memᴰ, map}
use native.Mathlib.Omega.{arith}
use authz_plane.Common.Tests.{Bool-cases}
use Prim.Native.Nat.{◌<◌, ◌≤◌}
use authz_plane.Common.Lists.{any, all, find, filter, length}

pub any-append {ℓ} :
    {A : Type ℓ} (p : A → Bool) (xs ys : List A) → any p (xs ++ ys) ≡ (any p xs || any p ys)
any-append p [] ys = refl
any-append p (x ∷ xs) ys = ground (arith, any-append p xs ys)

pub or-cases : (a b : Bool) → (a || b) ≡ true → (a ≡ true) ⊎ (b ≡ true)
or-cases true b h = inl refl
or-cases false b h = inr h

pub and-cases : (a b : Bool) → (a && b) ≡ true → (a ≡ true) × (b ≡ true)
and-cases true b h = (refl, h)
and-cases false b h = cc

pub or-true_left : (a b : Bool) → a ≡ true → (a || b) ≡ true
or-true_left a b h = rw h

pub or-true_right : (a b : Bool) → b ≡ true → (a || b) ≡ true
or-true_right true b h = refl
or-true_right false b h = h

pub find_sound {ℓ} :
    {A : Type ℓ} (p : A → Bool) (xs : List A) {x : A}
    → find p xs ≡ some x
    → Memᴰ x xs × (p x ≡ true)
find_sound p [] h = cc
find_sound p (y ∷ xs) h = elim (Bool-cases (p y)) [
  | inl here ↦ (Memᴰ.head (ground arith), ground arith)
  | inr there ↦ let (m, t) = find_sound p xs (ground arith) in (Memᴰ.tail m, t)
]

pub find_complete {ℓ} :
    {A : Type ℓ} (p : A → Bool) (x : A) (xs : List A)
    → Memᴰ x xs
    → p x ≡ true
    → (y : A) × (find p xs ≡ some y)
find_complete p x [] m h = elim m [ ]
find_complete p x (y ∷ xs) (Memᴰ.head e) h = (y, ground (arith, ap p e))
find_complete p x (y ∷ xs) (Memᴰ.tail m) h = elim (Bool-cases (p y)) [
  | inl here ↦ (y, rw here)
  | inr there ↦ let (z, e) = find_complete p x xs m h in (z, rw there e)
]

pub mem-cons_cases {ℓ} :
    {A : Type ℓ} {x y : A} {xs : List A} → Memᴰ x (y ∷ xs) → (x ≡ y) ⊎ Memᴰ x xs
mem-cons_cases (Memᴰ.head e) = inl e
mem-cons_cases (Memᴰ.tail m) = inr m

pub filter_sound {ℓ} :
    {A : Type ℓ} (p : A → Bool) (x : A) (xs : List A)
    → Memᴰ x (filter p xs)
    → Memᴰ x xs × (p x ≡ true)
filter_sound p x [] m = elim m [ ]
filter_sound p x (y ∷ xs) m = elim (Bool-cases (p y)) [
  | inl here ↦ elim (mem-cons_cases (rw here at m)) [
    | inl e ↦ (Memᴰ.head e, rw e here)
    | inr k ↦ let (k', t) = filter_sound p x xs k in (Memᴰ.tail k', t)
  ]
  | inr there ↦ let (k, t) = filter_sound p x xs (rw there at m) in (Memᴰ.tail k, t)
]

pub filter_complete {ℓ} :
    {A : Type ℓ} (p : A → Bool) (x : A) (xs : List A)
    → Memᴰ x xs
    → p x ≡ true
    → Memᴰ x (filter p xs)
filter_complete p x [] m h = elim m [ ]
filter_complete p x (y ∷ xs) (Memᴰ.head e) h =
    let e' : p y ≡ true = ground (arith, ap p e) in rw e' (Memᴰ.head e)
filter_complete p x (y ∷ xs) (Memᴰ.tail m) h = elim (Bool-cases (p y)) [
  | inl here ↦ rw here (Memᴰ.tail (filter_complete p x xs m h))
  | inr there ↦ rw there (filter_complete p x xs m h)
]

pub mem-map {ℓ κ} :
    {A : Type ℓ} {B : Type κ} (f : A → B) {x : A} {xs : List A} → Memᴰ x xs → Memᴰ (f x) (map f xs)
mem-map f (Memᴰ.head e) = Memᴰ.head (ap f e)
mem-map f (Memᴰ.tail m) = Memᴰ.tail (mem-map f m)

pub mem-of_map {ℓ κ} :
    {A : Type ℓ} {B : Type κ} (f : A → B) {y : B} (xs : List A)
    → Memᴰ y (map f xs)
    → (x : A) × Memᴰ x xs × (y ≡ f x)
mem-of_map f [] m = elim m [ ]
mem-of_map f (x ∷ xs) m = elim (mem-cons_cases m) [
  | inl e ↦ (x, Memᴰ.head refl, e)
  | inr k ↦ let (z, k', e) = mem-of_map f xs k in (z, Memᴰ.tail k', e)
]

pub find-any {ℓ} :
    {A : Type ℓ} (p : A → Bool) (xs : List A) → (find p xs ≡ none) ↔ (any p xs ≡ false)
find-any p [] = ground arith
find-any p (x ∷ xs) = ground (arith, find-any p xs)

pub find-all {ℓ} :
    {A : Type ℓ} (p : A → Bool) (xs : List A)
    → (find (λ x. not (p x)) xs ≡ none) ↔ (all p xs ≡ true)
find-all p [] = ground arith
find-all p (x ∷ xs) = ground (arith, find-all p xs)

pub any-cong {ℓ} :
    {A : Type ℓ} (p q : A → Bool) (xs : List A) → ((x : A) → p x ≡ q x) → any p xs ≡ any q xs
any-cong p q [] h = refl
any-cong p q (x ∷ xs) h = ground (arith, h x, any-cong p q xs h)

-- A filter that lets less through keeps fewer members, if it drops one that the other keeps.
pub filter-weaker {ℓ} :
    {A : Type ℓ} (p q : A → Bool) (xs : List A)
    → ((x : A) → q x ≡ true → p x ≡ true)
    → length (filter q xs) ≤ length (filter p xs)
filter-weaker p q [] h = omega arith
filter-weaker p q (x ∷ xs) h = ground (arith, h x, filter-weaker p q xs h)

pub filter-drops {ℓ} :
    {A : Type ℓ} (p q : A → Bool) (x : A) (xs : List A)
    → ((y : A) → q y ≡ true → p y ≡ true)
    → Memᴰ x xs
    → p x ≡ true
    → q x ≡ false
    → length (filter q xs) < length (filter p xs)
filter-drops p q x [] h m keep drop = elim m [ ]
filter-drops p q x (y ∷ xs) h (Memᴰ.head e) keep drop =
    ground (arith, ap p e, ap q e, filter-weaker p q xs h)
filter-drops p q x (y ∷ xs) h (Memᴰ.tail m) keep drop =
    ground (arith, h y, filter-drops p q x xs h m keep drop)

pub any-false_iff {ℓ} :
    {A : Type ℓ} (p : A → Bool) (xs : List A)
    → (any p xs ≡ false) ↔ ((x : A) → Memᴰ x xs → p x ≡ false)
any-false_iff p [] = (λ h x m. elim m [ ], λ h. refl)
any-false_iff p (x ∷ xs) = (
  λ h y m. elim (mem-cons_cases m) [
    | inl e ↦ ap p e ∙ ground (arith, h)
    | inr k ↦ (any-false_iff p xs).0 (ground (arith, h)) y k
  ],
  λ h. ground (arith, h x (Memᴰ.head refl), (any-false_iff p xs).1 (λ y k. h y (Memᴰ.tail k))),
)

pub all_iff {ℓ} :
    {A : Type ℓ} (p : A → Bool) (xs : List A)
    → (all p xs ≡ true) ↔ ((x : A) → Memᴰ x xs → p x ≡ true)
all_iff p [] = (λ h x m. elim m [ ], λ h. refl)
all_iff p (x ∷ xs) = (
  λ h y m. elim (mem-cons_cases m) [
    | inl e ↦ ap p e ∙ ground (arith, h)
    | inr k ↦ (all_iff p xs).0 (ground (arith, h)) y k
  ],
  λ h. ground (arith, h x (Memᴰ.head refl), (all_iff p xs).1 (λ y k. h y (Memᴰ.tail k))),
)

pub any_sound {ℓ} :
    {A : Type ℓ} (p : A → Bool) (xs : List A) → any p xs ≡ true → (x : A) × Memᴰ x xs × (p x ≡ true)
any_sound p [] h = cc
any_sound p (x ∷ xs) h = elim (Bool-cases (p x)) [
  | inl found ↦ (x, Memᴰ.head refl, found)
  | inr next ↦ let (y, m, e) = any_sound p xs (ground (arith, next, h)) in (y, Memᴰ.tail m, e)
]

pub any_complete {ℓ} :
    {A : Type ℓ} (p : A → Bool) (xs : List A) (x : A) → Memᴰ x xs → p x ≡ true → any p xs ≡ true
any_complete p xs x m h = elim (Bool-cases (any p xs)) [
  | inl hit ↦ hit
  | inr none_hit ↦ let q = (any-false_iff p xs).0 none_hit x m in cc
]
