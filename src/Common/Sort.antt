-- ===== src/Common/Sort.antt =====
-- `xs.sort(f)`: a stable sort by a comparison that does not contradict itself. Of the stable sorts
-- this is the one by insertion; what they give is the same.
use mathlib.Core.Path.{◌≡◌, refl, subst}
use mathlib.Core.Logic.{inl, inr}
use mathlib.Core.Bool.{Bool, true, false}
use mathlib.Core.List.{List, [], ◌∷◌, Perm, Memᴰ}
use mathlib.Core.List.Perm
use authz_plane.Common.Tests.{if◌then◌else◌, Bool-cases}
use authz_plane.Common.Search.{mem-cons_cases}
use authz_plane.Common.Lists.{All, All-filter, filter}

-- Every element stands in the relation to each of those behind it.
abbrev pub Ordered {ℓ} : {A : Type ℓ} → (A → A → Type 0) → List A → Type 0
Ordered R [] = Unit
Ordered R (x ∷ xs) = All (R x) xs × Ordered R xs

All-map {ℓ} :
    {A : Type ℓ} {P Q : A → Type 0} → ((x : A) → P x → Q x) → (xs : List A) → All P xs → All Q xs
All-map f [] h = tt
All-map f (x ∷ xs) (p, h) = (f x p, All-map f xs h)

module _ {ℓ} {A : Type ℓ} (at_most : A → A → Bool) where
  abbrev pub insert_by : A → List A → List A
  insert_by x [] = x ∷ []
  insert_by x (y ∷ ys) = let rest = insert_by x ys in if at_most x y then x ∷ y ∷ ys else y ∷ rest

  unfoldable pub sort_by : List A → List A
  sort_by [] = []
  sort_by (x ∷ xs) = insert_by x (sort_by xs)

  -- Every element is at most each of those behind it.
  pub data IsSorted : List A → Type ℓ where
    nil : IsSorted []
    cons :
        {x : A} {xs : List A} → All (λ y. at_most x y ≡ true) xs → IsSorted xs → IsSorted (x ∷ xs)

  -- In a list that is sorted by the test, every element stands in a relation that the test implies to
  -- each of those behind it.
  pub IsSorted-Ordered :
      (R : A → A → Type 0)
      → ((x y : A) → at_most x y ≡ true → R x y)
      → (xs : List A) → IsSorted xs
      → Ordered R xs
  IsSorted-Ordered R sound [] s = tt
  IsSorted-Ordered R sound (x ∷ xs) (IsSorted.cons a s) =
      (All-map (sound x) xs a, IsSorted-Ordered R sound xs s)

  insert_by-Perm : (x : A) (ys : List A) → Perm (insert_by x ys) (x ∷ ys)
  insert_by-Perm x [] = Perm.refl (x ∷ [])
  insert_by-Perm x (y ∷ ys) = elim (Bool-cases (at_most x y)) [
    | inl here ↦ rw here (Perm.refl (x ∷ y ∷ ys))
    | inr there ↦ rw there (Perm.trans (Perm.cons y (insert_by-Perm x ys)) (Perm.swap x y ys))
  ]

  pub sort_by-Perm : (xs : List A) → Perm (sort_by xs) xs
  unfolding sort_by
  sort_by-Perm [] = Perm.refl []
  sort_by-Perm (x ∷ xs) = Perm.trans (insert_by-Perm x (sort_by xs)) (Perm.cons x (sort_by-Perm xs))

  -- Sorting and filtering keep each element that passes as often as it is there.
  filter-insert_by-Perm :
      (p : A → Bool) (x : A) (ys : List A) → Perm (filter p (insert_by x ys)) (filter p (x ∷ ys))
  filter-insert_by-Perm p x [] = Perm.refl (filter p (x ∷ []))
  filter-insert_by-Perm p x (y ∷ ys) = elim (Bool-cases (at_most x y)) [
    | inl here ↦ rw here (Perm.refl (filter p (x ∷ y ∷ ys)))
    | inr there ↦
        let q = filter-insert_by-Perm p x ys in
        rw there (elim (Bool-cases (p y)) [
          | inr out ↦ rw out q
          | inl kept ↦ elim (Bool-cases (p x)) [
            | inl here ↦
                rw (kept, here)
                  (Perm.trans
                    (Perm.cons y (subst (λ l. Perm (filter p (insert_by x ys)) l) (rw here refl) q))
                    (Perm.swap x y (filter p ys)))
            | inr out ↦
                rw (kept, out)
                  (Perm.cons y (subst (λ l. Perm (filter p (insert_by x ys)) l) (rw out refl) q))
          ]
        ])
  ]

  pub filter-sort_by-Perm :
      (p : A → Bool) (xs : List A) → Perm (filter p (sort_by xs)) (filter p xs)
  unfolding sort_by
  filter-sort_by-Perm p [] = Perm.refl []
  filter-sort_by-Perm p (x ∷ xs) =
      let q = filter-sort_by-Perm p xs in
      Perm.trans (filter-insert_by-Perm p x (sort_by xs))
        (elim (Bool-cases (p x)) [ inl here ↦ rw here (Perm.cons x q) | inr out ↦ rw out q ])

  insert_by_sound : (z x : A) (ys : List A) → Memᴰ z (insert_by x ys) → Memᴰ z (x ∷ ys)
  insert_by_sound z x [] m = m
  insert_by_sound z x (y ∷ ys) m = elim (Bool-cases (at_most x y)) [
    | inl here ↦ rw here at m
    | inr there ↦ elim (mem-cons_cases (rw there at m)) [
      | inl e ↦ Memᴰ.tail (Memᴰ.head e)
      | inr k ↦ elim (mem-cons_cases (insert_by_sound z x ys k)) [
        | inl e ↦ Memᴰ.head e
        | inr l ↦ Memᴰ.tail (Memᴰ.tail l)
      ]
    ]
  ]

  insert_by_complete : (z x : A) (ys : List A) → Memᴰ z (x ∷ ys) → Memᴰ z (insert_by x ys)
  insert_by_complete z x [] m = m
  insert_by_complete z x (y ∷ ys) m = elim (Bool-cases (at_most x y)) [
    | inl here ↦ rw here m
    | inr there ↦ rw there (elim (mem-cons_cases m) [
      | inl e ↦ Memᴰ.tail (insert_by_complete z x ys (Memᴰ.head e))
      | inr k ↦ elim (mem-cons_cases k) [
        | inl e ↦ Memᴰ.head e
        | inr l ↦ Memᴰ.tail (insert_by_complete z x ys (Memᴰ.tail l))
      ]
    ])
  ]

  pub sort_by_sound : (z : A) (xs : List A) → Memᴰ z (sort_by xs) → Memᴰ z xs
  unfolding sort_by
  sort_by_sound z [] m = m
  sort_by_sound z (x ∷ xs) m = elim (mem-cons_cases (insert_by_sound z x (sort_by xs) m)) [
    | inl e ↦ Memᴰ.head e
    | inr k ↦ Memᴰ.tail (sort_by_sound z xs k)
  ]

  pub sort_by_complete : (z : A) (xs : List A) → Memᴰ z xs → Memᴰ z (sort_by xs)
  unfolding sort_by
  sort_by_complete z [] m = m
  sort_by_complete z (x ∷ xs) m = insert_by_complete z x (sort_by xs) (elim (mem-cons_cases m) [
    | inl e ↦ Memᴰ.head e
    | inr k ↦ Memᴰ.tail (sort_by_complete z xs k)
  ])

  pub filter-IsSorted : (p : A → Bool) (xs : List A) → IsSorted xs → IsSorted (filter p xs)
  filter-IsSorted p [] s = s
  filter-IsSorted p (x ∷ xs) (IsSorted.cons a s) = elim (Bool-cases (p x)) [
    | inl here ↦
        rw here
          (IsSorted.cons (All-filter (λ y. at_most x y ≡ true) p xs a) (filter-IsSorted p xs s))
    | inr there ↦ rw there (filter-IsSorted p xs s)
  ]

  module _ (total : (x y : A) → at_most x y ≡ false → at_most y x ≡ true)
      (trans : (x y z : A) → at_most x y ≡ true → at_most y z ≡ true → at_most x z ≡ true) where
    All-insert_by :
        (z x : A) (ys : List A)
        → at_most z x ≡ true
        → All (λ y. at_most z y ≡ true) ys
        → All (λ y. at_most z y ≡ true) (insert_by x ys)
    All-insert_by z x [] h k = (h, tt)
    All-insert_by z x (y ∷ ys) h (k, ks) = elim (Bool-cases (at_most x y)) [
      | inl here ↦ rw here (h, (k, ks))
      | inr there ↦ rw there (k, All-insert_by z x ys h ks)
    ]

    All-trans :
        (x y : A) (ys : List A)
        → at_most x y ≡ true
        → All (λ z. at_most y z ≡ true) ys
        → All (λ z. at_most x z ≡ true) ys
    All-trans x y [] h k = tt
    All-trans x y (z ∷ zs) h (k, ks) = (trans x y z h k, All-trans x y zs h ks)

    insert_by-IsSorted : (x : A) (ys : List A) → IsSorted ys → IsSorted (insert_by x ys)
    insert_by-IsSorted x [] s = IsSorted.cons tt IsSorted.nil
    insert_by-IsSorted x (y ∷ ys) (IsSorted.cons a s) = elim (Bool-cases (at_most x y)) [
      | inl here ↦ rw here (IsSorted.cons (here, All-trans x y ys here a) (IsSorted.cons a s))
      | inr there ↦
          rw there
            (IsSorted.cons (All-insert_by y x ys (total x y there) a) (insert_by-IsSorted x ys s))
    ]

    pub sort_by-IsSorted : (xs : List A) → IsSorted (sort_by xs)
    unfolding sort_by
    sort_by-IsSorted [] = IsSorted.nil
    sort_by-IsSorted (x ∷ xs) = insert_by-IsSorted x (sort_by xs) (sort_by-IsSorted xs)
