-- ===== src/Common/Paging.antt =====
-- Lists that are read page by page, each page with the cursor of the next.
use Prim.Native.Nat.{ℕ, zero, suc, ◌+◌, ◌≤◌, ◌<◌}
use Prim.Native.String.{String}
use mathlib.Core.Path.{◌≡◌, refl, ap, ◌∙◌, sym}
use mathlib.Core.Logic.{inl, inr}
use mathlib.Core.Option.{Option, none, some}
use mathlib.Core.List.{List, [], ◌∷◌, ◌++◌}
use native.Mathlib.Omega.{arith}
use authz_plane.Common.Tests.{Option-cases}
use authz_plane.Common.Lists.{length, take, drop, take-append-drop}

-- A page: its items and the cursor of the next, if there is one.
abbrev pub Page : Type 0 → Type 0
Page A = List A × Option String

pub positive : (n : ℕ) → 0 < n → (m : ℕ) × (n ≡ suc m)
positive zero h = absurd (omega (arith, h))
positive (suc m) h = (m, refl)

module _ {A : Type 0} where
  pub take_all : (n : ℕ) (xs : List A) → length xs ≤ n → take n xs ≡ xs
  take_all zero [] h = refl
  take_all (suc n) [] h = refl
  take_all zero (x ∷ xs) h = ground arith
  take_all (suc n) (x ∷ xs) h = ap (λ r. x ∷ r) (take_all n xs (omega arith))

  drop_all : (n : ℕ) (xs : List A) → length xs ≤ n → drop n xs ≡ []
  drop_all zero [] h = refl
  drop_all (suc n) [] h = refl
  drop_all zero (x ∷ xs) h = ground arith
  drop_all (suc n) (x ∷ xs) h = drop_all n xs (omega arith)

  drop-drop : (n m k : ℕ) (xs : List A) → k ≡ n + m → drop m (drop n xs) ≡ drop k xs
  drop-drop zero m k xs h = ap (λ k. drop k xs) (omega arith)
  drop-drop (suc n) zero zero [] h = refl
  drop-drop (suc n) (suc m) zero [] h = refl
  drop-drop (suc n) zero (suc k) [] h = refl
  drop-drop (suc n) (suc m) (suc k) [] h = refl
  drop-drop (suc n) m zero (x ∷ xs) h = ground arith
  drop-drop (suc n) m (suc k) (x ∷ xs) h = drop-drop n m k xs (omega arith)

  -- The pages from a cursor on, one after another, at most `fuel` of them.
  abbrev pub pages_from : ℕ → (Option String → Page A) → Option String → List A
  pages_from zero page cursor = []
  pages_from (suc fuel) page cursor = elim (page cursor).1 [
    | none ↦ (page cursor).0
    | some c ↦ (page cursor).0 ++ pages_from fuel page (some c)
  ]

  module _ (all : List A) (limit : ℕ) (offset : Option String → ℕ)
      (page : Option String → Page A) where
    -- A page without a cursor is the rest, and one with a cursor is followed by what the cursor
    -- stands for.
    abbrev pub Follows : Option String → Type 0
    Follows cursor =
        ((page cursor).1 ≡ none → (page cursor).0 ≡ drop (offset cursor) all)
        × ((c : String)
            → (page cursor).1 ≡ some c
            → (offset (some c) ≡ offset cursor + limit)
              × (offset (some c) < length all)
              × ((page cursor).0 ≡ take limit (drop (offset cursor) all)))

    pub pages_from-drop :
        (fuel : ℕ) (cursor : Option String)
        → 0 < limit
        → ((c : Option String) → Follows c)
        → length all < offset cursor + fuel
        → pages_from fuel page cursor ≡ drop (offset cursor) all
    pages_from-drop zero cursor l h k = sym (drop_all (offset cursor) all (omega arith))
    pages_from-drop (suc fuel) cursor l h k =
        let (last, more) = h cursor in
        elim (Option-cases (page cursor).1) [
          | inl end ↦ rw (pages_from, end) (last end)
          | inr (c, next) ↦
              let (at, below, items) = more c next in
              let rest = pages_from-drop fuel (some c) l h (omega arith) in
              rw (pages_from, next, rest, items)
                (ap (λ r. take limit (drop (offset cursor) all) ++ r)
                    (sym (drop-drop (offset cursor) limit (offset (some c)) all at))
                  ∙ take-append-drop limit (drop (offset cursor) all))
        ]
