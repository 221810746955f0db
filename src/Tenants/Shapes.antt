-- ===== src/Tenants/Shapes.antt =====
-- What `validateSlug` accepts, and what `deriveSlug` makes.
use Prim.Native.Char.{Char}
use Prim.Native.String.{String, [], ◌∷◌}
use authz_plane.Common.{
  ℕ, zero, suc, ◌≤◌, ◌⊎◌, ◌↔◌, none, Bool, true, false, ◌&&◌, ◌==◌, ◌≡◌, refl, arith, text_length,
  text_take, inl, inr, and-cases, or-cases, or-true_left, if_cases,
}
use authz_plane.Common.Chars.{all_chars}
use authz_plane.Tenants.Slug.{
  slug_max, is_alnum, is_hyphen, is_slug_char, ends_alnum, slug_pattern, is_slug, validate_slug,
  without_marks, hyphenate, drop_hyphens, drop_end_hyphens, derive_slug,
}

-- The form's check of a slug finds nothing exactly when the schema of the create request accepts it.
pub validate_slug-is_slug : (slug : String) → (validate_slug slug ≡ none) ↔ (is_slug slug ≡ true)
unfolding validate_slug is_slug
validate_slug-is_slug slug = ground arith

-- Of lower-case letters, digits and hyphens.
abbrev Plain : String → Type 0
Plain s = all_chars is_slug_char s ≡ true

and-true : {a b : Bool} → a ≡ true → b ≡ true → (a && b) ≡ true
and-true h k = rw (h, k) refl

hyphenate-Plain : (after : Bool) (s : String) → Plain (hyphenate after s)
unfolding hyphenate all_chars
hyphenate-Plain after [] = refl
hyphenate-Plain true (c ∷ s) =
    if_cases Plain (is_alnum c) _ _
      (λ held. and-true (or-true_left (is_alnum c) (is_hyphen c) held) (hyphenate-Plain false s))
      (λ failed. hyphenate-Plain true s)
hyphenate-Plain false (c ∷ s) =
    if_cases Plain (is_alnum c) _ _
      (λ held. and-true (or-true_left (is_alnum c) (is_hyphen c) held) (hyphenate-Plain false s))
      (λ failed. hyphenate-Plain true s)

-- A letter or digit comes first, if anything does.
starts_alnum : String → Bool
starts_alnum [] = true
starts_alnum (c ∷ s) = is_alnum c

alnum_of : (c : Char) → is_slug_char c ≡ true → is_hyphen c ≡ false → is_alnum c ≡ true
alnum_of c h k = elim (or-cases _ _ h) [ inl a ↦ a | inr b ↦ ground (arith, b, k) ]

ends_of :
    (c : Char) (s : String)
    → is_slug_char c ≡ true
    → ends_alnum s ≡ true
    → (s == "" && is_hyphen c) ≡ false
    → ends_alnum (c ∷ s) ≡ true
unfolding ends_alnum
ends_of c [] h e k = alnum_of c h k
ends_of c (d ∷ s) h e k = e

drop_hyphens-Plain :
    (s : String) → Plain s → Plain (drop_hyphens s) × (starts_alnum (drop_hyphens s) ≡ true)
unfolding drop_hyphens all_chars starts_alnum
drop_hyphens-Plain [] h = (refl, refl)
drop_hyphens-Plain (c ∷ s) h =
    if_cases (λ t. Plain t × (starts_alnum t ≡ true)) (is_hyphen c) _ _
      (λ held. drop_hyphens-Plain s (and-cases _ _ h).1)
      (λ failed. (h, alnum_of c (and-cases _ _ h).0 failed))

drop_end_hyphens-Plain :
    (s : String) → Plain s → Plain (drop_end_hyphens s) × (ends_alnum (drop_end_hyphens s) ≡ true)
unfolding drop_end_hyphens all_chars ends_alnum
drop_end_hyphens-Plain [] h = (refl, refl)
drop_end_hyphens-Plain (c ∷ s) h =
    let (here, rest) = and-cases _ _ h in
    let (plain, ends) = drop_end_hyphens-Plain s rest in
    if_cases (λ t. Plain t × (ends_alnum t ≡ true)) (drop_end_hyphens s == "" && is_hyphen c) _ _
      (λ held. (refl, refl))
      (λ failed. (and-true here plain, ends_of c (drop_end_hyphens s) here ends failed))

drop_end_hyphens-starts :
    (s : String) → starts_alnum s ≡ true → starts_alnum (drop_end_hyphens s) ≡ true
unfolding drop_end_hyphens starts_alnum
drop_end_hyphens-starts [] h = refl
drop_end_hyphens-starts (c ∷ s) h =
    if_cases (λ t. starts_alnum t ≡ true) (drop_end_hyphens s == "" && is_hyphen c) _ _
      (λ held. refl) (λ failed. h)

drop_end_hyphens-length : (s : String) → text_length (drop_end_hyphens s) ≤ text_length s
unfolding drop_end_hyphens text_length
drop_end_hyphens-length [] = omega arith
drop_end_hyphens-length (c ∷ s) =
    if_cases (λ t. text_length t ≤ suc (text_length s)) (drop_end_hyphens s == "" && is_hyphen c) _
      _ (λ held. omega arith) (λ failed. omega (arith, drop_end_hyphens-length s))

take-Plain : (n : ℕ) (s : String) → Plain s → Plain (text_take n s)
unfolding text_take all_chars
take-Plain zero s h = refl
take-Plain (suc n) [] h = refl
take-Plain (suc n) (c ∷ s) h = ground (arith, take-Plain n s)

take-starts : (n : ℕ) (s : String) → starts_alnum s ≡ true → starts_alnum (text_take n s) ≡ true
unfolding text_take starts_alnum
take-starts zero s h = refl
take-starts (suc n) [] h = refl
take-starts (suc n) (c ∷ s) h = h

take-length : (n : ℕ) (s : String) → text_length (text_take n s) ≤ n
unfolding text_take text_length
take-length zero s = omega arith
take-length (suc n) [] = omega arith
take-length (suc n) (c ∷ s) = omega (arith, take-length n s)

pattern_of :
    (s : String)
    → Plain s
    → starts_alnum s ≡ true
    → ends_alnum s ≡ true
    → (s ≡ "") ⊎ (slug_pattern s ≡ true)
unfolding slug_pattern all_chars ends_alnum starts_alnum
pattern_of [] p h k = inl refl
pattern_of (c ∷ []) p h k = inr (and-true h refl)
pattern_of (c ∷ d ∷ s) p h k = inr (and-true h (and-true (and-cases _ _ p).1 k))

-- A slug derived from a display name has at most 63 characters and is empty or of the slugs' pattern,
-- whatever the name is.
pub derive_slug-shape :
    (nfkd lower : String → String) (name : String)
    → let slug = derive_slug nfkd lower name in
      (text_length slug ≤ slug_max) × ((slug ≡ "") ⊎ (slug_pattern slug ≡ true))
unfolding derive_slug
derive_slug-shape nfkd lower name =
    let s = hyphenate false (lower (without_marks (nfkd name))) in
    let (plain, starts) =
      drop_hyphens-Plain s (hyphenate-Plain false (lower (without_marks (nfkd name)))) in
    let t = drop_end_hyphens (drop_hyphens s) in
    let plain' = take-Plain slug_max t (drop_end_hyphens-Plain _ plain).0 in
    let starts' = take-starts slug_max t (drop_end_hyphens-starts _ starts) in
    let (plain2, ends2) = drop_end_hyphens-Plain (text_take slug_max t) plain' in
    let short = take-length slug_max t in
    (
      omega (arith, drop_end_hyphens-length (text_take slug_max t)),
      pattern_of (drop_end_hyphens (text_take slug_max t)) plain2
          (drop_end_hyphens-starts _ starts') ends2,
    )
