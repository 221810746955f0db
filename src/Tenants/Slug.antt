-- ===== src/Tenants/Slug.antt =====
-- The slug of a tenant: its pattern, `validateSlug` and `deriveSlug`.
--
-- `nfkd` is `normalize("NFKD")` and `lower` is `toLowerCase`, which read the tables of Unicode.
use Prim.Native.Char.{Char, code}
use Prim.Native.String.{String, [], ◌∷◌}
use authz_plane.Common.{
  ℕ, Option, none, some, List, [], ◌∷◌, Bool, true, false, not, ◌&&◌, ◌||◌, ◌==◌, eqb, ltb, leb,
  if◌then◌else◌, any, show, template, utf16_length, text_take,
}
use authz_plane.Common.Chars.{all_chars, is_decimal}

abbrev pub slug_min : ℕ
slug_min = 3

abbrev pub slug_max : ℕ
slug_max = 63

abbrev pub reserved_slugs : List String
reserved_slugs = "new" ∷ "platform" ∷ "api" ∷ "admin" ∷ []

abbrev pub is_reserved_slug : String → Bool
is_reserved_slug s = any (λ r. r == s) reserved_slugs

-- `[a-z0-9]` and `[a-z0-9-]`
abbrev pub is_alnum : Char → Bool
is_alnum c = (leb b'a' (code c) && leb (code c) b'z') || is_decimal c

abbrev pub is_hyphen : Char → Bool
is_hyphen c = eqb (code c) b'-'

abbrev pub is_slug_char : Char → Bool
is_slug_char c = is_alnum c || is_hyphen c

-- The last character, if there is one, is a letter or digit.
unfoldable pub ends_alnum : String → Bool
ends_alnum [] = true
ends_alnum (c ∷ []) = is_alnum c
ends_alnum (c ∷ d ∷ s) = ends_alnum (d ∷ s)

-- `/^[a-z0-9](?:[a-z0-9-]*[a-z0-9])?$/`
unfoldable pub slug_pattern : String → Bool
unfolding all_chars ends_alnum
slug_pattern [] = false
slug_pattern (c ∷ s) = is_alnum c && (all_chars is_slug_char s && ends_alnum s)

-- `SlugSchema`
unfoldable pub is_slug : String → Bool
unfolding slug_pattern utf16_length
is_slug s =
    leb slug_min (utf16_length s)
    && (leb (utf16_length s) slug_max && (slug_pattern s && not (is_reserved_slug s)))

unfoldable pub validate_slug : String → Option String
unfolding slug_pattern utf16_length show
validate_slug slug =
    if eqb (utf16_length slug) 0
    then some "enter a slug"
    else if ltb (utf16_length slug) slug_min
    then some (template ("at least " ∷ show slug_min ∷ " characters" ∷ []))
    else if ltb slug_max (utf16_length slug)
    then some (template ("at most " ∷ show slug_max ∷ " characters" ∷ []))
    else if not (slug_pattern slug)
    then some "lowercase letters, digits and hyphens; must start and end with a letter or digit"
    else if is_reserved_slug slug
    then some "reserved"
    else none

-- Without the combining marks, U+0300 to U+036F.
unfoldable pub without_marks : String → String
without_marks [] = ""
without_marks (c ∷ s) =
    let rest = without_marks s in if leb 768 (code c) && leb (code c) 879 then rest else c ∷ rest

-- `s.replace(/[^a-z0-9]+/g, "-")`; the test is whether the character before was replaced.
unfoldable pub hyphenate : Bool → String → String
hyphenate after [] = ""
hyphenate after (c ∷ s) =
    let on = hyphenate false s in
    let again = hyphenate true s in
    if is_alnum c then c ∷ on else if after then again else "-" ∷ again

unfoldable pub drop_hyphens : String → String
drop_hyphens [] = ""
drop_hyphens (c ∷ s) = let rest = drop_hyphens s in if is_hyphen c then rest else c ∷ s

-- `s.replace(/-+$/, "")`
unfoldable pub drop_end_hyphens : String → String
drop_end_hyphens [] = ""
drop_end_hyphens (c ∷ s) =
    let rest = drop_end_hyphens s in if rest == "" && is_hyphen c then "" else c ∷ rest

unfoldable pub derive_slug : (String → String) → (String → String) → String → String
unfolding without_marks hyphenate drop_hyphens drop_end_hyphens text_take
derive_slug nfkd lower display_name = drop_end_hyphens (
    text_take slug_max (
      drop_end_hyphens
        (drop_hyphens (hyphenate false (lower (without_marks (nfkd display_name)))))))
