-- ===== src/Common/Chars.antt =====
-- Classes of characters as regular expressions have them, and the runs of a text.
use Prim.Native.Char.{Char, code}
use Prim.Native.String.{String, [], ◌∷◌}
use mathlib.Core.Bool.{Bool, true, false, not, ◌&&◌, ◌||◌}
use mathlib.Core.List.{List, [], ◌∷◌}
use text.Mathlib.Text.{◌==◌}
use authz_plane.Common.Tests.{eqb, leb, if◌then◌else◌}

-- `\s`
abbrev pub is_space : Char → Bool
is_space c =
    let n = code c in
    (leb 9 n && leb n 13)
    || eqb n 32
    || eqb n 160
    || eqb n 5760
    || (leb 8192 n && leb n 8202)
    || eqb n 8232
    || eqb n 8233
    || eqb n 8239
    || eqb n 8287
    || eqb n 12288
    || eqb n 65279

-- What `.` does not match.
abbrev pub is_line_end : Char → Bool
is_line_end c = let n = code c in eqb n 10 || eqb n 13 || eqb n 8232 || eqb n 8233

-- `\d`, `[A-Za-z_]` and `[\w-]`
abbrev pub is_decimal : Char → Bool
is_decimal c = leb b'0' (code c) && leb (code c) b'9'

abbrev pub is_word_start : Char → Bool
is_word_start c =
    let n = code c in (leb b'A' n && leb n b'Z') || (leb b'a' n && leb n b'z') || eqb n b'_'

abbrev pub is_word_part : Char → Bool
is_word_part c = is_word_start c || is_decimal c || eqb (code c) b'-'

unfoldable pub all_chars : (Char → Bool) → String → Bool
all_chars p [] = true
all_chars p (c ∷ s) = p c && all_chars p s

-- `/^[A-Za-z_][\w-]*$/`
unfoldable pub is_word : String → Bool
unfolding all_chars
is_word [] = false
is_word (c ∷ s) = is_word_start c && all_chars is_word_part s

-- The longest start of a text with all characters in the class, and the rest.
unfoldable pub span : (Char → Bool) → String → String × String
span p [] = ("", "")
span p (c ∷ s) = let (start, rest) = span p s in if p c then (c ∷ start, rest) else ("", c ∷ s)

unfoldable pub trim_start : String → String
trim_start [] = ""
trim_start (c ∷ s) = let rest = trim_start s in if is_space c then rest else c ∷ s

unfoldable pub trim_end : String → String
trim_end [] = ""
trim_end (c ∷ s) = let rest = trim_end s in if rest == "" && is_space c then "" else c ∷ rest

unfoldable pub trim : String → String
unfolding trim_start trim_end
trim s = trim_end (trim_start s)

-- `s.replace(/\r\n?/g, "\n")`; the test is whether the character before was a carriage return.
unfoldable pub newlines_from : Bool → String → String
newlines_from after [] = ""
newlines_from after (c ∷ s) =
    let again = newlines_from true s in
    let on = newlines_from false s in
    if eqb (code c) 13 then "\n" ∷ again else if eqb (code c) 10 && after then on else c ∷ on

-- The maximal runs of a text, each with whether it is of white space.
abbrev pub add_to_runs : Char → List (Bool × String) → List (Bool × String)
add_to_runs c [] = (is_space c, c ∷ "") ∷ []
add_to_runs c ((space, r) ∷ rs) =
    if is_space c && space || not (is_space c) && not space
    then (space, c ∷ r) ∷ rs
    else (is_space c, c ∷ "") ∷ (space, r) ∷ rs

unfoldable pub runs : String → List (Bool × String)
runs [] = []
runs (c ∷ s) = add_to_runs c (runs s)
