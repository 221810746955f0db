-- ===== src/Common/Text.antt =====
-- Text as the source walks it: a native `String`, matched character by character. JavaScript's strings
-- are made of UTF-16 units, which `utf16_units` and `utf16_length` give.
use Prim.Native.Nat.{ℕ, zero, suc, ◌+◌, ◌-◌, ◌/◌, ◌%◌}
use Prim.Native.Char.{Char, code}
use Prim.Native.String
use Prim.Native.String.{String, [], ◌∷◌}
use mathlib.Core.Logic.{◌≢◌}
use mathlib.Core.Bool.{Bool, false, ◌||◌, ◌&&◌}
use mathlib.Core.Option.{Option, none, some}
use mathlib.Core.List.{List, [], ◌∷◌}
use native.Mathlib.Omega.{arith}
use text.Mathlib.Text.{starts_with, ◌==◌}
use authz_plane.Common.Tests.{eqb, ltb, if◌then◌else◌}

abbrev pub append_char : String → Char → String
append_char s c = String.◌++◌ s (c ∷ [])

abbrev pub digit : ℕ → String
digit zero = "0"
digit (suc zero) = "1"
digit (suc (suc zero)) = "2"
digit (suc (suc (suc zero))) = "3"
digit (suc (suc (suc (suc zero)))) = "4"
digit (suc (suc (suc (suc (suc zero))))) = "5"
digit (suc (suc (suc (suc (suc (suc zero)))))) = "6"
digit (suc (suc (suc (suc (suc (suc (suc zero))))))) = "7"
digit (suc (suc (suc (suc (suc (suc (suc (suc zero)))))))) = "8"
digit n = "9"

-- A template literal: its parts, one after another.
abbrev pub template : List String → String
template [] = ""
template (s ∷ ss) = String.◌++◌ s (template ss)

-- The decimal numeral of a number, as a template literal prints it; `f` rounds suffice for `n ≤ f`.
unfoldable pub show_from : ℕ → ℕ → String
show_from zero n = digit n
show_from (suc f) n =
    let more = String.◌++◌ (show_from f (n / 10)) (digit (n % 10)) in
    if ltb n 10 then digit n else more

unfoldable pub show : ℕ → String
unfolding show_from
show n = show_from n n

-- `s.split(sep)` for a separator of one character; `cur` is the part read so far.
split_from : ℕ → String → String → List String
split_from sep cur [] = cur ∷ []
split_from sep cur (c ∷ s) =
    let closed : List String = cur ∷ split_from sep "" s in
    let longer = split_from sep (append_char cur c) s in if eqb (code c) sep then closed else longer

unfoldable pub split_on : ℕ → String → List String
unfolding split_from
split_on sep s = split_from sep "" s

-- A split has at least one part.
split_from-ne-nil : (sep : ℕ) (cur s : String) → split_from sep cur s ≢ []
unfolding split_from
split_from-ne-nil sep cur [] = cc
split_from-ne-nil sep cur (c ∷ s) = ground (arith, split_from-ne-nil sep (append_char cur c) s)

pub split_on-ne-nil : (sep : ℕ) (s : String) → split_on sep s ≢ []
unfolding split_on
split_on-ne-nil sep s = split_from-ne-nil sep "" s

-- `s.replace(/\r\n/g, "\n")`: a carriage return goes if a line feed stands next.
unfoldable pub unix_lines : String → String
unix_lines [] = ""
unix_lines (c ∷ []) = c ∷ []
unix_lines (c ∷ d ∷ s) =
    if eqb (code c) 13 && eqb (code d) 10 then unix_lines (d ∷ s) else c ∷ unix_lines (d ∷ s)

-- `s.includes(t)`
unfoldable pub includes : String → String → Bool
includes [] t = starts_with [] t
includes (c ∷ s) t = starts_with (c ∷ s) t || includes s t

-- whether the last line is empty, and the list without its last entry
unfoldable pub last_is_empty : List String → Bool
last_is_empty [] = false
last_is_empty (l ∷ []) = l == ""
last_is_empty (l ∷ k ∷ ls) = last_is_empty (k ∷ ls)

unfoldable pub pop : List String → List String
pop [] = []
pop (l ∷ []) = []
pop (l ∷ k ∷ ls) = l ∷ pop (k ∷ ls)

-- `String(n).padStart(4, "0")`
unfoldable pub pad4 : ℕ → String
unfolding show show_from
pad4 n =
    if ltb n 10
    then String.◌++◌ "000" (show n)
    else if ltb n 100
    then String.◌++◌ "00" (show n)
    else if ltb n 1000
    then String.◌++◌ "0" (show n)
    else show n

-- `s.split(c)[0]` for a character, and `s.slice(s.indexOf(c) + 1)`, which is `s` where `c` is not in it.
unfoldable pub before : ℕ → String → String
before sep [] = ""
before sep (c ∷ s) = let more : String = c ∷ before sep s in if eqb (code c) sep then "" else more

unfoldable pub after? : ℕ → String → Option String
after? sep [] = none
after? sep (c ∷ s) = let more = after? sep s in if eqb (code c) sep then some s else more

-- `s.endsWith(c)` for a character
unfoldable pub ends_with : ℕ → String → Bool
ends_with sep [] = false
ends_with sep (c ∷ []) = eqb (code c) sep
ends_with sep (c ∷ d ∷ s) = ends_with sep (d ∷ s)

-- The UTF-16 units of a code point.
abbrev pub utf16_units : ℕ → List ℕ
utf16_units n =
    if ltb n 65536 then n ∷ [] else (55296 + (n - 65536) / 1024) ∷ (56320 + (n - 65536) % 1024) ∷ []

-- `s.length`, in UTF-16 units
unfoldable pub utf16_length : String → ℕ
utf16_length [] = 0
utf16_length (c ∷ s) = (if ltb (code c) 65536 then 1 else 2) + utf16_length s

-- `s.length`, `s.slice(0, n)` and `s.slice(n)`, by code point
unfoldable pub text_length : String → ℕ
text_length [] = 0
text_length (c ∷ s) = suc (text_length s)

unfoldable pub text_take : ℕ → String → String
text_take zero s = ""
text_take (suc n) [] = ""
text_take (suc n) (c ∷ s) = c ∷ text_take n s

unfoldable pub text_drop : ℕ → String → String
text_drop zero s = s
text_drop (suc n) [] = ""
text_drop (suc n) (c ∷ s) = text_drop n s
