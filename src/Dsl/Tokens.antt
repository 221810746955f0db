-- ===== src/Dsl/Tokens.antt =====
-- `tokenizeLine` and `tokenize`, which drive the syntax colouring.
use Prim.Native.Char.{Char, code}
use Prim.Native.String.{String, [], ◌∷◌}
use authz_plane.Common.{
  ℕ, zero, suc, ◌+◌, Option, none, some, List, [], ◌∷◌, Bool, true, false, not, ◌&&◌, ◌||◌, ◌==◌,
  eqb, if◌then◌else◌, split_on, template, text_length,
}
use authz_plane.Common.Chars.{
  is_space, is_line_end, is_word_start, is_word_part, is_decimal, span, newlines_from,
}
use authz_plane.Dsl.Parse.{strip_prefix}

pub data TokenKind : Type 0 where
  keyword : TokenKind
  type : TokenKind
  relation : TokenKind
  operator : TokenKind
  number : TokenKind
  punct : TokenKind
  ident : TokenKind
  comment : TokenKind
  space : TokenKind

pub record Token : Type 0 where
  pub kind : TokenKind
  pub text : String

pub record TokenLine : Type 0 where
  pub n : ℕ
  pub indent : String
  pub tokens : List Token

abbrev is_keyword : String → Bool
is_keyword s =
    s == "model" || (s == "schema" || (s == "type" || (s == "relations" || s == "define")))

abbrev is_operator : String → Bool
is_operator s = s == "or" || (s == "and" || s == "from")

abbrev is_previous : Option String → String → Bool
is_previous none s = false
is_previous (some p) s = p == s

abbrev pub word_kind : String → Option String → Bool → TokenKind
word_kind text prev after_colon =
    if not after_colon && is_keyword text
    then keyword
    else if after_colon && is_operator text
    then operator
    else if is_previous prev "type"
    then type
    else if is_previous prev "define"
    then relation
    else ident

-- `\d+(?:\.\d+)?` behind its first digit: the rest of the number, and what follows.
unfoldable pub fraction : String → String × String
unfolding span
fraction [] = ("", "")
fraction (c ∷ s) =
    let (digits, rest) = span is_decimal s in
    if eqb (code c) b'.' && not (digits == "") then (c ∷ digits, rest) else ("", c ∷ s)

unfoldable pub number_lexeme : String → String × String
unfolding span fraction
number_lexeme s =
    let (digits, rest) = span is_decimal s in
    let (more, rest') = fraction rest in (template (digits ∷ more ∷ []), rest')

-- The lexeme that begins with a character: its other characters, and what follows.
unfoldable pub lexeme : Char → String → String × String
unfolding span number_lexeme
lexeme c s =
    if is_space c
    then span is_space s
    else if is_decimal c
    then number_lexeme s
    else if is_word_start c
    then span is_word_part s
    else if eqb (code c) b'#'
    then span (λ d. not (is_line_end d)) s
    else ("", s)

-- `\b` behind a word character: no word character follows, where `-` is none.
abbrev pub ends_word : String → Bool
ends_word [] = true
ends_word (c ∷ s) = not (is_word_start c || is_decimal c)

-- `/^\s+not\b/`: the tail of "but not", and what follows.
unfoldable pub not_tail : String → Option (String × String)
unfolding span strip_prefix
not_tail s =
    let (blank, rest) = span is_space s in
    elim (strip_prefix "not" rest) [
      | none ↦ none
      | some rest' ↦
          if not (blank == "") && ends_word rest'
          then some (template (blank ∷ "not" ∷ []), rest')
          else none
    ]

unfoldable pub but_not : String → String → Option (String × String)
unfolding not_tail
but_not text rest = if text == "but" then not_tail rest else none

-- The tokens of a text, of at most `fuel` lexemes; the words' kinds depend on the word before and on
-- whether a colon came before.
unfoldable pub tokens_from : ℕ → String → Option String → Bool → List Token
unfolding lexeme but_not
tokens_from zero s prev after_colon = []
tokens_from (suc fuel) [] prev after_colon = []
tokens_from (suc fuel) (c ∷ s) prev after_colon =
    let (tail, rest) = lexeme c s in
    let text : String = c ∷ tail in
    elim (is_space c) [
      | true ↦ record { kind = space; text = text } ∷ tokens_from fuel rest prev after_colon
      | false ↦ elim (eqb (code c) b'#') [
        | true ↦ record { kind = comment; text = text } ∷ []
        | false ↦ elim (is_decimal c) [
          | true ↦ record { kind = number; text = text } ∷ tokens_from fuel rest prev after_colon
          | false ↦ elim (is_word_start c) [
            | true ↦ elim (but_not text rest) [
              | some (more, rest') ↦
                  record { kind = operator; text = template (text ∷ more ∷ []) }
                  ∷ tokens_from fuel rest' (some "but not") after_colon
              | none ↦
                  record { kind = word_kind text prev after_colon; text = text }
                  ∷ tokens_from fuel rest (some text) after_colon
            ]
            | false ↦
                record { kind = punct; text = text }
                ∷ tokens_from fuel rest prev (after_colon || eqb (code c) b':')
          ]
        ]
      ]
    ]

unfoldable pub tokenize_line : String → ℕ → TokenLine
unfolding span tokens_from text_length
tokenize_line raw n =
    let (indent, rest) = span is_space raw in
    record { n = n; indent = indent; tokens = tokens_from (text_length rest) rest none false }

abbrev number_lines : ℕ → List String → List TokenLine
number_lines n [] = []
number_lines n (line ∷ lines) = tokenize_line line n ∷ number_lines (n + 1) lines

unfoldable pub tokenize : String → List TokenLine
unfolding newlines_from split_on tokenize_line
tokenize dsl = number_lines 1 (split_on b'\n' (newlines_from false dsl))
