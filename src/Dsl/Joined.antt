-- ===== src/Dsl/Joined.antt =====
-- The tokens of a line, joined again.
use Prim.Native.Char.{Char, code}
use Prim.Native.String.{[], ◌∷◌, ◌++◌}
use Prim.Native.String.append
use text.Mathlib.TextLemmas.{append-nil, append_assoc}
use authz_plane.Common.{
  ℕ, zero, suc, ◌≤◌, String, Option, none, some, List, [], ◌∷◌, Bool, true, false, not, ◌≡◌, refl,
  ◌∙◌, sym, ap, arith, eqb, if◌then◌else◌, template, text_length, map, Option-cases, inl, inr,
  and-cases,
}
use authz_plane.Common.Chars.{is_space, is_line_end, is_word_start, is_decimal, span, all_chars}
use authz_plane.Dsl.Tokens.{
  TokenKind, space, comment, number, punct, operator, Token, lexeme, word_kind, but_not,
  tokens_from, tokenize_line,
}
use authz_plane.Dsl.Lexemes.{
  all_chars-append, text_length-append, Parts, span-Parts, span_all, lexeme-Parts, not_tail-Parts,
}

-- The tokens that a lexeme and what follows it give, joined.
unfoldable pub joined : List Token → String
joined tokens = template (map (λ (t : Token). t.text) tokens)

one_token :
    (c : Char) (s : String) (kind : TokenKind) (parts : String × String) (ts : List Token)
    → Parts s parts
    → joined ts ≡ parts.1
    → joined (record { kind = kind; text = c ∷ parts.0 } ∷ ts) ≡ c ∷ s
unfolding joined
one_token c s kind (a, b) ts e h =
    append.cons c a (joined ts) ∙ ap (λ t. c ∷ t) (ap (λ t. a ++ t) h ∙ e)

by_test :
    {s : String} (b : Bool) (xs ys : List Token)
    → (b ≡ true → joined xs ≡ s)
    → (b ≡ false → joined ys ≡ s)
    → joined (elim b [ true ↦ xs | false ↦ ys ]) ≡ s
by_test true xs ys p q = p refl
by_test false xs ys p q = q refl

abbrev OneLine : String → Type 0
OneLine s = all_chars (λ d. not (is_line_end d)) s ≡ true

-- What holds of the rest of a text: it is shorter, and no line ends in it.
rest_of :
    (s : String) (parts : String × String)
    → Parts s parts
    → OneLine s
    → (fuel : ℕ) → text_length s ≤ fuel
    → OneLine parts.1 × (text_length parts.1 ≤ fuel)
rest_of s (a, b) e h fuel l =
    let chars = all_chars-append (λ d. not (is_line_end d)) a b in
    let both = sym chars ∙ ap (all_chars (λ d. not (is_line_end d))) e ∙ h in
    ((and-cases _ _ both).1, omega (arith, text_length-append a b, ap text_length e))

pick_then : (b : Bool) (x y : String × String) → b ≡ true → (if b then x else y) ≡ x
pick_then b x y h = rw h refl

pick_else : (b : Bool) (x y : String × String) → b ≡ false → (if b then x else y) ≡ y
pick_else b x y h = rw h refl

hash_lexeme :
    (c : Char) (s : String)
    → is_space c ≡ false
    → eqb (code c) b'#' ≡ true
    → OneLine s
    → lexeme c s ≡ (s, "")
unfolding lexeme
hash_lexeme c s blank hash h =
    pick_else (is_space c) _ _ blank
    ∙ pick_else (is_decimal c) _ _ (ground arith)
    ∙ pick_else (is_word_start c) _ _ (ground arith)
    ∙ pick_then (eqb (code c) b'#') _ _ hash
    ∙ span_all (λ d. not (is_line_end d)) s h

module _ (fuel : ℕ)
    (again : (s : String) (prev : Option String) (after : Bool)
      → OneLine s
      → text_length s ≤ fuel
      → joined (tokens_from fuel s prev after) ≡ s) where
  word_joined :
      (c : Char) (s : String) (prev : Option String) (after : Bool) (parts : String × String)
      → Parts s parts
      → OneLine s
      → text_length s ≤ fuel
      → joined (elim (but_not (c ∷ parts.0) parts.1) [
        | some (more, rest') ↦
            record { kind = operator; text = template ((c ∷ parts.0) ∷ more ∷ []) }
            ∷ tokens_from fuel rest' (some "but not") after
        | none ↦
            record { kind = word_kind (c ∷ parts.0) prev after; text = c ∷ parts.0 }
            ∷ tokens_from fuel parts.1 (some (c ∷ parts.0)) after
      ])
        ≡ c ∷ s
  unfolding but_not
  word_joined c s prev after (a, b) e h l = elim (Option-cases (but_not (c ∷ a) b)) [
    | inl plain ↦
        let (line, short) = rest_of s (a, b) e h fuel l in
        rw plain
          (one_token c s (word_kind (c ∷ a) prev after) (a, b) _ e (again b _ after line short))
    | inr ((more, rest), found) ↦
        let tail = not_tail-Parts b (more, rest) (ground (arith, found)) in
        let whole : Parts s (a ++ more, rest) =
          append_assoc a more rest ∙ ap (λ t. a ++ t) tail ∙ e in
        let (line, short) = rest_of s (a ++ more, rest) whole h fuel l in
        rw (found, append-nil more, append.cons c a more)
          (one_token c s operator (a ++ more, rest) _ whole (again rest _ after line short))
  ]

  step_joined :
      (c : Char) (s : String) (prev : Option String) (after : Bool)
      → OneLine s
      → text_length s ≤ fuel
      → joined (tokens_from (suc fuel) (c ∷ s) prev after) ≡ c ∷ s
  unfolding tokens_from joined
  step_joined c s prev after h l =
      let e = lexeme-Parts c s in
      let (line, short) = rest_of s (lexeme c s) e h fuel l in
      by_test (is_space c) _ _
        (λ blank. one_token c s space (lexeme c s) _ e (again _ prev after line short))
        λ solid.
          by_test (eqb (code c) b'#') _ _
            (λ hash.
              one_token c s comment (lexeme c s) [] e
                (ap (λ (parts : String × String). parts.1) (sym (hash_lexeme c s solid hash h))))
            λ other.
              by_test (is_decimal c) _ _
                (λ digit. one_token c s number (lexeme c s) _ e (again _ prev after line short))
                λ letter.
                  by_test (is_word_start c) _ _
                    (λ start. word_joined c s prev after (lexeme c s) e h l)
                    (λ sign. one_token c s punct (lexeme c s) _ e (again _ prev _ line short))

tokens_from-joined :
    (fuel : ℕ) (s : String) (prev : Option String) (after_colon : Bool)
    → OneLine s
    → text_length s ≤ fuel
    → joined (tokens_from fuel s prev after_colon) ≡ s
unfolding tokens_from joined text_length all_chars
tokens_from-joined zero [] prev after h l = refl
tokens_from-joined zero (c ∷ s) prev after h l = absurd (omega (arith, l))
tokens_from-joined (suc fuel) [] prev after h l = refl
tokens_from-joined (suc fuel) (c ∷ s) prev after h l =
    step_joined fuel (tokens_from-joined fuel) c s prev after (and-cases _ _ h).1 (omega (arith, l))

-- The indentation and the tokens of a line, joined, are the line, if no line ends within it.
pub tokenize_line-joined :
    (raw : String) (n : ℕ)
    → all_chars (λ d. not (is_line_end d)) raw ≡ true
    → (tokenize_line raw n).indent ++ joined (tokenize_line raw n).tokens ≡ raw
unfolding tokenize_line
tokenize_line-joined raw n h =
    let e = span-Parts is_space raw in
    let (line, short) = rest_of raw (span is_space raw) e h (text_length raw) (omega arith) in
    ap (λ t. (span is_space raw).0 ++ t)
      (tokens_from-joined (text_length (span is_space raw).1) (span is_space raw).1 none false line
        (omega arith))
    ∙ e
