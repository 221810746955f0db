-- ===== src/Dsl/Lexemes.antt =====
-- A lexeme and what follows it are the text that it was taken from.
use Prim.Native.Char.{Char, code}
use Prim.Native.String.{[], ◌∷◌, ◌++◌}
use Prim.Native.String.append
use text.Mathlib.TextEquality.{Char-path}
use text.Mathlib.TextLemmas.{append-nil, append_assoc}
use authz_plane.Common.{
  ◌+◌, String, some, [], ◌∷◌, Bool, true, false, not, ◌&&◌, ◌==◌, ◌≡◌, refl, ◌∙◌, ap, subst, arith,
  eqb, if◌then◌else◌, template, text_length, Bool-cases, Option-cases, inl, inr, and-cases,
}
use authz_plane.Common.Chars.{is_space, is_word_start, is_word_part, is_decimal, span, all_chars}
use authz_plane.Dsl.Parse.{strip_prefix}
use authz_plane.Dsl.Tokens.{fraction, number_lexeme, lexeme, ends_word, not_tail}

pub all_chars-append :
    (p : Char → Bool) (s t : String) → all_chars p (s ++ t) ≡ (all_chars p s && all_chars p t)
unfolding all_chars
all_chars-append p [] t = rw (append.nil t) refl
all_chars-append p (c ∷ s) t = rw (append.cons c s t) (ground (arith, all_chars-append p s t))

pub text_length-append : (s t : String) → text_length (s ++ t) ≡ text_length s + text_length t
unfolding text_length
text_length-append [] t = rw (append.nil t) (omega arith)
text_length-append (c ∷ s) t = rw (append.cons c s t) (omega (arith, text_length-append s t))

abbrev pub Parts : String → String × String → Type 0
Parts s (a, b) = a ++ b ≡ s

pub span-Parts : (p : Char → Bool) (s : String) → Parts s (span p s)
unfolding span
span-Parts p [] = append.nil ""
span-Parts p (c ∷ s) = elim (Bool-cases (p c)) [
  | inl here ↦ rw here (append.cons c (span p s).0 (span p s).1 ∙ ap (λ t. c ∷ t) (span-Parts p s))
  | inr other ↦ rw other (append.nil (c ∷ s))
]

pub span_all : (p : Char → Bool) (s : String) → all_chars p s ≡ true → span p s ≡ (s, "")
unfolding span all_chars
span_all p [] h = refl
span_all p (c ∷ s) h = let (here, rest) = and-cases (p c) _ h in rw (here, span_all p s rest) refl

fraction-Parts : (s : String) → Parts s (fraction s)
unfolding fraction
fraction-Parts [] = append.nil ""
fraction-Parts (c ∷ s) =
    elim (Bool-cases (eqb (code c) b'.' && not ((span is_decimal s).0 == ""))) [
      | inl here ↦ rw here (
          append.cons c (span is_decimal s).0 (span is_decimal s).1
          ∙ ap (λ t. c ∷ t) (span-Parts is_decimal s))
      | inr other ↦ rw other (append.nil (c ∷ s))
    ]

pub append_three : (a b c : String) → template (a ∷ b ∷ []) ++ c ≡ a ++ (b ++ c)
append_three a b c = rw (append-nil b) (append_assoc a b c)

number_lexeme-Parts : (s : String) → Parts s (number_lexeme s)
unfolding number_lexeme
number_lexeme-Parts s =
    let digits = (span is_decimal s).0 in
    let rest = (span is_decimal s).1 in
    append_three digits (fraction rest).0 (fraction rest).1
    ∙ ap (λ t. digits ++ t) (fraction-Parts rest)
    ∙ span-Parts is_decimal s

if_Parts :
    (s : String) (b : Bool) (x y : String × String)
    → Parts s x
    → Parts s y
    → Parts s (if b then x else y)
if_Parts s true x y p q = p
if_Parts s false x y p q = q

pub lexeme-Parts : (c : Char) (s : String) → Parts s (lexeme c s)
unfolding lexeme
lexeme-Parts c s = if_Parts s (is_space c) _ _ (span-Parts is_space s) (
    if_Parts s (is_decimal c) _ _ (number_lexeme-Parts s) (
      if_Parts s (is_word_start c) _ _ (span-Parts is_word_part s)
        (if_Parts s (eqb (code c) b'#') _ _ (span-Parts _ s) (append.nil s))))

strip_prefix-append : (p s r : String) → strip_prefix p s ≡ some r → p ++ r ≡ s
unfolding strip_prefix
strip_prefix-append [] s r h = append.nil r ∙ cc
strip_prefix-append (c ∷ p) [] r h = cc
strip_prefix-append (c ∷ p) (d ∷ s) r h = elim (Bool-cases (eqb (code c) (code d))) [
  | inl same ↦
      append.cons c p r
      ∙ ap (λ e. e ∷ (p ++ r)) (Char-path c d (ground arith))
      ∙ ap (λ t. d ∷ t) (strip_prefix-append p s r (ground arith))
  | inr other ↦ ground arith
]

pub not_tail-Parts : (s : String) (more : String × String) → not_tail s ≡ some more → Parts s more
unfolding not_tail
not_tail-Parts s more h =
    let blank = (span is_space s).0 in
    let rest = (span is_space s).1 in
    elim (Option-cases (strip_prefix "not" rest)) [
      | inl missing ↦ ground (arith, missing)
      | inr (r, found) ↦ elim (Bool-cases (not (blank == "") && ends_word r)) [
        | inl held ↦
            let h' : some (template (blank ∷ "not" ∷ []), r) ≡ some more =
              rw (not_tail, found, held) at h in
            let same : (template (blank ∷ "not" ∷ []), r) ≡ more = cc in
            subst (Parts s) same (
              append_three blank "not" r
              ∙ ap (λ t. blank ++ t) (strip_prefix-append "not" rest r found)
              ∙ span-Parts is_space s)
        | inr failed ↦ ground (arith, found)
      ]
    ]
