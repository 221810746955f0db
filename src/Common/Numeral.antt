-- ===== src/Common/Numeral.antt =====
-- Decimal numerals: `\d+` read as a number, and that a printed number is read back.
use Prim.Native.Nat.{ℕ, zero, suc, ◌+◌, ◌-◌, ◌*◌, ◌/◌, ◌%◌, ◌<◌, ◌≤◌}
use Prim.Native.Char.{Char, code}
use Prim.Native.String
use Prim.Native.String.append
use Prim.Native.String.{String, [], ◌∷◌}
use mathlib.Core.Path.{◌≡◌, refl, ◌∙◌, ap}
use mathlib.Core.Bool.{Bool, ◌&&◌}
use mathlib.Core.Option.{Option, none, some}
use mathlib.Core.Logic.{inl, inr}
use native.Mathlib.Omega.{arith}
use authz_plane.Common.Tests.{leb, ltb, ltb→lt, if◌then◌else◌, Bool-cases}
use authz_plane.Common.Text.{digit, show, show_from}

abbrev pub is_digit : Char → Bool
is_digit c = leb 48 (code c) && leb (code c) 57

unfoldable pub digits : ℕ → String → Option ℕ
digits n [] = some n
digits n (c ∷ s) = let rest = digits (n * 10 + (code c - 48)) s in if is_digit c then rest else none

unfoldable pub number : String → Option ℕ
unfolding digits
number [] = none
number (c ∷ s) = digits 0 (c ∷ s)

digits-digit : (n d : ℕ) → d < 10 → digits n (digit d) ≡ some (n * 10 + d)
unfolding digits
digits-digit n zero h = ground arith
digits-digit n (suc zero) h = ground arith
digits-digit n (suc (suc zero)) h = ground arith
digits-digit n (suc (suc (suc zero))) h = ground arith
digits-digit n (suc (suc (suc (suc zero)))) h = ground arith
digits-digit n (suc (suc (suc (suc (suc zero))))) h = ground arith
digits-digit n (suc (suc (suc (suc (suc (suc zero)))))) h = ground arith
digits-digit n (suc (suc (suc (suc (suc (suc (suc zero))))))) h = ground arith
digits-digit n (suc (suc (suc (suc (suc (suc (suc (suc zero)))))))) h = ground arith
digits-digit n (suc (suc (suc (suc (suc (suc (suc (suc (suc d))))))))) h = ground arith

digits-append :
    (n m : ℕ) (s t : String) → digits n s ≡ some m → digits n (String.◌++◌ s t) ≡ digits m t
unfolding digits
digits-append n m [] t h = rw (append.nil t) (ground arith)
digits-append n m (c ∷ s) t h =
    rw (append.cons c s t) (ground (arith, digits-append (n * 10 + (code c - 48)) m s t))

digits-show_from : (f n : ℕ) → n ≤ f → digits 0 (show_from f n) ≡ some n
unfolding show_from
digits-show_from zero n h = digits-digit 0 n (omega arith) ∙ ap some (omega arith)
digits-show_from (suc f) n h = elim (Bool-cases (ltb n 10)) [
  | inl here ↦ rw here (digits-digit 0 n (omega (arith, ltb→lt n 10 here)) ∙ ap some (omega arith))
  | inr more ↦ rw more (
      digits-append 0 (n / 10) (show_from f (n / 10)) (digit (n % 10))
        (digits-show_from f (n / 10) (ground arith))
      ∙ digits-digit (n / 10) (n % 10) (omega arith)
      ∙ ap some (omega arith))
]

starts_digit : (n : ℕ) (s : String) → digits 0 s ≡ some (suc n) → number s ≡ some (suc n)
unfolding number digits
starts_digit n [] h = ground arith
starts_digit n (c ∷ s) h = h

pub number-show : (n : ℕ) → number (show n) ≡ some n
unfolding show number
number-show zero = refl
number-show (suc n) =
    starts_digit n (show_from (suc n) (suc n)) (digits-show_from (suc n) (suc n) (omega arith))
