-- ===== src/Common/Int.antt =====
-- A JavaScript number that counts and may be negative: an integer over the native numbers.
use Prim.Native.Nat.{ℕ, suc, ◌+◌, ◌-◌, ◌/◌}
use mathlib.Core.Path.{◌≡◌}
use mathlib.Core.Bool.{Bool, true, false}
use native.Mathlib.Omega.{arith}
use authz_plane.Common.Tests.{ltb, leb, if◌then◌else◌}

pub data ℤ : Type 0 where
  pos negsuc : ℕ → ℤ

abbrev pub difference : ℕ → ℕ → ℤ
difference m n = if ltb m n then negsuc (n - m - 1) else pos (m - n)

infixl 6 ◌+ℤ◌
unfoldable pub ◌+ℤ◌ : ℤ → ℤ → ℤ
pos a +ℤ pos b = pos (a + b)
pos a +ℤ negsuc b = difference a (suc b)
negsuc a +ℤ pos b = difference b (suc a)
negsuc a +ℤ negsuc b = negsuc (suc (a + b))

-- What comes in and goes out changes the total by the same amount as the number of rows.
pub difference-balance :
    (total : ℤ) (before after come go : ℕ)
    → before + come ≡ after + go
    → (total +ℤ difference come go) +ℤ pos before ≡ total +ℤ pos after
unfolding ◌+ℤ◌
difference-balance (pos t) before after come go h = ground arith
difference-balance (negsuc t) before after come go h = ground arith

-- `a > b`
abbrev pub gtz : ℤ → ℤ → Bool
gtz (pos a) (pos b) = ltb b a
gtz (pos a) (negsuc b) = true
gtz (negsuc a) (pos b) = false
gtz (negsuc a) (negsuc b) = ltb a b

-- `Math.floor((a - b) / k)` for a positive `k`
abbrev pub floor_difference : ℕ → ℕ → ℕ → ℤ
floor_difference a b k = if leb b a then pos ((a - b) / k) else negsuc ((b - a + (k - 1)) / k - 1)
