-- ===== src/Base/Int.antt =====
-- Signed integers over the native numbers, with the tests that the program makes of `int64` values.
use Prim.Native.Nat.{ℕ, zero, suc, ◌+◌, ◌*◌, ◌-◌, ◌%◌, ◌≤◌}
use mathlib.Core.Path.{◌≡◌}
use mathlib.Core.Logic.{◌↔◌}
use mathlib.Core.Bool.{Bool, true, false}
use native.Mathlib.Omega.{arith}
use native.Mathlib.Nat.{mod-eq_of_lt}
use course_infra.Base.Tests.{leb, ltb, ◌==◌, if◌then◌else◌}

-- `negsuc n` is -(n + 1).
pub data ℤ : Type 0 where
  pos : ℕ → ℤ
  negsuc : ℕ → ℤ

-- `max(a, 0)`
abbrev pub pos_part : ℤ → ℕ
pos_part (pos n) = n
pos_part (negsuc n) = 0

abbrev pub neg_part : ℤ → ℕ
neg_part (pos n) = 0
neg_part (negsuc n) = suc n

abbrev pub eqb : ℤ → ℤ → Bool
eqb (pos a) (pos b) = a == b
eqb (negsuc a) (negsuc b) = a == b
eqb (pos _) (negsuc _) = false
eqb (negsuc _) (pos _) = false

-- `a <= b`
abbrev pub leb_ℤ : ℤ → ℤ → Bool
leb_ℤ a b = leb (pos_part a + neg_part b) (pos_part b + neg_part a)

-- `a < b`
abbrev pub ltb_ℤ : ℤ → ℤ → Bool
ltb_ℤ a b = ltb (pos_part a + neg_part b) (pos_part b + neg_part a)

abbrev pub neg : ℕ → ℤ
neg zero = pos 0
neg (suc n) = negsuc n

-- The product with a number from 0.
abbrev pub scale : ℤ → ℕ → ℤ
scale (pos n) k = pos (n * k)
scale (negsuc n) k = neg (suc n * k)

-- The int64 with the 64 bits of `n`.
unfoldable from_word : ℕ → ℤ
from_word n = if ltb n 9223372036854775808 then pos n else negsuc (18446744073709551615 - n)

-- An int64 after a computation: 64 bits are kept.
unfoldable pub wrap_int64 : ℤ → ℤ
unfolding from_word
wrap_int64 (pos n) = from_word (n % 18446744073709551616)
wrap_int64 (negsuc n) = from_word (18446744073709551615 - n % 18446744073709551616)

-- `math.MaxInt64`
abbrev pub max_int64 : ℤ
max_int64 = pos 9223372036854775807

-- Nothing is lost where the value fits.
pub wrap_int64_pos : (n : ℕ) → n ≤ 9223372036854775807 → wrap_int64 (pos n) ≡ pos n
unfolding wrap_int64 from_word
wrap_int64_pos n h = ground (arith, mod-eq_of_lt {n = n} {m = 18446744073709551616} (omega arith))

pub eqb_iff : (a b : ℤ) → (eqb a b ≡ true) ↔ (a ≡ b)
eqb_iff a b = ground arith
