-- ===== src/Prelude/Int.antt =====
-- Signed integers over the native numbers, under the library's names (its ℤ stands on the unary ℕ),
-- and the 64-bit machine words of the program: `uint64` and `uint` are numbers below 2 ^ 64, `int64`,
-- `int` and `time.Duration` are integers that wrap around at 2 ^ 63.
use Prim.Native.Nat.{ℕ, suc, ◌+◌, ◌-◌, ◌*◌, ◌%◌, ◌/◌, ◌^◌, ◌≤◌, ◌<◌}
use mathlib.Core.Path.{◌≡◌, refl}
use mathlib.Core.Bool.{Bool}
use native.Mathlib.Omega.{arith}
use ghz.Prelude.Tests.{ltb, leb, ◌==◌, if◌then◌else◌}

-- `negsuc n` is -(n + 1).
pub data ℤ : Type 0 where
  pos : ℕ → ℤ
  negsuc : ℕ → ℤ

abbrev pub pos_part : ℤ → ℕ
pos_part (pos n) = n
pos_part (negsuc n) = 0

abbrev pub neg_part : ℤ → ℕ
neg_part (pos n) = 0
neg_part (negsuc n) = suc n

-- a - b, as an integer.
abbrev pub sub_ℕ : ℕ → ℕ → ℤ
sub_ℕ a b = if leb b a then pos (a - b) else negsuc (b - a - 1)

infixl 65 ◌+ℤ◌ ◌-ℤ◌
infixl 70 ◌*ℤ◌
infix 50 ◌≤ℤ◌
abbrev pub ◌+ℤ◌ : ℤ → ℤ → ℤ
a +ℤ b = sub_ℕ (pos_part a + pos_part b) (neg_part a + neg_part b)

abbrev pub ◌-ℤ◌ : ℤ → ℤ → ℤ
a -ℤ b = sub_ℕ (pos_part a + neg_part b) (neg_part a + pos_part b)

abbrev pub ◌*ℤ◌ : ℤ → ℤ → ℤ
a *ℤ b =
    sub_ℕ (pos_part a * pos_part b + neg_part a * neg_part b)
      (pos_part a * neg_part b + neg_part a * pos_part b)

abbrev pub ◌≤ℤ◌ : ℤ → ℤ → Type 0
a ≤ℤ b = pos_part a + neg_part b ≤ pos_part b + neg_part a

abbrev pub ltb_ℤ : ℤ → ℤ → Bool
ltb_ℤ a b = ltb (pos_part a + neg_part b) (pos_part b + neg_part a)

abbrev pub leb_ℤ : ℤ → ℤ → Bool
leb_ℤ a b = leb (pos_part a + neg_part b) (pos_part b + neg_part a)

abbrev pub eq_ℤ : ℤ → ℤ → Bool
eq_ℤ a b = (pos_part a + neg_part b) == (pos_part b + neg_part a)

-- Go's integer division rounds towards zero, and a remainder has the sign of the dividend. (`n / 0`
-- and `n % 0` are numbers here: the code's panic is written where it divides.)
abbrev pub quot_ℤ : ℤ → ℤ → ℤ
quot_ℤ (pos n) (pos d) = pos (n / d)
quot_ℤ (pos n) (negsuc d) = sub_ℕ 0 (n / suc d)
quot_ℤ (negsuc n) (pos d) = sub_ℕ 0 (suc n / d)
quot_ℤ (negsuc n) (negsuc d) = pos (suc n / suc d)

abbrev pub rem_ℤ : ℤ → ℕ → ℤ
rem_ℤ (pos n) d = pos (n % d)
rem_ℤ (negsuc n) d = sub_ℕ 0 (suc n % d)

-- The bit pattern of an integer, and the integer of a bit pattern.
abbrev pub to_uint64 : ℤ → ℕ
to_uint64 (pos n) = n % 2 ^ 64
to_uint64 (negsuc n) = 2 ^ 64 - 1 - n % 2 ^ 64

abbrev pub to_int64 : ℕ → ℤ
to_int64 n = if ltb n (2 ^ 63) then pos n else negsuc (2 ^ 64 - 1 - n)

abbrev pub wrap_int64 : ℤ → ℤ
wrap_int64 z = to_int64 (to_uint64 z)

abbrev pub max_int64 : ℕ
max_int64 = 2 ^ 63 - 1

abbrev pub max_int32 : ℕ
max_int32 = 2 ^ 31 - 1

-- A sum of small non-negative integers does not wrap.
pub wrap-pos : (a b : ℕ) → a + b < 2 ^ 63 → wrap_int64 (pos a +ℤ pos b) ≡ pos (a + b)
wrap-pos a b h = ground arith

pub to_int64_small : (n : ℕ) → n < 2 ^ 63 → to_int64 n ≡ pos n
to_int64_small n h = ground arith

-- A difference of two times that are not negative does not wrap.
pub wrap-sub : (a b : ℕ) → a < 2 ^ 63 → b < 2 ^ 63 → pos b +ℤ wrap_int64 (pos a -ℤ pos b) ≡ pos a
wrap-sub a b h k = ground arith

pub wrap_minus_one : wrap_int64 (pos 5 -ℤ pos 6) ≡ negsuc 0
wrap_minus_one = refl
