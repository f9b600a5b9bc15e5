-- ===== src/Prelude/Int.antt =====
-- Signed integers over the native numbers, and the C type `int` as the integers that 32 bits hold.
use Prim.Native.Nat.{ℕ, suc, ◌+◌, ◌-◌, ◌%◌, ◌^◌, ◌≤◌, ◌<◌}
use mathlib.Core.Path.{◌≡◌}
use mathlib.Core.Bool.{Bool}
use native.Mathlib.Omega.{arith}
use libliftoff.Prelude.Tests.{ltb, leb, if◌then◌else◌}

-- `negsuc n` is -(n + 1).
pub data ℤ : Type 0 where
  pos : ℕ → ℤ
  negsuc : ℕ → ℤ

abbrev pub pos_part : ℤ → ℕ
pos_part (pos n) = n
pos_part (negsuc n) = 0

abbrev pub neg_part : ℤ → ℕ
neg_part (pos n) = 0
neg_part (negsuc n) = suc n

infix 50 ◌≤ℤ◌ ◌<ℤ◌
abbrev pub ◌≤ℤ◌ : ℤ → ℤ → Type 0
a ≤ℤ b = pos_part a + neg_part b ≤ pos_part b + neg_part a

abbrev pub ◌<ℤ◌ : ℤ → ℤ → Type 0
a <ℤ b = pos_part a + neg_part b < pos_part b + neg_part a

abbrev pub ltb_ℤ : ℤ → ℤ → Bool
ltb_ℤ a b = ltb (pos_part a + neg_part b) (pos_part b + neg_part a)

abbrev pub leb_ℤ : ℤ → ℤ → Bool
leb_ℤ a b = leb (pos_part a + neg_part b) (pos_part b + neg_part a)

-- The 32 low bits read as two's complement: what a conversion to `int` gives.
unfoldable pub to_int : ℕ → ℤ
to_int v = let w = v % 2 ^ 32 in if ltb w (2 ^ 31) then pos w else negsuc (2 ^ 32 - 1 - w)

-- The bit pattern of an integer.
unfoldable pub bits : ℤ → ℕ
bits (pos n) = n % 2 ^ 32
bits (negsuc n) = 2 ^ 32 - 1 - n % 2 ^ 32

-- `int` addition. C leaves an overflow undefined; the machine wraps.
unfoldable pub add_int : ℤ → ℤ → ℤ
unfolding to_int bits
add_int a b = to_int (bits a + bits b)

-- `INT_MAX`.
abbrev pub int_max : ℤ
int_max = pos (2 ^ 31 - 1)

-- The values of `int`.
abbrev pub IsInt : ℤ → Type 0
IsInt a = (pos_part a < 2 ^ 31) × (neg_part a ≤ 2 ^ 31)

pub to_int-IsInt : (v : ℕ) → IsInt (to_int v)
unfolding to_int
to_int-IsInt v = ground arith

-- A sum whose exact value an `int` holds is that value.
pub add_int-exact :
    (a b : ℤ)
    → IsInt a
    → IsInt b
    → pos_part a + pos_part b < 2 ^ 31 + (neg_part a + neg_part b)
    → neg_part a + neg_part b ≤ 2 ^ 31 + (pos_part a + pos_part b)
    → pos_part (add_int a b) + (neg_part a + neg_part b)
      ≡ neg_part (add_int a b) + (pos_part a + pos_part b)
unfolding add_int
add_int-exact a b ha hb lo hi = ground arith
