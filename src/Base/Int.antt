-- ===== src/Base/Int.antt =====
-- Go's signed integers: ℤ over the native numbers, with the wrap-around of int64 and int32.
use Prim.Native.Nat.{ℕ, suc, ◌+◌, ◌-◌, ◌*◌, ◌%◌, ◌^◌, ◌≤◌}
use mathlib.Core.Path.{◌≡◌}
use mathlib.Core.Bool.{Bool, true, false}
use native.Mathlib.Omega.{arith}
use koanf_etcd.Base.Tests.{ltb, leb, if◌then◌else◌}

-- `negsuc n` is -(n + 1).
pub data ℤ : Type 0 where
  pos : ℕ → ℤ
  negsuc : ℕ → ℤ

abbrev pub pos_part : ℤ → ℕ
pos_part (pos n) = n
pos_part (negsuc n) = 0

abbrev pub neg_part : ℤ → ℕ
neg_part (pos n) = 0
neg_part (negsuc n) = suc n

-- a - b, as an integer.
abbrev pub sub_ℕ : ℕ → ℕ → ℤ
sub_ℕ a b = if leb b a then pos (a - b) else negsuc (b - a - 1)

infixl 65 ◌+ℤ◌ ◌-ℤ◌
abbrev pub ◌+ℤ◌ : ℤ → ℤ → ℤ
a +ℤ b = sub_ℕ (pos_part a + pos_part b) (neg_part a + neg_part b)

abbrev pub ◌-ℤ◌ : ℤ → ℤ → ℤ
a -ℤ b = sub_ℕ (pos_part a + neg_part b) (neg_part a + pos_part b)

infix 50 ◌≤ℤ◌
abbrev pub ◌≤ℤ◌ : ℤ → ℤ → Type 0
a ≤ℤ b = pos_part a + neg_part b ≤ pos_part b + neg_part a

-- The Boolean tests `a <= b`, `a < b` and `a == b`.
abbrev pub le_int : ℤ → ℤ → Bool
le_int a b = leb (pos_part a + neg_part b) (pos_part b + neg_part a)

abbrev pub lt_int : ℤ → ℤ → Bool
lt_int a b = ltb (pos_part a + neg_part b) (pos_part b + neg_part a)

abbrev pub eq_int : ℤ → ℤ → Bool
eq_int a b = if le_int a b then le_int b a else false

-- The test `a > 0`.
abbrev pub is_pos : ℤ → Bool
is_pos a = lt_int (pos 0) a

-- The two's complement pattern of a number in w bits, and the number that a pattern stands for.
abbrev pub to_bits : ℕ → ℤ → ℕ
to_bits w (pos n) = n % 2 ^ w
to_bits w (negsuc n) = 2 ^ w - 1 - n % 2 ^ w

abbrev pub of_bits : ℕ → ℕ → ℤ
of_bits w b = if ltb b (2 ^ (w - 1)) then pos b else negsuc (2 ^ w - b - 1)

-- int32(n) of a non-negative int.
unfoldable pub int32 : ℕ → ℤ
int32 n = of_bits 32 (n % 2 ^ 32)

-- A Go int64, as a range.
abbrev pub IsInt64 : ℤ → Type 0
IsInt64 a = (pos_part a ≤ 2 ^ 63 - 1) × (neg_part a ≤ 2 ^ 63)

-- The wrap-around of an int64 sum or difference.
unfoldable pub wrap64 : ℤ → ℤ
wrap64 x = of_bits 64 (to_bits 64 x)

pub wrap64-eq : (x : ℤ) → IsInt64 x → wrap64 x ≡ x
unfolding wrap64
wrap64-eq x h = ground arith

-- int64 `x << k`: the bits that leave the word are lost.
unfoldable pub shl64 : ℤ → ℕ → ℤ
shl64 x k = of_bits 64 ((to_bits 64 x * 2 ^ k) % 2 ^ 64)

pub eq_int_sound : (a b : ℤ) → eq_int a b ≡ true → a ≡ b
eq_int_sound a b h = ground arith
