-- ===== src/Prelude/Signed.antt =====
-- Integers over the native numbers, and the lengths of words in bits. An i32 exponent is an integer: the
-- exponents that the program computes are a few thousand at most.
use Prim.Native.Nat.{ℕ, zero, suc, ◌+◌, ◌-◌, ◌/◌, ◌%◌, ◌^◌}
use mathlib.Core.Bool.{Bool, true, false}
use coracle.Prelude.Tests.{ltb, leb, ◌==◌, if◌then◌else◌}

pub data ℤ : Type 0 where
  pos negsuc : ℕ → ℤ

abbrev pub sub_ℕ : ℕ → ℕ → ℤ
sub_ℕ a b = if leb b a then ℤ.pos (a - b) else ℤ.negsuc (b - a - 1)

infixl 65 ◌+ℤ◌
abbrev pub ◌+ℤ◌ : ℤ → ℤ → ℤ
ℤ.pos a +ℤ ℤ.pos b = ℤ.pos (a + b)
ℤ.pos a +ℤ ℤ.negsuc b = sub_ℕ a (b + 1)
ℤ.negsuc a +ℤ ℤ.pos b = sub_ℕ b (a + 1)
ℤ.negsuc a +ℤ ℤ.negsuc b = ℤ.negsuc (a + b + 1)

abbrev pub neg_ℤ : ℤ → ℤ
neg_ℤ (ℤ.pos n) = sub_ℕ 0 n
neg_ℤ (ℤ.negsuc n) = ℤ.pos (n + 1)

infixl 65 ◌-ℤ◌
abbrev pub ◌-ℤ◌ : ℤ → ℤ → ℤ
a -ℤ b = a +ℤ neg_ℤ b

abbrev pub ltb_ℤ : ℤ → ℤ → Bool
ltb_ℤ (ℤ.pos a) (ℤ.pos b) = ltb a b
ltb_ℤ (ℤ.pos a) (ℤ.negsuc b) = false
ltb_ℤ (ℤ.negsuc a) (ℤ.pos b) = true
ltb_ℤ (ℤ.negsuc a) (ℤ.negsuc b) = ltb b a

abbrev pub eq_ℤ : ℤ → ℤ → Bool
eq_ℤ (ℤ.pos a) (ℤ.pos b) = a == b
eq_ℤ (ℤ.negsuc a) (ℤ.negsuc b) = a == b
eq_ℤ _ _ = false

-- `as u64` and `as u32`.
abbrev pub as_u64 : ℤ → ℕ
as_u64 (ℤ.pos n) = n % 2 ^ 64
as_u64 (ℤ.negsuc n) = 2 ^ 64 - 1 - n % 2 ^ 64

abbrev pub as_u32 : ℤ → ℕ
as_u32 (ℤ.pos n) = n % 2 ^ 32
as_u32 (ℤ.negsuc n) = 2 ^ 32 - 1 - n % 2 ^ 32

-- `div_euclid(2)` and `rem_euclid(2)`.
abbrev pub half_ℤ : ℤ → ℤ
half_ℤ (ℤ.pos n) = ℤ.pos (n / 2)
half_ℤ (ℤ.negsuc n) = ℤ.negsuc (n / 2)

abbrev pub parity_ℤ : ℤ → ℕ
parity_ℤ (ℤ.pos n) = n % 2
parity_ℤ (ℤ.negsuc n) = (n + 1) % 2

-- How many bits a word of at most `width` bits takes.
abbrev pub bit_length : (width : ℕ) → ℕ → ℕ
bit_length zero x = 0
bit_length (suc width) x = elim x [ zero ↦ 0 | suc n ↦ suc (bit_length width (suc n / 2)) ]

-- `leading_zeros` on u64 and u128.
unfoldable pub leading_zeros64 : ℕ → ℕ
leading_zeros64 x = 64 - bit_length 64 x

unfoldable pub leading_zeros128 : ℕ → ℕ
leading_zeros128 x = 128 - bit_length 128 x
