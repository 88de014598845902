-- ===== src/Fp/Operand/Classes.antt =====
-- Every value of a format is of exactly one class.
use coracle.Prelude.{ℕ, ◌+◌, ◌/◌, ◌^◌, ◌<◌, ◌≡◌, ◌⊎◌, arith, Bool, to_bit}
use coracle.Fp.Operand.{FpFormat, bits, mantissa_bits, is_nan, is_infinite, is_zero, is_subnormal}

abbrev count : Bool → Bool → Bool → Bool → ℕ
count a b c d = to_bit a + to_bit b + to_bit c + to_bit d

-- A value of a format is at most one of a NaN, an infinity, a zero and a subnormal, and the other values
-- are those whose exponent field is neither zero nor all ones.
pub one_class :
    (f : FpFormat) (value : ℕ)
    → value < 2 ^ bits f
    → count (is_nan f value) (is_infinite f value) (is_zero f value) (is_subnormal f value) ≡ 1
      ⊎ (count (is_nan f value) (is_infinite f value) (is_zero f value) (is_subnormal f value) ≡ 0)
        × (0 < value / 2 ^ mantissa_bits f)
unfolding is_nan is_infinite is_zero is_subnormal
one_class FpFormat.half value h = ground arith
one_class FpFormat.single value h = ground arith
one_class FpFormat.double value h = ground arith
