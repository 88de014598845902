-- ===== src/Fp/Operand.antt =====
-- crates/core/src/fp/operand.rs: the formats, the rounding modes and the comparison. A value is the
-- number of its bits. `FpResult` stands with the exceptions that it carries, in Control.antt.
pub mod Classes
use coracle.Prelude.{
  ℕ, ◌+◌, ◌-◌, ◌*◌, ◌/◌, ◌%◌, ◌^◌, bit_or, Bool, true, false, not, ◌&&◌, ◌==◌, to_bit, shl64, u64,
  if◌then◌else◌,
}

pub data FpRounding : Type 0 where
  nearest plus minus zero nearest_away odd : FpRounding

-- `rmode & 0b11`.
unfoldable pub from_rmode : ℕ → FpRounding
from_rmode rmode =
    let field = rmode % 4 in
    if field == 0
    then FpRounding.nearest
    else if field == 1
    then FpRounding.plus
    else if field == 2
    then FpRounding.minus
    else FpRounding.zero

pub data FpFormat : Type 0 where
  half single double : FpFormat

abbrev pub bits : FpFormat → ℕ
bits FpFormat.half = 16
bits FpFormat.single = 32
bits FpFormat.double = 64

abbrev pub mantissa_bits : FpFormat → ℕ
mantissa_bits FpFormat.half = 10
mantissa_bits FpFormat.single = 23
mantissa_bits FpFormat.double = 52

abbrev pub exponent_bits : FpFormat → ℕ
exponent_bits f = bits f - mantissa_bits f - 1

abbrev pub max_exponent : FpFormat → ℕ
max_exponent f = 2 ^ exponent_bits f - 1

abbrev pub exponent_bias : FpFormat → ℕ
exponent_bias f = 2 ^ (exponent_bits f - 1) - 1

abbrev pub mask : FpFormat → ℕ
mask f = 2 ^ bits f - 1

abbrev pub sign_shift : FpFormat → ℕ
sign_shift f = bits f - 1

abbrev pub mantissa_mask : FpFormat → ℕ
mantissa_mask f = 2 ^ mantissa_bits f - 1

abbrev pub quiet_bit : FpFormat → ℕ
quiet_bit f = 2 ^ (mantissa_bits f - 1)

abbrev pub infinity : FpFormat → ℕ
infinity f = max_exponent f * 2 ^ mantissa_bits f

abbrev pub default_nan : FpFormat → ℕ
default_nan f = bit_or (infinity f) (quiet_bit f)

abbrev pub max_finite : FpFormat → ℕ
max_finite f = infinity f - 1

-- `(bits >> mantissa_bits) & max_exponent`, and `bits & mantissa_mask`.
abbrev pub exponent_field : FpFormat → ℕ → ℕ
exponent_field f value = value / 2 ^ mantissa_bits f % 2 ^ exponent_bits f

abbrev pub mantissa_field : FpFormat → ℕ → ℕ
mantissa_field f value = value % 2 ^ mantissa_bits f

unfoldable pub is_nan : FpFormat → ℕ → Bool
is_nan f value = exponent_field f value == max_exponent f && not (mantissa_field f value == 0)

unfoldable pub is_signalling_nan : FpFormat → ℕ → Bool
unfolding is_nan
is_signalling_nan f value = is_nan f value && value / quiet_bit f % 2 == 0

unfoldable pub is_infinite : FpFormat → ℕ → Bool
is_infinite f value = exponent_field f value == max_exponent f && mantissa_field f value == 0

-- `bits & !(1 << sign_shift)`, of a u64.
abbrev pub magnitude : FpFormat → ℕ → ℕ
magnitude f value = value - value / 2 ^ sign_shift f % 2 * 2 ^ sign_shift f

unfoldable pub is_zero : FpFormat → ℕ → Bool
is_zero f value = magnitude f value == 0

unfoldable pub is_subnormal : FpFormat → ℕ → Bool
is_subnormal f value = exponent_field f value == 0 && not (mantissa_field f value == 0)

unfoldable pub is_negative : FpFormat → ℕ → Bool
is_negative f value = value / 2 ^ sign_shift f % 2 == 1

unfoldable pub quieten : FpFormat → ℕ → ℕ
unfolding is_signalling_nan
quieten f value = if is_signalling_nan f value then bit_or value (quiet_bit f) else value

unfoldable pub signed_zero : FpFormat → Bool → ℕ
signed_zero f negative = to_bit negative * 2 ^ sign_shift f

unfoldable pub signed_infinity : FpFormat → Bool → ℕ
unfolding signed_zero
signed_infinity f negative = bit_or (infinity f) (signed_zero f negative)

pub data FpComparison : Type 0 where
  less equal greater unordered : FpComparison

unfoldable pub to_nzcv : FpComparison → ℕ
to_nzcv FpComparison.less = 8
to_nzcv FpComparison.equal = 6
to_nzcv FpComparison.greater = 2
to_nzcv FpComparison.unordered = 3
