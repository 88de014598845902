-- ===== src/Fp/Softfloat/Convert.antt =====
-- crates/core/src/fp/softfloat/convert.rs: the conversions. The magnitude of an integer is a u128.
pub mod Saturation
use coracle.Prelude.{
  ℕ, ◌+◌, ◌-◌, ◌*◌, ◌/◌, ◌%◌, ◌^◌, bit_or, Bool, true, false, not, ◌&&◌, ◌||◌, Option, none, some,
  [], ◌∷◌, ◌==◌, ltb, leb, to_bit, shl64, u64, if◌then◌else◌,
}
use coracle.Prelude.Signed.{ℤ, ◌-ℤ◌, ltb_ℤ, as_u32, leading_zeros64}
use coracle.Fp.Operand.{
  FpFormat, FpRounding, mantissa_bits, sign_shift, mantissa_field, quiet_bit, infinity, default_nan,
  is_nan, is_signalling_nan, is_infinite, is_zero, is_negative, signed_zero, signed_infinity,
}
use coracle.Fp.Control.{
  FpControl, FpExceptions, FpResult, exact, raising, invalid, none_raised, inexact,
}
use coracle.Fp.Backend.{IntFormat}
use coracle.Fp.Softfloat.Nan.{propagate}
use coracle.Fp.Softfloat.Decompose.{Unpacked, RoundingContext, unpack, round_and_pack}
use coracle.Fp.Softfloat.Arithmetic.{or_else, significand_scale}

abbrev rounding_context : FpRounding → Bool → FpControl → RoundingContext
rounding_context rounding sticky control = record {
  rounding = rounding;
  is_sticky = sticky;
  control = control;
}

unfoldable pub rescale : ℕ → FpFormat → FpFormat → ℕ × Bool
rescale significand source target =
    let from = significand_scale source in
    let to = significand_scale target in
    if leb from to
    then (shl64 significand (to - from), false)
    else (significand / 2 ^ (from - to), not (significand % 2 ^ (from - to) == 0))

unfoldable pub convert_nan : ℕ → FpFormat → FpFormat → FpControl → FpResult
unfolding is_signalling_nan is_negative
convert_nan bits source target control =
    let raised = if is_signalling_nan source bits then invalid else none_raised in
    let payload = mantissa_field source bits in
    let from = mantissa_bits source in
    let to = mantissa_bits target in
    let moved = if leb from to then shl64 payload (to - from) else payload / 2 ^ (from - to) in
    let sign = to_bit (is_negative source bits) * 2 ^ sign_shift target in
    let encoded =
      bit_or (bit_or (bit_or sign (infinity target)) (quiet_bit target))
        (moved % quiet_bit target) in
    if control.is_default_nan then raising (default_nan target) raised else raising encoded raised

unfoldable pub convert_format : ℕ → FpFormat → FpFormat → FpControl → FpRounding → FpResult
unfolding is_nan convert_nan is_infinite signed_infinity is_negative is_zero signed_zero unpack
    rescale round_and_pack
convert_format bits source target control rounding =
    let value = unpack bits source in
    let (significand, sticky) = rescale value.significand source target in
    let scaled : Unpacked = record value { significand = significand } in
    if is_nan source bits
    then convert_nan bits source target control
    else if is_infinite source bits
    then exact (signed_infinity target (is_negative source bits))
    else if is_zero source bits
    then exact (signed_zero target (is_negative source bits))
    else round_and_pack scaled target (rounding_context rounding sticky control)

-- Whether a remainder that is not zero rounds the magnitude up.
unfoldable pub rounds_away : (truncated remainder shift : ℕ) → FpRounding → Unpacked → Bool
rounds_away truncated remainder shift rounding value =
    let half = 2 ^ (shift - 1) in
    elim rounding [
      | FpRounding.nearest ↦ ltb half remainder || remainder == half && truncated % 2 == 1
      | FpRounding.nearest_away ↦ leb half remainder
      | FpRounding.zero ↦ false
      | FpRounding.plus ↦ not value.is_negative
      | FpRounding.minus ↦ value.is_negative
      | FpRounding.odd ↦ truncated % 2 == 0
    ]

-- `matches!((rounding, is_negative), (Plus, false) | (Minus, true))`.
abbrev is_directed_away : FpRounding → Bool → Bool
is_directed_away rounding negative = elim rounding [
  | FpRounding.plus ↦ not negative
  | FpRounding.minus ↦ negative
  | _ ↦ false
]

unfoldable pub round_significand_to_integer : Unpacked → ℕ → FpRounding → Option Unpacked
unfolding rounds_away
round_significand_to_integer value scale rounding =
    let shift = as_u32 (ℤ.pos scale -ℤ value.exponent) in
    let truncated = value.significand / 2 ^ shift in
    let remainder = value.significand % 2 ^ shift in
    let is_away = not (remainder == 0) && rounds_away truncated remainder shift rounding value in
    let integral = truncated + to_bit is_away in
    let one : Unpacked = record value { exponent = ℤ.pos 0; significand = 2 ^ scale } in
    let rounded : Unpacked = record value { significand = shl64 integral shift } in
    if leb 64 shift
    then (if is_directed_away rounding value.is_negative then some one else none)
    else if integral == 0
    then none
    else some rounded

unfoldable pub round_to_integral : ℕ → FpFormat → FpRounding → FpControl → FpResult
unfolding propagate is_infinite is_zero unpack round_significand_to_integer round_and_pack
    signed_zero
round_to_integral bits f rounding control =
    let value = unpack bits f in
    let scale = significand_scale f in
    let rounded = elim (round_significand_to_integer value scale rounding) as (λ o. FpResult) [
      | none ↦ exact (signed_zero f value.is_negative)
      | some integral ↦
          round_and_pack
            (record {
              is_negative = value.is_negative;
              exponent = integral.exponent;
              significand = integral.significand;
            })
            f (rounding_context rounding false control)
    ] in
    let numeric =
      if is_infinite f bits || is_zero f bits
      then exact bits
      else if not (ltb_ℤ value.exponent (ℤ.pos scale))
      then exact bits
      else rounded in
    or_else (propagate (bits ∷ []) f control) numeric

abbrev pub mask_to_width : ℕ → IntFormat → ℕ
mask_to_width value target = if leb 64 target.bits then value else value % 2 ^ target.bits

unfoldable pub saturate : Bool → IntFormat → ℕ
saturate negative target =
    let value =
      if not target.is_signed
      then (if negative then 0 else 2 ^ 64 - 1)
      else if negative
      then 2 ^ (target.bits - 1)
      else 2 ^ (target.bits - 1) - 1 in
    mask_to_width value target

unfoldable pub magnitude_limit : Bool → IntFormat → ℕ
magnitude_limit negative target =
    if not target.is_signed
    then 2 ^ target.bits - 1
    else if negative
    then 2 ^ (target.bits - 1)
    else 2 ^ (target.bits - 1) - 1

-- `wrapping_neg` on u64.
abbrev pub wrapping_neg : ℕ → ℕ
wrapping_neg value = (2 ^ 64 - value % 2 ^ 64) % 2 ^ 64

unfoldable pub encode_integer : ℕ → Bool → Bool → IntFormat → FpResult
unfolding magnitude_limit saturate
encode_integer magnitude negative is_inexact target =
    let flag = if is_inexact then inexact else none_raised in
    let value = if negative then wrapping_neg magnitude else u64 magnitude in
    if not target.is_signed && negative
    then raising 0 invalid
    else if ltb (magnitude_limit negative target) magnitude
    then raising (saturate negative target) invalid
    else raising (mask_to_width value target) flag

unfoldable pub integral_magnitude : Unpacked → ℕ → FpRounding → ℕ × Bool
unfolding rounds_away
integral_magnitude value scale rounding =
    let up = as_u32 (value.exponent -ℤ ℤ.pos scale) in
    let shift = as_u32 (ℤ.pos scale -ℤ value.exponent) in
    let truncated = value.significand / 2 ^ shift in
    let remainder = value.significand % 2 ^ shift in
    let is_away = rounds_away truncated remainder shift rounding value in
    if not (ltb_ℤ value.exponent (ℤ.pos scale))
    then (if leb 128 up
        then (2 ^ 128 - 1, false)
        else (value.significand * 2 ^ up % 2 ^ 128, false))
    else if leb 64 shift
    then (to_bit (is_directed_away rounding value.is_negative), true)
    else if remainder == 0
    then (truncated, false)
    else (truncated + to_bit is_away, true)

unfoldable pub to_integer : ℕ → FpFormat → IntFormat → FpRounding → FpResult
unfolding is_nan is_negative is_infinite is_zero saturate unpack integral_magnitude encode_integer
to_integer bits f target rounding =
    let negative = is_negative f bits in
    let (magnitude, is_inexact) =
      integral_magnitude (unpack bits f) (significand_scale f) rounding in
    if is_nan f bits
    then raising 0 invalid
    else if is_infinite f bits
    then raising (saturate negative target) invalid
    else if is_zero f bits
    then exact 0
    else encode_integer magnitude negative is_inexact target

unfoldable pub magnitude_of : ℕ → IntFormat → ℕ × Bool
magnitude_of value source =
    let masked = mask_to_width value source in
    if not source.is_signed
    then (masked, false)
    else if masked / 2 ^ (source.bits - 1) % 2 == 0
    then (masked, false)
    else (mask_to_width (wrapping_neg masked) source, true)

unfoldable pub from_integer : ℕ → IntFormat → FpFormat → FpRounding → FpControl → FpResult
unfolding magnitude_of signed_zero round_and_pack leading_zeros64
from_integer value source target rounding control =
    let (magnitude, negative) = magnitude_of value source in
    let scale = significand_scale target in
    let leading = 63 - leading_zeros64 magnitude in
    let is_low = leb leading scale in
    let significand =
      if is_low then shl64 magnitude (scale - leading) else magnitude / 2 ^ (leading - scale) in
    let sticky = not is_low && not (magnitude % 2 ^ (leading - scale) == 0) in
    let unpacked : Unpacked = record {
      is_negative = negative;
      exponent = ℤ.pos leading;
      significand = significand;
    } in
    if magnitude == 0
    then exact (signed_zero target false)
    else round_and_pack unpacked target (rounding_context rounding sticky control)
