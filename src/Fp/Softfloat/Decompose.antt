-- ===== src/Fp/Softfloat/Decompose.antt =====
-- crates/core/src/fp/softfloat/decompose.rs: unpacking a value, rounding, and packing.
pub mod Normalised
pub mod RoundTrip
use coracle.Prelude.{
  ℕ, zero, suc, ◌+◌, ◌-◌, ◌*◌, ◌/◌, ◌%◌, ◌^◌, bit_or, Bool, true, false, not, ◌&&◌, ◌||◌, ◌==◌, ltb,
  leb, to_bit, shl64, wrapping_add, if◌then◌else◌,
}
use coracle.Prelude.Signed.{ℤ, ◌+ℤ◌, ◌-ℤ◌, ltb_ℤ, as_u64, as_u32, leading_zeros64}
use coracle.Fp.Operand.{
  FpFormat, FpRounding, mantissa_bits, exponent_bias, sign_shift, exponent_field, mantissa_field,
  is_negative, is_subnormal, signed_zero, signed_infinity, max_finite,
}
use coracle.Fp.Control
use coracle.Fp.Control.{
  FpControl, FpExceptions, FpResult, exact, raising, union, is_empty, none_raised, inexact,
  underflow,
}

abbrev pub guard_bits : ℕ
guard_bits = 3

pub record Unpacked : Type 0 where
  pub is_negative : Bool
  pub exponent : ℤ
  pub significand : ℕ

-- `Unpacked::zero`.
abbrev pub zero_of : Bool → Unpacked
zero_of negative = record { is_negative = negative; exponent = ℤ.pos 0; significand = 0 }

abbrev pub is_zero : Unpacked → Bool
is_zero value = value.significand == 0

-- `significand_mask` keeps the low bits of this number.
abbrev pub significand_width : FpFormat → ℕ
significand_width f = mantissa_bits f + 1 + guard_bits

abbrev pub implicit_bit : FpFormat → ℕ
implicit_bit f = 2 ^ (mantissa_bits f + guard_bits)

-- `1 - format.exponent_bias()`.
abbrev pub minimum_exponent : FpFormat → ℤ
minimum_exponent f = ℤ.pos 1 -ℤ ℤ.pos (exponent_bias f)

-- The shift that puts the leading bit of a subnormal at the implicit bit.
abbrev pub subnormal_shift : FpFormat → ℕ → ℕ
subnormal_shift f mantissa = leading_zeros64 mantissa - (64 - (mantissa_bits f + 1))

unfoldable pub unpack : ℕ → FpFormat → Unpacked
unfolding is_negative leading_zeros64
unpack value f =
    let negative = is_negative f value in
    let raw = exponent_field f value in
    let mantissa = mantissa_field f value in
    let shift = subnormal_shift f mantissa in
    let subnormal : Unpacked = record {
      is_negative = negative;
      exponent = minimum_exponent f -ℤ ℤ.pos shift;
      significand = shl64 mantissa (shift + guard_bits) % 2 ^ significand_width f;
    } in
    let normal : Unpacked = record {
      is_negative = negative;
      exponent = ℤ.pos raw -ℤ ℤ.pos (exponent_bias f);
      significand = shl64 (bit_or mantissa (2 ^ mantissa_bits f)) guard_bits;
    } in
    if raw == 0 then (if mantissa == 0 then zero_of negative else subnormal) else normal

pub record RoundingContext : Type 0 where
  pub rounding : FpRounding
  pub is_sticky : Bool
  pub control : FpControl

-- The two loops of `normalise`, on fuel: at most 64 passes each, for a significand of 64 bits.
unfoldable pub shift_down : (fuel : ℕ) → ℕ → Unpacked → Bool → Unpacked × Bool
shift_down zero target value sticky = (value, sticky)
shift_down (suc fuel) target value sticky = elim (leb (2 * target) value.significand) [
  | false ↦ (value, sticky)
  | true ↦
      shift_down fuel target
        (record value { significand = value.significand / 2; exponent = value.exponent +ℤ ℤ.pos 1 })
        (sticky || value.significand % 2 == 1)
]

unfoldable pub shift_up : (fuel : ℕ) → ℕ → Unpacked → Unpacked
shift_up zero target value = value
shift_up (suc fuel) target value =
    elim (ltb value.significand target && not (value.significand == 0)) [
      | false ↦ value
      | true ↦ shift_up fuel target (record value {
        significand = shl64 value.significand 1;
        exponent = value.exponent -ℤ ℤ.pos 1;
      })
    ]

unfoldable pub normalise : Unpacked → Bool → FpFormat → Unpacked × Bool
unfolding shift_down shift_up
normalise value sticky f =
    let down = shift_down 64 (implicit_bit f) value sticky in
    (shift_up 64 (implicit_bit f) down.0, down.1)

unfoldable pub should_round_up :
    (discarded : ℕ) → Bool → (significand : ℕ) → FpRounding → Bool → Bool
should_round_up discarded sticky significand rounding negative =
    let half = 2 ^ (guard_bits - 1) in
    let is_above_half = ltb half discarded || discarded == half && sticky in
    let is_exactly_half = discarded == half && not sticky in
    elim rounding [
      | FpRounding.nearest ↦
          is_above_half || is_exactly_half && significand / 2 ^ guard_bits % 2 == 1
      | FpRounding.nearest_away ↦ leb half discarded
      | FpRounding.zero ↦ false
      | FpRounding.plus ↦ not negative
      | FpRounding.minus ↦ negative
      | FpRounding.odd ↦ false
    ]

unfoldable pub round_significand : ℕ → ℤ → Bool → FpRounding → Bool → ℕ × ℤ × FpExceptions
unfolding should_round_up leading_zeros64
round_significand significand exponent sticky rounding negative =
    let discarded = significand % 2 ^ guard_bits in
    let increment = should_round_up discarded sticky significand rounding negative in
    let raised = wrapping_add significand (if increment then 2 ^ guard_bits else 0) in
    let rounded = raised - raised % 2 ^ guard_bits in
    if discarded == 0 && not sticky
    then (significand, exponent, none_raised)
    else if ltb (leading_zeros64 rounded) (leading_zeros64 significand)
    then (rounded / 2, exponent +ℤ ℤ.pos 1, inexact)
    else (rounded, exponent, inexact)

unfoldable pub round_to_zero_or_minimum : Bool → FpFormat → FpRounding → ℕ
unfolding signed_zero
round_to_zero_or_minimum negative f rounding =
    let is_away : Bool = elim rounding [
      | FpRounding.plus ↦ not negative
      | FpRounding.minus ↦ negative
      | _ ↦ false
    ] in
    bit_or (signed_zero f negative) (to_bit is_away)

unfoldable pub pack_subnormal : Unpacked → Bool → FpFormat → RoundingContext → FpResult
unfolding round_to_zero_or_minimum round_significand union is_empty
pack_subnormal value sticky f context =
    let shift = as_u32 (minimum_exponent f -ℤ value.exponent) in
    let is_sticky = sticky || not (value.significand % 2 ^ shift == 0) in
    let (significand, exponent, inexact_flag) =
      round_significand (value.significand / 2 ^ shift) (minimum_exponent f) is_sticky
        context.rounding value.is_negative in
    let bits =
      bit_or (to_bit value.is_negative * 2 ^ sign_shift f) (significand / 2 ^ guard_bits) in
    if leb (significand_width f) shift
    then raising (round_to_zero_or_minimum value.is_negative f context.rounding)
        (union underflow inexact)
    else raising bits (if is_empty inexact_flag then none_raised else union inexact_flag underflow)

unfoldable pub overflow : Bool → FpFormat → FpRounding → FpResult
unfolding signed_infinity signed_zero union
overflow negative f rounding =
    let goes_to_infinity : Bool = elim rounding [
      | FpRounding.nearest ↦ true
      | FpRounding.nearest_away ↦ true
      | FpRounding.zero ↦ false
      | FpRounding.plus ↦ not negative
      | FpRounding.minus ↦ negative
      | FpRounding.odd ↦ false
    ] in
    let bits =
      if goes_to_infinity
      then signed_infinity f negative
      else bit_or (max_finite f) (signed_zero f negative) in
    raising bits (union Control.overflow inexact)

-- The part of `pack_normalised` after the rounding.
unfoldable pub pack_rounded : Bool → FpFormat → FpRounding → ℕ × ℤ × FpExceptions → FpResult
unfolding overflow
pack_rounded negative f rounding (significand, exponent, raised) =
    let biased = as_u64 (exponent +ℤ ℤ.pos (exponent_bias f)) in
    let bits =
      bit_or (bit_or (to_bit negative * 2 ^ sign_shift f) (shl64 biased (mantissa_bits f)))
        (mantissa_field f (significand / 2 ^ guard_bits)) in
    if ltb_ℤ (ℤ.pos (exponent_bias f)) exponent
    then overflow negative f rounding
    else raising bits raised

unfoldable pub pack_normalised : Unpacked → Bool → FpFormat → RoundingContext → FpResult
unfolding pack_subnormal pack_rounded round_significand
pack_normalised value sticky f context =
    if ltb_ℤ value.exponent (minimum_exponent f)
    then pack_subnormal value sticky f context
    else pack_rounded value.is_negative f context.rounding (
        round_significand value.significand value.exponent sticky context.rounding
          value.is_negative)

-- Whether FPCR flushes the subnormals of a format.
abbrev pub is_flushing : FpFormat → FpControl → Bool
is_flushing FpFormat.half control = control.is_flush_to_zero_fp16
is_flushing FpFormat.single control = control.is_flush_to_zero
is_flushing FpFormat.double control = control.is_flush_to_zero

unfoldable pub apply_flush_to_zero : FpResult → FpFormat → FpControl → FpResult
unfolding is_subnormal is_negative signed_zero union
apply_flush_to_zero result f control =
    if not (is_flushing f control) || not (is_subnormal f result.bits)
    then result
    else raising (signed_zero f (is_negative f result.bits))
        (union (union result.raised underflow) inexact)

unfoldable pub round_and_pack : Unpacked → FpFormat → RoundingContext → FpResult
unfolding signed_zero normalise pack_normalised apply_flush_to_zero
round_and_pack value f context =
    let normalised = normalise value context.is_sticky f in
    let packed = pack_normalised normalised.0 normalised.1 f context in
    if is_zero value
    then exact (signed_zero f value.is_negative)
    else apply_flush_to_zero packed f context.control
