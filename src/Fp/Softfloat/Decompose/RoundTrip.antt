-- ===== src/Fp/Softfloat/Decompose/RoundTrip.antt =====
-- A value that is unpacked and packed again.
use coracle.Prelude.{
  ℕ, ◌+◌, ◌*◌, ◌/◌, ◌%◌, ◌^◌, ◌<◌, ◌≡◌, ap, ◌∙◌, arith, bit_or, Bool, true, false, ◌&&◌, not, ◌==◌,
  to_bit, shl64, if_true, if_false,
}
use coracle.Prelude.Bits.{bit_or-shl, bit_or-pow}
use coracle.Prelude.Signed.{ℤ, ◌+ℤ◌, ◌-ℤ◌, as_u64, ltb_ℤ}
use coracle.Fp.Operand.{
  FpFormat, FpRounding, bits, mantissa_bits, exponent_bits, exponent_bias, max_exponent, sign_shift,
  exponent_field, mantissa_field, is_negative, is_subnormal,
}
use coracle.Fp.Control.{FpControl, exact, none_raised}
use coracle.Fp.Softfloat.Decompose.{
  Unpacked, RoundingContext, unpack, normalise, shift_down, shift_up, implicit_bit, pack_normalised,
  round_significand, pack_rounded, apply_flush_to_zero, round_and_pack, minimum_exponent,
}
use coracle.Fp.Softfloat.Decompose.Normalised.{IsAt, implicit_bit-range}

-- A significand that is at its place stays.
normalise-same :
    (value : Unpacked) (f : FpFormat)
    → IsAt (implicit_bit f) value.significand
    → normalise value false f ≡ (value, false)
unfolding normalise shift_down shift_up
normalise-same value f (a, b) = ground arith

-- The three fields of a value, put together.
encoded : FpFormat → ℕ → ℕ → ℕ → ℕ
encoded f sign raw mantissa =
    bit_or (bit_or (sign * 2 ^ sign_shift f) (shl64 raw (mantissa_bits f))) mantissa

to_bit-lt : (b : Bool) → to_bit b < 2
to_bit-lt true = omega arith
to_bit-lt false = omega arith

encoded-sum :
    (f : FpFormat) (sign raw mantissa : ℕ)
    → sign < 2
    → raw < 2 ^ exponent_bits f
    → mantissa < 2 ^ mantissa_bits f
    → encoded f sign raw mantissa ≡ sign * 2 ^ sign_shift f + raw * 2 ^ mantissa_bits f + mantissa
unfolding encoded
encoded-sum FpFormat.half sign raw mantissa h k l =
    let low : shl64 raw 10 ≡ raw * 2 ^ 10 = omega (arith, k) in
    let high : sign * 2 ^ 15 + raw * 2 ^ 10 ≡ (sign * 2 ^ 5 + raw) * 2 ^ 10 = omega arith in
    omega (
      arith,
      ap (λ (t : ℕ). bit_or (bit_or (sign * 2 ^ 15) t) mantissa) low,
      ap (λ (t : ℕ). bit_or t mantissa)
          (bit_or-shl 15 sign (raw * 2 ^ 10) (omega (arith, k)) ∙ high),
      bit_or-shl 10 (sign * 2 ^ 5 + raw) mantissa l,
    )
encoded-sum FpFormat.single sign raw mantissa h k l =
    let low : shl64 raw 23 ≡ raw * 2 ^ 23 = omega (arith, k) in
    let high : sign * 2 ^ 31 + raw * 2 ^ 23 ≡ (sign * 2 ^ 8 + raw) * 2 ^ 23 = omega arith in
    omega (
      arith,
      ap (λ (t : ℕ). bit_or (bit_or (sign * 2 ^ 31) t) mantissa) low,
      ap (λ (t : ℕ). bit_or t mantissa)
          (bit_or-shl 31 sign (raw * 2 ^ 23) (omega (arith, k)) ∙ high),
      bit_or-shl 23 (sign * 2 ^ 8 + raw) mantissa l,
    )
encoded-sum FpFormat.double sign raw mantissa h k l =
    let low : shl64 raw 52 ≡ raw * 2 ^ 52 = omega (arith, k) in
    let high : sign * 2 ^ 63 + raw * 2 ^ 52 ≡ (sign * 2 ^ 11 + raw) * 2 ^ 52 = omega arith in
    omega (
      arith,
      ap (λ (t : ℕ). bit_or (bit_or (sign * 2 ^ 63) t) mantissa) low,
      ap (λ (t : ℕ). bit_or t mantissa)
          (bit_or-shl 63 sign (raw * 2 ^ 52) (omega (arith, k)) ∙ high),
      bit_or-shl 52 (sign * 2 ^ 11 + raw) mantissa l,
    )

round_exact :
    (significand : ℕ) (exponent : ℤ) (rounding : FpRounding) (negative : Bool)
    → significand % 8 ≡ 0
    → round_significand significand exponent false rounding negative
      ≡ (significand, exponent, none_raised)
unfolding round_significand
round_exact significand exponent rounding negative h =
    if_true (significand % 2 ^ 3 == 0 && not false) _ _ (ground (arith, h))

-- The exponent that a normal exponent field stands for is in range.
abbrev IsInRange : FpFormat → ℕ → ℤ → Type 0
IsInRange f raw exponent =
    (ltb_ℤ exponent (minimum_exponent f) ≡ false)
    × (ltb_ℤ (ℤ.pos (exponent_bias f)) exponent ≡ false)
    × (as_u64 (exponent +ℤ ℤ.pos (exponent_bias f)) ≡ raw)

exponent-IsInRange :
    (f : FpFormat) (raw : ℕ)
    → 0 < raw
    → raw < max_exponent f
    → IsInRange f raw (ℤ.pos raw -ℤ ℤ.pos (exponent_bias f))
exponent-IsInRange FpFormat.half raw h k = ground arith
exponent-IsInRange FpFormat.single raw h k = ground arith
exponent-IsInRange FpFormat.double raw h k = ground arith

-- What is packed from a normal exponent and a significand with no guard bits set.
packed :
    (value : Unpacked) (f : FpFormat) (context : RoundingContext) (raw : ℕ)
    → value.significand % 8 ≡ 0
    → IsInRange f raw value.exponent
    → pack_normalised value false f context
      ≡ exact (encoded f (to_bit value.is_negative) raw (mantissa_field f (value.significand / 8)))
unfolding pack_normalised pack_rounded encoded
packed value f context raw h (low, high, same) =
    if_false _ _ _ low
    ∙ ap (pack_rounded value.is_negative f context.rounding)
        (round_exact value.significand value.exponent context.rounding value.is_negative h)
    ∙ if_false _ _ _ high
    ∙ ap
        (λ (t : ℕ).
          exact (encoded f (to_bit value.is_negative) t (mantissa_field f (value.significand / 8))))
        same

leading :
    (f : FpFormat) (mantissa : ℕ)
    → mantissa < 2 ^ mantissa_bits f
    → shl64 (bit_or mantissa (2 ^ mantissa_bits f)) 3 ≡ (2 ^ mantissa_bits f + mantissa) * 8
leading FpFormat.half mantissa h = omega (arith, bit_or-pow 10 mantissa (omega arith))
leading FpFormat.single mantissa h = omega (arith, bit_or-pow 23 mantissa (omega arith))
leading FpFormat.double mantissa h = omega (arith, bit_or-pow 52 mantissa (omega arith))

mantissa_field-lt : (f : FpFormat) (value : ℕ) → mantissa_field f value < 2 ^ mantissa_bits f
mantissa_field-lt FpFormat.half value = omega arith
mantissa_field-lt FpFormat.single value = omega arith
mantissa_field-lt FpFormat.double value = omega arith

-- A normal value, unpacked.
normal_parts : FpFormat → ℕ → Unpacked
normal_parts f value = record {
  is_negative = is_negative f value;
  exponent = ℤ.pos (exponent_field f value) -ℤ ℤ.pos (exponent_bias f);
  significand = (2 ^ mantissa_bits f + mantissa_field f value) * 8;
}

-- A normal value, unpacked: the implicit bit is at its place, and no guard bit is set.
unpack-normal :
    (f : FpFormat) (value : ℕ) → 0 < exponent_field f value → unpack value f ≡ normal_parts f value
unfolding unpack normal_parts
unpack-normal f value h =
    if_false (exponent_field f value == 0) _ _ (ground (arith, h))
    ∙ ap {A = ℕ}
        (λ t.
          let u : Unpacked = record {
            is_negative = is_negative f value;
            exponent = ℤ.pos (exponent_field f value) -ℤ ℤ.pos (exponent_bias f);
            significand = t;
          } in
          u)
        (leading f (mantissa_field f value) (mantissa_field-lt f value))

fields-sum :
    (f : FpFormat) (value : ℕ)
    → value < 2 ^ bits f
    → to_bit (is_negative f value) * 2 ^ sign_shift f
        + exponent_field f value * 2 ^ mantissa_bits f
        + mantissa_field f value
      ≡ value
unfolding is_negative
fields-sum FpFormat.half value h = ground arith
fields-sum FpFormat.single value h = ground arith
fields-sum FpFormat.double value h = ground arith

not_flushed :
    (f : FpFormat) (value : ℕ) (control : FpControl)
    → 0 < exponent_field f value
    → apply_flush_to_zero (exact value) f control ≡ exact value
unfolding apply_flush_to_zero is_subnormal
not_flushed f value control h = ground (arith, h)

normal_parts-IsAt :
    (f : FpFormat) (value : ℕ) → IsAt (implicit_bit f) (normal_parts f value).significand
unfolding normal_parts
normal_parts-IsAt FpFormat.half value = omega arith
normal_parts-IsAt FpFormat.single value = omega arith
normal_parts-IsAt FpFormat.double value = omega arith

normal_parts-mantissa :
    (f : FpFormat) (value : ℕ)
    → mantissa_field f ((normal_parts f value).significand / 8) ≡ mantissa_field f value
unfolding normal_parts
normal_parts-mantissa FpFormat.half value = omega arith
normal_parts-mantissa FpFormat.single value = omega arith
normal_parts-mantissa FpFormat.double value = omega arith

exponent_field-lt : (f : FpFormat) (value : ℕ) → exponent_field f value < 2 ^ exponent_bits f
exponent_field-lt FpFormat.half value = omega arith
exponent_field-lt FpFormat.single value = omega arith
exponent_field-lt FpFormat.double value = omega arith

normal_parts-packed :
    (f : FpFormat) (value : ℕ) (context : RoundingContext)
    → value < 2 ^ bits f
    → 0 < exponent_field f value
    → exponent_field f value < max_exponent f
    → pack_normalised (normal_parts f value) false f context ≡ exact value
unfolding normal_parts
normal_parts-packed f value context h k l =
    let raw = exponent_field f value in
    let sign = to_bit (is_negative f value) in
    packed (normal_parts f value) f context raw (omega arith) (exponent-IsInRange f raw k l)
    ∙ ap exact (
        ap (encoded f sign raw) (normal_parts-mantissa f value)
        ∙ encoded-sum f sign raw (mantissa_field f value) (to_bit-lt (is_negative f value))
            (exponent_field-lt f value) (mantissa_field-lt f value)
        ∙ fields-sum f value h)

-- Every normal value of a format is what unpacking and then rounding and packing it in the same format
-- gives, in every rounding mode and with every FPCR, with no exception raised.
pub round_and_pack-unpack :
    (f : FpFormat) (value : ℕ) (rounding : FpRounding) (control : FpControl)
    → value < 2 ^ bits f
    → 0 < exponent_field f value
    → exponent_field f value < max_exponent f
    → round_and_pack
        (unpack value f)
        f
        (record { rounding = rounding; is_sticky = false; control = control })
      ≡ exact value
unfolding round_and_pack
round_and_pack-unpack f value rounding control h k l =
    let context : RoundingContext = record {
      rounding = rounding;
      is_sticky = false;
      control = control;
    } in
    let parts = normal_parts f value in
    let at = normal_parts-IsAt f value in
    ap (λ u. round_and_pack u f context) (unpack-normal f value k)
    ∙ if_false (parts.significand == 0) _ _ (ground (arith, at, (implicit_bit-range f).0))
    ∙ ap (λ n. apply_flush_to_zero (pack_normalised n.0 n.1 f context) f control)
        (normalise-same parts f at)
    ∙ ap (λ r. apply_flush_to_zero r f control) (normal_parts-packed f value context h k l)
    ∙ not_flushed f value control k
