-- ===== src/Fp/Softfloat/Fused.antt =====
-- crates/core/src/fp/softfloat/fused.rs: the fused multiply-add. The wide significands are u128.
use coracle.Prelude.{
  ℕ, ◌+◌, ◌-◌, ◌*◌, ◌/◌, ◌%◌, ◌^◌, bit_xor, Bool, false, not, ◌&&◌, ◌||◌, Option, none, some, [],
  ◌∷◌, ◌==◌, ltb, leb, bool_eq, if◌then◌else◌,
}
use coracle.Prelude.Signed.{ℤ, ◌+ℤ◌, ◌-ℤ◌, ltb_ℤ, as_u32, leading_zeros128}
use coracle.Fp.Operand.{
  FpFormat, sign_shift, is_negative, is_infinite, is_zero, signed_zero, signed_infinity,
}
use coracle.Fp.Control.{FpResult, exact}
use coracle.Fp.Softfloat.Nan.{propagate, invalid_operation}
use coracle.Fp.Softfloat.Decompose.{Unpacked, unpack, round_and_pack}
use coracle.Fp.Softfloat.Arithmetic.{
  Context, rounding_context, or_else, significand_scale, is_minus, signs_differ,
}

pub record FusedOperands : Type 0 where
  pub multiplicand : ℕ
  pub multiplier : ℕ
  pub addend : ℕ
  pub is_product_negated : Bool
  pub is_addend_negated : Bool

pub record ExactProduct : Type 0 where
  pub is_negative : Bool
  pub exponent : ℤ
  pub significand : ℕ

unfoldable pub signed_addend : FusedOperands → FpFormat → ℕ
signed_addend operands f =
    if operands.is_addend_negated
    then bit_xor operands.addend (2 ^ sign_shift f)
    else operands.addend

unfoldable pub zero_product : ℕ → Bool → Context → FpResult
unfolding is_zero is_negative signed_zero
zero_product addend product_negative context =
    let f = context.format in
    let negative =
      if bool_eq (is_negative f addend) product_negative
      then product_negative
      else is_minus context.rounding in
    if not (is_zero f addend) then exact addend else exact (signed_zero f negative)

unfoldable pub special_cases : FusedOperands → Context → Option FpResult
unfolding signed_addend is_infinite is_zero is_negative signed_infinity zero_product
special_cases operands context =
    let f = context.format in
    let multiplicand = operands.multiplicand in
    let multiplier = operands.multiplier in
    let addend = signed_addend operands f in
    let is_product_infinite = is_infinite f multiplicand || is_infinite f multiplier in
    let is_product_invalid =
      is_infinite f multiplicand && is_zero f multiplier
      || is_zero f multiplicand && is_infinite f multiplier in
    let differ = signs_differ f multiplicand multiplier in
    let product_negative = if operands.is_product_negated then not differ else differ in
    if is_product_invalid
    then some (invalid_operation f)
    else if is_product_infinite
    then (if is_infinite f addend && not (bool_eq (is_negative f addend) product_negative)
        then some (invalid_operation f)
        else some (exact (signed_infinity f product_negative)))
    else if is_infinite f addend
    then some (exact addend)
    else if is_zero f multiplicand || is_zero f multiplier
    then some (zero_product addend product_negative context)
    else none

unfoldable pub exact_product : FusedOperands → Context → ExactProduct
unfolding unpack
exact_product operands context =
    let left = unpack operands.multiplicand context.format in
    let right = unpack operands.multiplier context.format in
    let differ = not (bool_eq left.is_negative right.is_negative) in
    record {
      is_negative = if operands.is_product_negated then not differ else differ;
      exponent = left.exponent +ℤ right.exponent;
      significand = left.significand * right.significand;
    }

unfoldable pub shift_right_sticky : ℕ → ℕ → ℕ × Bool
shift_right_sticky value shift =
    if leb 128 shift
    then (0, not (value == 0))
    else (value / 2 ^ shift, not (value % 2 ^ shift == 0))

-- The aligned product and addend, their exponent, and the sticky bit.
unfoldable pub align : ℕ → ℤ → ℕ → ℤ → ℕ × ℕ × ℤ × Bool
unfolding shift_right_sticky
align product product_exponent addend addend_exponent =
    let (low, low_sticky) =
      shift_right_sticky addend (as_u32 (product_exponent -ℤ addend_exponent)) in
    let (high, high_sticky) =
      shift_right_sticky product (as_u32 (addend_exponent -ℤ product_exponent)) in
    if not (ltb_ℤ product_exponent addend_exponent)
    then (product, low, product_exponent, low_sticky)
    else (high, addend, addend_exponent, high_sticky)

unfoldable pub round_wide : ExactProduct → Bool → Context → FpResult
unfolding signed_zero shift_right_sticky round_and_pack leading_zeros128
round_wide value sticky context =
    let f = context.format in
    let scale = significand_scale f in
    let target = 2 * scale in
    let leading = 127 - leading_zeros128 value.significand in
    let (shifted, lost) = shift_right_sticky value.significand (leading - target) in
    let is_high = ltb target leading in
    let significand =
      if is_high then shifted else value.significand * 2 ^ (target - leading) % 2 ^ 128 in
    let exponent =
      if is_high
      then value.exponent +ℤ ℤ.pos (leading - target)
      else value.exponent -ℤ ℤ.pos (target - leading) in
    let is_sticky = if is_high then sticky || lost else sticky in
    let (narrowed, discarded) = shift_right_sticky significand scale in
    let result : Unpacked = record {
      is_negative = value.is_negative;
      exponent = exponent;
      significand = narrowed % 2 ^ 64;
    } in
    if value.significand == 0
    then exact (signed_zero f value.is_negative)
    else round_and_pack result f (rounding_context context (is_sticky || discarded))

unfoldable pub accumulate : ExactProduct → ℕ → Context → FpResult
unfolding is_zero signed_zero unpack align round_wide
accumulate product addend context =
    let f = context.format in
    let unpacked = unpack addend f in
    let (aligned_product, aligned_addend, exponent, sticky) =
      align product.significand product.exponent (unpacked.significand * 2 ^ significand_scale f)
        unpacked.exponent in
    let is_same = bool_eq product.is_negative unpacked.is_negative in
    let is_product_larger = leb aligned_addend aligned_product in
    let significand =
      if is_same
      then (aligned_product + aligned_addend) % 2 ^ 128
      else if is_product_larger
      then aligned_product - aligned_addend
      else aligned_addend - aligned_product in
    let negative =
      if is_same || is_product_larger then product.is_negative else unpacked.is_negative in
    let sum : ExactProduct = record {
      is_negative = negative;
      exponent = exponent;
      significand = significand;
    } in
    if is_zero f addend
    then round_wide product false context
    else if significand == 0 && not sticky
    then exact (signed_zero f (is_minus context.rounding))
    else round_wide sum (sticky && not (significand == 0)) context

unfoldable pub multiply_add : FusedOperands → Context → FpResult
unfolding propagate special_cases exact_product signed_addend accumulate
multiply_add operands context =
    let f = context.format in
    let inputs = operands.multiplicand ∷ operands.multiplier ∷ operands.addend ∷ [] in
    or_else (propagate inputs f context.control) (
      or_else (special_cases operands context)
        (accumulate (exact_product operands context) (signed_addend operands f) context))
