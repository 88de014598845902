-- ===== src/Fp/Softfloat/Arithmetic.antt =====
-- crates/core/src/fp/softfloat/arithmetic.rs: add, subtract, multiply, divide and square root.
pub mod SquareRoot
use coracle.Prelude.{
  ℕ, zero, suc, ◌+◌, ◌-◌, ◌*◌, ◌/◌, ◌%◌, ◌^◌, bit_xor, Bool, true, false, not, ◌&&◌, ◌||◌, Option,
  none, some, [], ◌∷◌, ◌==◌, ltb, leb, bool_eq, to_bit, wrapping_add, if◌then◌else◌,
}
use coracle.Prelude.Signed.{ℤ, ◌+ℤ◌, ◌-ℤ◌, ltb_ℤ, eq_ℤ, as_u32, half_ℤ, parity_ℤ, leading_zeros128}
use coracle.Fp.Operand.{
  FpFormat, FpRounding, mantissa_bits, sign_shift, is_negative, is_subnormal, is_infinite,
  signed_zero, signed_infinity,
}
use coracle.Fp.Operand
use coracle.Fp.Control.{
  FpControl, FpExceptions, FpResult, exact, raising, union, none_raised, input_denormal,
  divide_by_zero,
}
use coracle.Fp.Softfloat.Nan.{propagate, invalid_operation}
use coracle.Fp.Softfloat.Decompose.{
  Unpacked, RoundingContext, zero_of, is_zero, guard_bits, unpack, round_and_pack, is_flushing,
}

pub record Context : Type 0 where
  pub format : FpFormat
  pub rounding : FpRounding
  pub control : FpControl

abbrev pub rounding_context : Context → Bool → RoundingContext
rounding_context context sticky = record {
  rounding = context.rounding;
  is_sticky = sticky;
  control = context.control;
}

unfoldable pub pack : Context → Unpacked × Bool → FpResult
unfolding round_and_pack
pack context (value, sticky) = round_and_pack value context.format (rounding_context context sticky)

unfoldable pub flush_input : ℕ → Context → ℕ × FpExceptions
unfolding is_subnormal signed_zero is_negative
flush_input value context =
    let f = context.format in
    if not (is_flushing f context.control) || not (is_subnormal f value)
    then (value, none_raised)
    else (signed_zero f (is_negative f value), input_denormal)

unfoldable pub flush_pair : ℕ → ℕ → Context → ℕ × ℕ × FpExceptions
unfolding flush_input union
flush_pair lhs rhs context =
    let (left, from_lhs) = flush_input lhs context in
    let (right, from_rhs) = flush_input rhs context in (left, right, union from_lhs from_rhs)

unfoldable pub with_flags : FpResult → FpExceptions → FpResult
unfolding union
with_flags result raised = raising result.bits (union result.raised raised)

-- The result of the first of the special cases that applies, and else of the arithmetic.
abbrev pub or_else : Option FpResult → FpResult → FpResult
or_else (some result) computed = result
or_else none computed = computed

unfoldable pub add_infinities : ℕ → ℕ → Context → Option FpResult
unfolding is_infinite is_negative
add_infinities lhs rhs context =
    let f = context.format in
    let is_lhs_infinite = is_infinite f lhs in
    let is_rhs_infinite = is_infinite f rhs in
    if not is_lhs_infinite && not is_rhs_infinite
    then none
    else if is_lhs_infinite && is_rhs_infinite
    then (if not (bool_eq (is_negative f lhs) (is_negative f rhs))
        then some (invalid_operation f)
        else some (exact lhs))
    else some (exact (if is_lhs_infinite then lhs else rhs))

-- `matches!(context.rounding, FpRounding::Minus)`.
abbrev pub is_minus : FpRounding → Bool
is_minus rounding = elim rounding [ FpRounding.minus ↦ true | _ ↦ false ]

-- Lexicographic: the exponent first.
unfoldable pub is_larger : Unpacked → Unpacked → Bool
is_larger lhs rhs =
    ltb_ℤ rhs.exponent lhs.exponent
    || eq_ℤ lhs.exponent rhs.exponent && leb rhs.significand lhs.significand

unfoldable pub align : ℕ → ℕ → ℕ × Bool
align significand shift =
    if leb 64 shift
    then (0, not (significand == 0))
    else (significand / 2 ^ shift, not (significand % 2 ^ shift == 0))

-- The subtractions do not go below zero: the larger operand is the first.
unfoldable pub subtract_aligned : Unpacked → ℕ → Bool → Context → Unpacked × Bool
subtract_aligned larger aligned sticky context =
    let significand =
      if sticky then larger.significand - aligned - 1 else larger.significand - aligned in
    if significand == 0 && not sticky
    then (zero_of (is_minus context.rounding), false)
    else (record larger { significand = significand }, sticky)

unfoldable pub add_finite : Unpacked → Unpacked → Context → Unpacked × Bool
unfolding is_larger align subtract_aligned
add_finite lhs rhs context =
    let negative =
      if bool_eq lhs.is_negative rhs.is_negative
      then lhs.is_negative
      else is_minus context.rounding in
    let larger = if is_larger lhs rhs then lhs else rhs in
    let smaller = if is_larger lhs rhs then rhs else lhs in
    let shift = as_u32 (larger.exponent -ℤ smaller.exponent) in
    let (aligned, sticky) = align smaller.significand shift in
    let sum : Unpacked = record larger { significand = wrapping_add larger.significand aligned } in
    if is_zero lhs && is_zero rhs
    then (zero_of negative, false)
    else if is_zero lhs
    then (rhs, false)
    else if is_zero rhs
    then (lhs, false)
    else if bool_eq larger.is_negative smaller.is_negative
    then (sum, sticky)
    else subtract_aligned larger aligned sticky context

unfoldable pub add : ℕ → ℕ → Bool → Context → FpResult
unfolding flush_pair with_flags propagate add_infinities add_finite pack unpack
add lhs rhs is_subtracting context =
    let f = context.format in
    let (left, flushed, denormal) = flush_pair lhs rhs context in
    let right = if is_subtracting then bit_xor flushed (2 ^ sign_shift f) else flushed in
    let computed = pack context (add_finite (unpack left f) (unpack right f) context) in
    with_flags
      (or_else (propagate (left ∷ right ∷ []) f context.control)
        (or_else (add_infinities left right context) computed))
      denormal

unfoldable pub multiply_specials : ℕ → ℕ → Bool → Context → Option FpResult
unfolding is_infinite Operand.is_zero signed_infinity signed_zero
multiply_specials lhs rhs negative context =
    let f = context.format in
    let is_lhs_infinite = is_infinite f lhs in
    let is_rhs_infinite = is_infinite f rhs in
    let is_lhs_zero = Operand.is_zero f lhs in
    let is_rhs_zero = Operand.is_zero f rhs in
    if is_lhs_infinite && is_rhs_zero || is_lhs_zero && is_rhs_infinite
    then some (invalid_operation f)
    else if is_lhs_infinite || is_rhs_infinite
    then some (exact (signed_infinity f negative))
    else if is_lhs_zero || is_rhs_zero
    then some (exact (signed_zero f negative))
    else none

abbrev pub significand_scale : FpFormat → ℕ
significand_scale f = mantissa_bits f + guard_bits

-- On u128; the result is cut to a u64.
unfoldable pub narrow : ℕ → ℕ → ℕ × Bool
narrow product shift = (product / 2 ^ shift % 2 ^ 64, not (product % 2 ^ shift == 0))

abbrev pub signs_differ : FpFormat → ℕ → ℕ → Bool
signs_differ f lhs rhs = not (bool_eq (is_negative f lhs) (is_negative f rhs))

unfoldable pub multiply : ℕ → ℕ → Context → FpResult
unfolding flush_pair with_flags propagate multiply_specials narrow pack unpack is_negative
multiply lhs rhs context =
    let f = context.format in
    let (left, right, denormal) = flush_pair lhs rhs context in
    let negative = signs_differ f left right in
    let a = unpack left f in
    let b = unpack right f in
    let (significand, sticky) = narrow (a.significand * b.significand) (significand_scale f) in
    let value : Unpacked = record {
      is_negative = negative;
      exponent = a.exponent +ℤ b.exponent;
      significand = significand;
    } in
    with_flags
      (or_else (propagate (left ∷ right ∷ []) f context.control)
        (or_else (multiply_specials left right negative context) (pack context (value, sticky))))
      denormal

unfoldable pub divide_specials : ℕ → ℕ → Bool → Context → Option FpResult
unfolding is_infinite Operand.is_zero signed_infinity signed_zero
divide_specials lhs rhs negative context =
    let f = context.format in
    let is_lhs_infinite = is_infinite f lhs in
    let is_rhs_infinite = is_infinite f rhs in
    let is_lhs_zero = Operand.is_zero f lhs in
    let is_rhs_zero = Operand.is_zero f rhs in
    if is_lhs_infinite && is_rhs_infinite || is_lhs_zero && is_rhs_zero
    then some (invalid_operation f)
    else if is_lhs_infinite
    then some (exact (signed_infinity f negative))
    else if is_rhs_infinite
    then some (exact (signed_zero f negative))
    else if is_rhs_zero
    then some (raising (signed_infinity f negative) divide_by_zero)
    else if is_lhs_zero
    then some (exact (signed_zero f negative))
    else none

-- The divisor of a finite quotient is not zero, so `/` and `%` never meet one.
unfoldable pub divide : ℕ → ℕ → Context → FpResult
unfolding flush_pair with_flags propagate divide_specials pack unpack is_negative
divide lhs rhs context =
    let f = context.format in
    let (left, right, denormal) = flush_pair lhs rhs context in
    let negative = signs_differ f left right in
    let a = unpack left f in
    let b = unpack right f in
    let numerator = a.significand * 2 ^ significand_scale f in
    let value : Unpacked = record {
      is_negative = negative;
      exponent = a.exponent -ℤ b.exponent;
      significand = numerator / b.significand % 2 ^ 64;
    } in
    let sticky = not (numerator % b.significand == 0) in
    with_flags
      (or_else (propagate (left ∷ right ∷ []) f context.control)
        (or_else (divide_specials left right negative context) (pack context (value, sticky))))
      denormal

-- The loop of `isqrt_u128`, on fuel: `bit` is a power of 4 of at most 127 bits, so 64 passes end it.
unfoldable pub isqrt_from : (fuel : ℕ) → (remainder root bit : ℕ) → ℕ
isqrt_from zero remainder root bit = root
isqrt_from (suc fuel) remainder root bit =
    let fits = leb (root + bit) remainder in
    let rest =
      isqrt_from fuel (if fits then remainder - (root + bit) else remainder)
        (if fits then root / 2 + bit else root / 2) (bit / 4) in
    if bit == 0 then root else rest

-- `(127 - value.leading_zeros()) & !1`.
abbrev pub top_bit : ℕ → ℕ
top_bit value = let shift = 127 - leading_zeros128 value in 2 ^ (shift - shift % 2)

unfoldable pub isqrt_u128 : ℕ → ℕ
unfolding isqrt_from leading_zeros128
isqrt_u128 value = if value == 0 then 0 else isqrt_from 64 value 0 (top_bit value)

unfoldable pub integer_square_root : Unpacked → FpFormat → ℕ × Bool
unfolding isqrt_u128
integer_square_root value f =
    let even = if parity_ℤ value.exponent == 0 then value.significand else 2 * value.significand in
    let scaled = even * 2 ^ significand_scale f in
    let root = isqrt_u128 scaled in (root % 2 ^ 64, not (root * root == scaled))

unfoldable pub square_root : ℕ → Context → FpResult
unfolding flush_input with_flags propagate integer_square_root pack unpack Operand.is_zero
    is_negative is_infinite
square_root operand context =
    let f = context.format in
    let (value, denormal) = flush_input operand context in
    let unpacked = unpack value f in
    let (significand, sticky) = integer_square_root unpacked f in
    let root : Unpacked = record {
      is_negative = false;
      exponent = half_ℤ unpacked.exponent;
      significand = significand;
    } in
    let numeric =
      if Operand.is_zero f value
      then exact value
      else if is_negative f value
      then invalid_operation f
      else if is_infinite f value
      then exact value
      else pack context (root, sticky) in
    with_flags (or_else (propagate (value ∷ []) f context.control) numeric) denormal
