-- ===== src/Tests/Float.antt =====
-- The theorems on the floating point at concrete inputs, and some of its values in single precision.
use coracle.Prelude.{
  ℕ, ◌≡◌, ◌↔◌, inl, refl, arith, Bool, true, false, ◌||◌, if◌then◌else◌, List, [], ◌∷◌, Option,
}
use coracle.Fp.Operand.{FpFormat, FpRounding, FpComparison, is_nan, is_signalling_nan}
use coracle.Fp.Control.{
  FpResult, default, exact, invalid, none_raised, is_default_mode_bits, is_default_mode, from_bits,
}
use coracle.Fp.Control.DefaultMode.{is_default_mode_bits-eq}
use coracle.Fp.Backend.{FpBinaryOp, FpOperands}
use coracle.Fp.Softfloat.Nan.{any_nan, signalling_among, propagate}
use coracle.Fp.Softfloat.Nan.Quiet.{IsQuiet, propagate-IsQuiet}
use coracle.Fp.Softfloat.Compare.{compare}
use coracle.Fp.Softfloat.Compare.Order.{signed_magnitude, reference_order, compare-order}
use coracle.Fp.Softfloat.Decompose.{unpack, round_and_pack}
use coracle.Fp.Softfloat.Decompose.RoundTrip.{round_and_pack-unpack}
use coracle.Fp.Softfloat.Arithmetic.{Context, add, multiply, isqrt_u128}
use coracle.Fp.Softfloat.Arithmetic.SquareRoot.{IsRoot, isqrt_u128-IsRoot}
use coracle.Fp.Softfloat.Convert.Saturation.{IsClamped, encode_integer-IsClamped}
use coracle.Fp.Reference.{softfloat}
use coracle.Fp.Native.{HostFloats}
use coracle.Fp.Engine.{with_fpcr}
use coracle.Fp.Engine.Sticky.{FpCall, after_calls, IsSelected, IsSticky, after_calls-kept}

abbrev nearest_single : Context
nearest_single = record {
  format = FpFormat.single;
  rounding = FpRounding.nearest;
  control = default;
}

is_default_mode_bits-eq_example :
    is_default_mode_bits 0x400000 ≡ is_default_mode (from_bits 0x400000)
is_default_mode_bits-eq_example = is_default_mode_bits-eq 0x400000

compare-order_example : compare 0x3f800000 0xbf800000 FpFormat.single true ≡ (
    if is_nan FpFormat.single 0x3f800000 || is_nan FpFormat.single 0xbf800000
    then (
      FpComparison.unordered,
      (if true
            || (is_signalling_nan FpFormat.single 0x3f800000
                || is_signalling_nan FpFormat.single 0xbf800000)
          then invalid
          else none_raised),
    )
    else (
      reference_order
          (signed_magnitude FpFormat.single 0x3f800000)
          (signed_magnitude FpFormat.single 0xbf800000),
      none_raised,
    ))
compare-order_example =
    compare-order 0x3f800000 0xbf800000 FpFormat.single true (omega arith) (omega arith)

encode_integer-IsClamped_example : IsClamped 0x80000001 true false true 32
encode_integer-IsClamped_example = encode_integer-IsClamped 0x80000001 32 true false true (inl refl)

propagate-IsQuiet_example :
    ((propagate (0x7f800001 ∷ []) FpFormat.single default ≡ Option.none)
      ↔ (any_nan (0x7f800001 ∷ []) FpFormat.single ≡ false))
    × ((result : FpResult)
        → propagate (0x7f800001 ∷ []) FpFormat.single default ≡ Option.some result
        → IsQuiet FpFormat.single result.bits
          × (result.raised ≡ (
              if signalling_among (0x7f800001 ∷ []) FpFormat.single then invalid else none_raised)))
propagate-IsQuiet_example = propagate-IsQuiet (0x7f800001 ∷ []) FpFormat.single default

round_and_pack-unpack_example :
    round_and_pack
      (unpack 0x3f800001 FpFormat.single)
      FpFormat.single
      (record { rounding = FpRounding.nearest; is_sticky = false; control = default })
    ≡ exact 0x3f800001
round_and_pack-unpack_example =
    round_and_pack-unpack FpFormat.single 0x3f800001 FpRounding.nearest default (omega arith)
      (omega arith) (omega arith)

isqrt_u128-IsRoot_example : IsRoot 1000000000 (isqrt_u128 1000000000)
isqrt_u128-IsRoot_example = isqrt_u128-IsRoot 1000000000 (omega arith)

abbrev on_single : FpBinaryOp → FpFormat → ℕ → ℕ → ℕ
on_single op f lhs rhs =
    (softfloat.binary op
      (record { lhs = lhs; rhs = rhs; format = f; rounding = FpRounding.nearest }) default).bits

abbrev ordered : FpComparison → FpFormat → ℕ → ℕ → Bool
ordered order f lhs rhs =
    let operands : FpOperands = record {
      lhs = lhs;
      rhs = rhs;
      format = f;
      rounding = FpRounding.nearest;
    } in
    elim order [
      | FpComparison.less ↦ elim (softfloat.compare operands false).0 [
        | FpComparison.less ↦ true
        | _ ↦ false
      ]
      | _ ↦ elim (softfloat.compare operands false).0 [ FpComparison.equal ↦ true | _ ↦ false ]
    ]

-- A host whose floats are those of the reference backend.
abbrev host : HostFloats
host = record {
  add = on_single FpBinaryOp.add;
  sub = on_single FpBinaryOp.sub;
  mul = on_single FpBinaryOp.mul;
  div = on_single FpBinaryOp.div;
  lt = ordered FpComparison.less;
  eq = ordered FpComparison.equal;
  widen = λ value.
      (softfloat.convert_format (record { bits = value; format = FpFormat.single }) FpFormat.double
        default).bits;
  narrow = λ value.
      (softfloat.convert_format (record { bits = value; format = FpFormat.double }) FpFormat.single
        default).bits;
}

-- A write of FPSR and a division by zero, under an FPCR that flushes to zero.
abbrev first : List FpCall
first =
    FpCall.binary_call FpBinaryOp.div (record {
      lhs = 0x3f800000;
      rhs = 0;
      format = FpFormat.single;
      rounding = FpRounding.nearest;
    })
    ∷ []

after_calls-kept_example :
    let before = after_calls false host (with_fpcr false host 0x1000000) first in
    let after = after_calls false host before (FpCall.fpcr_call 0 ∷ []) in
    IsSelected false host after × IsSticky false host before after
after_calls-kept_example =
    after_calls-kept false host 0x1000000 first (FpCall.fpcr_call 0 ∷ []) refl

-- One and one.
two : (add 0x3f800000 0x3f800000 false nearest_single).bits ≡ 0x40000000
unfolding add
two = refl

-- Seven times the least subnormal number, halved: the sum rounds up to a higher bit and comes out as two
-- times the least, not four.
half_of_seven : (multiply 7 0x3f000000 nearest_single).bits ≡ 2
unfolding multiply
half_of_seven = refl
