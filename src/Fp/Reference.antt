-- ===== src/Fp/Reference.antt =====
-- `Softfloat` of crates/core/src/fp/softfloat/mod.rs as a backend.
use coracle.Prelude.{ℕ, Bool, true, false}
use coracle.Fp.Operand.{FpFormat, FpRounding, FpComparison}
use coracle.Fp.Control.{FpControl, FpExceptions, FpResult}
use coracle.Fp.Backend.{
  FpBackend, FpBinaryOp, FpUnaryOp, FpValue, FpOperands, FpFmaOperands, ToIntegerTarget,
  FromIntegerSource,
}
use coracle.Fp.Softfloat.Compare
use coracle.Fp.Softfloat.Compare.{Extremum, extremum}
use coracle.Fp.Softfloat.Arithmetic.{Context, add, multiply, divide, square_root}
use coracle.Fp.Softfloat.Fused.{multiply_add}
use coracle.Fp.Softfloat.Convert
use coracle.Fp.Softfloat.Convert.{round_to_integral, from_integer}

-- `Softfloat::context`.
abbrev pub context_of : FpFormat → FpRounding → FpControl → Context
context_of format rounding control = record {
  format = format;
  rounding = rounding;
  control = control;
}

unfoldable pub binary : FpBinaryOp → FpOperands → FpControl → FpResult
unfolding add multiply divide extremum
binary op operands control =
    let context = context_of operands.format operands.rounding control in
    let extreme : Extremum → FpResult =
      λ which. extremum operands.lhs operands.rhs which operands.format control in
    elim op [
      | FpBinaryOp.add ↦ add operands.lhs operands.rhs false context
      | FpBinaryOp.sub ↦ add operands.lhs operands.rhs true context
      | FpBinaryOp.mul ↦ multiply operands.lhs operands.rhs context
      | FpBinaryOp.div ↦ divide operands.lhs operands.rhs context
      | FpBinaryOp.max ↦ extreme Extremum.max
      | FpBinaryOp.min ↦ extreme Extremum.min
      | FpBinaryOp.max_num ↦ extreme Extremum.max_num
      | FpBinaryOp.min_num ↦ extreme Extremum.min_num
    ]

unfoldable pub unary : FpUnaryOp → FpValue → FpRounding → FpControl → FpResult
unfolding square_root round_to_integral
unary FpUnaryOp.sqrt operand rounding control =
    square_root operand.bits (context_of operand.format rounding control)
unary FpUnaryOp.round_to_integral operand rounding control =
    round_to_integral operand.bits operand.format rounding control

unfoldable pub fused_multiply_add : FpFmaOperands → FpControl → FpResult
unfolding multiply_add
fused_multiply_add operands control =
    multiply_add
      (record {
        multiplicand = operands.multiplicand;
        multiplier = operands.multiplier;
        addend = operands.addend;
        is_product_negated = operands.is_product_negated;
        is_addend_negated = operands.is_addend_negated;
      })
      (context_of operands.format operands.rounding control)

unfoldable pub compare : FpOperands → Bool → FpComparison × FpExceptions
unfolding Compare.compare
compare operands is_signalling =
    Compare.compare operands.lhs operands.rhs operands.format is_signalling

unfoldable pub convert_format : FpValue → FpFormat → FpControl → FpResult
unfolding Convert.convert_format
convert_format value target control =
    Convert.convert_format value.bits value.format target control control.rounding

-- The target's fractional bits are not used.
unfoldable pub to_integer : FpValue → ToIntegerTarget → FpControl → FpResult
unfolding Convert.to_integer
to_integer value target control =
    Convert.to_integer value.bits value.format target.format target.rounding

-- Nor are the source's.
unfoldable pub convert_from_integer : ℕ → FromIntegerSource → FpControl → FpResult
unfolding from_integer
convert_from_integer value source control =
    from_integer value source.format source.target source.rounding control

abbrev pub softfloat : FpBackend
softfloat = record {
  tracks_exceptions = true;
  binary = binary;
  unary = unary;
  fused_multiply_add = fused_multiply_add;
  compare = compare;
  convert_format = convert_format;
  to_integer = to_integer;
  convert_from_integer = convert_from_integer;
}
