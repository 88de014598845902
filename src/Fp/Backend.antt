-- ===== src/Fp/Backend.antt =====
-- crates/core/src/fp/backend.rs: the interface of the two backends, and the types that it names.
use coracle.Prelude.{ℕ, ◌^◌, bit_and, bit_xor, Bool, true, false}
use coracle.Fp.Operand.{FpFormat, FpRounding, FpComparison, mask, sign_shift, magnitude}
use coracle.Fp.Control.{FpControl, FpExceptions, FpResult}

pub data FpBinaryOp : Type 0 where
  add sub mul div max min max_num min_num : FpBinaryOp

pub data FpUnaryOp : Type 0 where
  sqrt round_to_integral : FpUnaryOp

pub record IntFormat : Type 0 where
  pub bits : ℕ
  pub is_signed : Bool

abbrev pub s32 : IntFormat
s32 = record { bits = 32; is_signed = true }

abbrev pub u32 : IntFormat
u32 = record { bits = 32; is_signed = false }

abbrev pub s64 : IntFormat
s64 = record { bits = 64; is_signed = true }

abbrev pub u64 : IntFormat
u64 = record { bits = 64; is_signed = false }

pub data FpSignOp : Type 0 where
  negate absolute : FpSignOp

pub record FpValue : Type 0 where
  pub bits : ℕ
  pub format : FpFormat

-- `FpValue::new`.
unfoldable pub value_of : ℕ → FpFormat → FpValue
value_of bits format = record { bits = bit_and bits (mask format); format = format }

pub record FpOperands : Type 0 where
  pub lhs : ℕ
  pub rhs : ℕ
  pub format : FpFormat
  pub rounding : FpRounding

unfoldable pub lhs_value : FpOperands → FpValue
unfolding value_of
lhs_value operands = value_of operands.lhs operands.format

unfoldable pub rhs_value : FpOperands → FpValue
unfolding value_of
rhs_value operands = value_of operands.rhs operands.format

pub record FpFmaOperands : Type 0 where
  pub multiplicand : ℕ
  pub multiplier : ℕ
  pub addend : ℕ
  pub format : FpFormat
  pub rounding : FpRounding
  pub is_product_negated : Bool
  pub is_addend_negated : Bool

pub record ToIntegerTarget : Type 0 where
  pub format : IntFormat
  pub rounding : FpRounding
  pub fractional_bits : ℕ

pub record FromIntegerSource : Type 0 where
  pub format : IntFormat
  pub target : FpFormat
  pub rounding : FpRounding
  pub fractional_bits : ℕ

-- The `FpBackend` trait, but for `copy_sign`, which no backend overrides.
pub record FpBackend : Type 0 where
  pub tracks_exceptions : Bool
  pub binary : FpBinaryOp → FpOperands → FpControl → FpResult
  pub unary : FpUnaryOp → FpValue → FpRounding → FpControl → FpResult
  pub fused_multiply_add : FpFmaOperands → FpControl → FpResult
  pub compare : FpOperands → Bool → FpComparison × FpExceptions
  pub convert_format : FpValue → FpFormat → FpControl → FpResult
  pub to_integer : FpValue → ToIntegerTarget → FpControl → FpResult
  pub convert_from_integer : ℕ → FromIntegerSource → FpControl → FpResult

unfoldable pub copy_sign : FpValue → FpSignOp → ℕ
copy_sign value FpSignOp.negate = bit_xor value.bits (2 ^ sign_shift value.format)
copy_sign value FpSignOp.absolute = magnitude value.format value.bits
