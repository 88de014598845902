-- ===== src/Fp/Engine.antt =====
-- crates/core/src/fp/engine.rs: the selection of the backend and the flags that stick. Whether the build
-- is precise, and the floats of the host, are parameters.
pub mod Sticky
use coracle.Prelude.{ℕ, Bool, true, false, not, ◌||◌, if◌then◌else◌}
use coracle.Fp.Operand.{FpFormat, FpRounding, FpComparison, to_nzcv}
use coracle.Fp.Control.{
  FpControl, FpExceptions, FpResult, from_bits, accumulate, is_default_mode_bits,
}
use coracle.Fp.Backend
use coracle.Fp.Backend.{
  FpBackend, FpBinaryOp, FpUnaryOp, FpSignOp, FpValue, FpOperands, FpFmaOperands, ToIntegerTarget,
  FromIntegerSource,
}
use coracle.Fp.Reference.{softfloat}
use coracle.Fp.Native.{HostFloats}
use coracle.Fp.Native

pub data Selected : Type 0 where
  native reference : Selected

pub record FpEngine : Type 0 where
  pub selected : Selected
  pub control : FpControl
  pub exceptions : ℕ

module _ (is_precise_build : Bool) (host : HostFloats) where
  unfoldable pub select : ℕ → Selected
  unfolding is_default_mode_bits
  select fpcr =
      if is_precise_build || not (is_default_mode_bits fpcr)
      then Selected.reference
      else Selected.native

  unfoldable pub selects_native_backend : ℕ → Bool
  unfolding select
  selects_native_backend fpcr = elim (select fpcr) [
    | Selected.native ↦ true
    | Selected.reference ↦ false
  ]

  unfoldable pub with_fpcr : ℕ → FpEngine
  unfolding select from_bits
  with_fpcr fpcr = record { selected = select fpcr; control = from_bits fpcr; exceptions = 0 }

  unfoldable pub set_fpcr : FpEngine → ℕ → FpEngine
  unfolding select from_bits
  set_fpcr engine fpcr = record engine { selected = select fpcr; control = from_bits fpcr }

  abbrev pub set_exceptions : FpEngine → ℕ → FpEngine
  set_exceptions engine fpsr = record engine { exceptions = fpsr }

  abbrev pub backend : FpEngine → FpBackend
  backend engine = elim engine.selected [
    | Selected.native ↦ Native.native host
    | Selected.reference ↦ softfloat
  ]

  abbrev pub tracks_exceptions : FpEngine → Bool
  tracks_exceptions engine = (backend engine).tracks_exceptions

  abbrev pub default_rounding : FpEngine → FpRounding
  default_rounding engine = engine.control.rounding

  abbrev pub raise : FpEngine → FpExceptions → FpEngine
  raise engine raised = record engine { exceptions = accumulate engine.exceptions raised }

  -- `record`.
  unfoldable pub record_result : FpEngine → FpResult → ℕ × FpEngine
  unfolding accumulate
  record_result engine result = (result.bits, raise engine result.raised)

  unfoldable pub binary : FpEngine → FpBinaryOp → FpOperands → ℕ × FpEngine
  unfolding record_result
  binary engine op operands =
      record_result engine ((backend engine).binary op operands engine.control)

  unfoldable pub unary : FpEngine → FpUnaryOp → FpValue → FpRounding → ℕ × FpEngine
  unfolding record_result
  unary engine op operand rounding =
      record_result engine ((backend engine).unary op operand rounding engine.control)

  unfoldable pub fused_multiply_add : FpEngine → FpFmaOperands → ℕ × FpEngine
  unfolding record_result
  fused_multiply_add engine operands =
      record_result engine ((backend engine).fused_multiply_add operands engine.control)

  abbrev pub copy_sign : FpEngine → FpValue → FpSignOp → ℕ
  copy_sign engine value op = Backend.copy_sign value op

  unfoldable pub compare_ordering : FpEngine → FpOperands → FpComparison × FpEngine
  unfolding accumulate
  compare_ordering engine operands =
      let (ordering, raised) = (backend engine).compare operands false in
      (ordering, raise engine raised)

  unfoldable pub compare : FpEngine → FpOperands → Bool → ℕ × FpEngine
  unfolding accumulate to_nzcv
  compare engine operands is_signalling =
      let (ordering, raised) = (backend engine).compare operands is_signalling in
      (to_nzcv ordering, raise engine raised)

  unfoldable pub convert_format : FpEngine → FpValue → FpFormat → ℕ × FpEngine
  unfolding record_result
  convert_format engine value target =
      record_result engine ((backend engine).convert_format value target engine.control)

  unfoldable pub to_integer : FpEngine → FpValue → ToIntegerTarget → ℕ × FpEngine
  unfolding record_result
  to_integer engine value target =
      record_result engine ((backend engine).to_integer value target engine.control)

  unfoldable pub convert_from_integer : FpEngine → ℕ → FromIntegerSource → ℕ × FpEngine
  unfolding record_result
  convert_from_integer engine value source =
      record_result engine ((backend engine).convert_from_integer value source engine.control)
