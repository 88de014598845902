-- ===== src/Fp/Engine/Sticky.antt =====
-- What any calls of the engine keep.
use coracle.Prelude.{ℕ, ◌≤◌, ◌≡◌, arith, Bool, true, false, List, [], ◌∷◌}
use coracle.Prelude.Bits.{bit, bit-bit_or}
use coracle.Fp.Operand.{FpFormat, FpRounding}
use coracle.Fp.Control.{FpExceptions, from_bits, accumulate, is_default_mode}
use coracle.Fp.Control.DefaultMode.{is_default_mode_bits-eq}
use coracle.Fp.Backend.{
  FpBinaryOp, FpUnaryOp, FpValue, FpOperands, FpFmaOperands, ToIntegerTarget, FromIntegerSource,
}
use coracle.Fp.Native.{HostFloats}
use coracle.Fp.Engine.{
  FpEngine, Selected, select, with_fpcr, set_fpcr, record_result, set_exceptions, binary, unary,
  fused_multiply_add, compare, compare_ordering, convert_format, to_integer, convert_from_integer,
}

-- The calls that change an engine.
pub data FpCall : Type 0 where
  binary_call : FpBinaryOp → FpOperands → FpCall
  unary_call : FpUnaryOp → FpValue → FpRounding → FpCall
  fused_call : FpFmaOperands → FpCall
  compare_call : FpOperands → Bool → FpCall
  ordering_call : FpOperands → FpCall
  convert_call : FpValue → FpFormat → FpCall
  to_integer_call : FpValue → ToIntegerTarget → FpCall
  from_integer_call : ℕ → FromIntegerSource → FpCall
  fpcr_call : ℕ → FpCall
  fpsr_call : ℕ → FpCall

-- No call in a sequence writes FPSR.
abbrev pub keeps_fpsr : List FpCall → Bool
keeps_fpsr [] = true
keeps_fpsr (FpCall.fpsr_call fpsr ∷ calls) = false
keeps_fpsr (_ ∷ calls) = keeps_fpsr calls

module _ (is_precise_build : Bool) (host : HostFloats) where
  pub after_call : FpEngine → FpCall → FpEngine
  after_call engine (FpCall.binary_call op operands) =
      (binary is_precise_build host engine op operands).1
  after_call engine (FpCall.unary_call op operand rounding) =
      (unary is_precise_build host engine op operand rounding).1
  after_call engine (FpCall.fused_call operands) =
      (fused_multiply_add is_precise_build host engine operands).1
  after_call engine (FpCall.compare_call operands is_signalling) =
      (compare is_precise_build host engine operands is_signalling).1
  after_call engine (FpCall.ordering_call operands) =
      (compare_ordering is_precise_build host engine operands).1
  after_call engine (FpCall.convert_call value target) =
      (convert_format is_precise_build host engine value target).1
  after_call engine (FpCall.to_integer_call value target) =
      (to_integer is_precise_build host engine value target).1
  after_call engine (FpCall.from_integer_call value source) =
      (convert_from_integer is_precise_build host engine value source).1
  after_call engine (FpCall.fpcr_call fpcr) = set_fpcr is_precise_build host engine fpcr
  after_call engine (FpCall.fpsr_call fpsr) = set_exceptions is_precise_build host engine fpsr

  pub after_calls : FpEngine → List FpCall → FpEngine
  after_calls engine [] = engine
  after_calls engine (call ∷ calls) = after_calls (after_call engine call) calls

  -- The native backend serves only the default mode, in a build that is not precise.
  abbrev pub IsSelected : FpEngine → Type 0
  IsSelected engine =
      engine.selected ≡ Selected.native
      → (is_precise_build ≡ false) × (is_default_mode engine.control ≡ true)

  abbrev pub IsSticky : FpEngine → FpEngine → Type 0
  IsSticky before after = (k : ℕ) → bit before.exceptions k ≤ bit after.exceptions k

  select-IsSelected :
      (fpcr : ℕ)
      → select is_precise_build host fpcr ≡ Selected.native
      → (is_precise_build ≡ false) × (is_default_mode (from_bits fpcr) ≡ true)
  unfolding select
  select-IsSelected fpcr h = ground (arith, is_default_mode_bits-eq fpcr, h)

  accumulate-sticky :
      (fpsr : ℕ) (raised : FpExceptions) (k : ℕ) → bit fpsr k ≤ bit (accumulate fpsr raised) k
  unfolding accumulate
  accumulate-sticky fpsr raised k = omega (arith, bit-bit_or k fpsr raised)

  -- A call records flags, re-selects the backend, or writes FPSR.
  after_call-IsSelected :
      (engine : FpEngine) (call : FpCall) → IsSelected engine → IsSelected (after_call engine call)
  unfolding after_call binary unary fused_multiply_add compare compare_ordering convert_format
      to_integer convert_from_integer record_result set_fpcr
  after_call-IsSelected engine (FpCall.binary_call op operands) h = h
  after_call-IsSelected engine (FpCall.unary_call op operand rounding) h = h
  after_call-IsSelected engine (FpCall.fused_call operands) h = h
  after_call-IsSelected engine (FpCall.compare_call operands is_signalling) h = h
  after_call-IsSelected engine (FpCall.ordering_call operands) h = h
  after_call-IsSelected engine (FpCall.convert_call value target) h = h
  after_call-IsSelected engine (FpCall.to_integer_call value target) h = h
  after_call-IsSelected engine (FpCall.from_integer_call value source) h = h
  after_call-IsSelected engine (FpCall.fpcr_call fpcr) h = select-IsSelected fpcr
  after_call-IsSelected engine (FpCall.fpsr_call fpsr) h = h

  after_call-IsSticky :
      (engine : FpEngine) (call : FpCall) (calls : List FpCall)
      → keeps_fpsr (call ∷ calls) ≡ true
      → IsSticky engine (after_call engine call) × (keeps_fpsr calls ≡ true)
  unfolding after_call binary unary fused_multiply_add compare compare_ordering convert_format
      to_integer convert_from_integer record_result set_fpcr
  after_call-IsSticky engine (FpCall.binary_call op operands) calls h =
      (accumulate-sticky engine.exceptions _, h)
  after_call-IsSticky engine (FpCall.unary_call op operand rounding) calls h =
      (accumulate-sticky engine.exceptions _, h)
  after_call-IsSticky engine (FpCall.fused_call operands) calls h =
      (accumulate-sticky engine.exceptions _, h)
  after_call-IsSticky engine (FpCall.compare_call operands is_signalling) calls h =
      (accumulate-sticky engine.exceptions _, h)
  after_call-IsSticky engine (FpCall.ordering_call operands) calls h =
      (accumulate-sticky engine.exceptions _, h)
  after_call-IsSticky engine (FpCall.convert_call value target) calls h =
      (accumulate-sticky engine.exceptions _, h)
  after_call-IsSticky engine (FpCall.to_integer_call value target) calls h =
      (accumulate-sticky engine.exceptions _, h)
  after_call-IsSticky engine (FpCall.from_integer_call value source) calls h =
      (accumulate-sticky engine.exceptions _, h)
  after_call-IsSticky engine (FpCall.fpcr_call fpcr) calls h = (λ k. omega arith, h)
  after_call-IsSticky engine (FpCall.fpsr_call fpsr) calls h = ground arith

  after_calls-IsSelected :
      (engine : FpEngine) (calls : List FpCall)
      → IsSelected engine
      → IsSelected (after_calls engine calls)
  unfolding after_calls
  after_calls-IsSelected engine [] h = h
  after_calls-IsSelected engine (call ∷ calls) h =
      after_calls-IsSelected (after_call engine call) calls (after_call-IsSelected engine call h)

  after_calls-IsSticky :
      (engine : FpEngine) (calls : List FpCall)
      → keeps_fpsr calls ≡ true
      → IsSticky engine (after_calls engine calls)
  unfolding after_calls
  after_calls-IsSticky engine [] h = λ k. omega arith
  after_calls-IsSticky engine (call ∷ calls) h =
      let (a, b) = after_call-IsSticky engine call calls h in
      let c = after_calls-IsSticky (after_call engine call) calls b in λ k. omega (arith, a k, c k)

  -- From an engine set up for any FPCR, after any calls, writes of FPCR and FPSR among them, and then any
  -- more of which none writes FPSR, the native backend is selected only where the build is not precise and
  -- the control in force is the default mode, and every exception flag that was set after the first calls
  -- still is.
  pub after_calls-kept :
      (fpcr : ℕ) (first rest : List FpCall)
      → keeps_fpsr rest ≡ true
      → let before = after_calls (with_fpcr is_precise_build host fpcr) first in
        let after = after_calls before rest in IsSelected after × IsSticky before after
  unfolding with_fpcr
  after_calls-kept fpcr first rest h =
      let before = after_calls (with_fpcr is_precise_build host fpcr) first in
      (
        after_calls-IsSelected before rest (
            after_calls-IsSelected (with_fpcr is_precise_build host fpcr) first
              (select-IsSelected fpcr)),
        after_calls-IsSticky before rest h,
      )
