-- ===== src/Fp/Native.antt =====
-- crates/core/src/fp/native.rs: the backend that uses the floats of the host. Those are a parameter: the
-- operations of Rust's `f32` and `f64` on the bits of a value of the format.
use coracle.Prelude.{ℕ, ◌%◌, ◌^◌, Bool, true, false, not, ◌&&◌, if◌then◌else◌}
use coracle.Fp.Operand.{FpFormat, FpRounding, FpComparison}
use coracle.Fp.Control.{FpControl, FpExceptions, FpResult, exact, none_raised}
use coracle.Fp.Backend.{FpBackend, FpBinaryOp, FpValue, FpOperands}
use coracle.Fp.Reference.{softfloat}

-- What the build's float operations give; `widen` and `narrow` are the casts between the two formats.
pub record HostFloats : Type 0 where
  pub add : FpFormat → ℕ → ℕ → ℕ
  pub sub : FpFormat → ℕ → ℕ → ℕ
  pub mul : FpFormat → ℕ → ℕ → ℕ
  pub div : FpFormat → ℕ → ℕ → ℕ
  pub lt : FpFormat → ℕ → ℕ → Bool
  pub eq : FpFormat → ℕ → ℕ → Bool
  pub widen : ℕ → ℕ
  pub narrow : ℕ → ℕ

abbrev pub is_half : FpFormat → Bool
is_half f = elim f [ FpFormat.half ↦ true | _ ↦ false ]

abbrev is_nearest : FpRounding → Bool
is_nearest r = elim r [ FpRounding.nearest ↦ true | _ ↦ false ]

unfoldable pub can_serve : FpFormat → FpRounding → Bool
can_serve format rounding = is_nearest rounding && not (is_half format)

-- `bits as u32` where the format is single.
abbrev pub host_bits : FpFormat → ℕ → ℕ
host_bits FpFormat.single bits = bits % 2 ^ 32
host_bits _ bits = bits

unfoldable pub dispatch_binary : FpFormat → ℕ → ℕ → (FpFormat → ℕ → ℕ → ℕ) → ℕ
dispatch_binary format lhs rhs op = op format (host_bits format lhs) (host_bits format rhs)

module _ (host : HostFloats) where
  unfoldable pub binary : FpBinaryOp → FpOperands → FpControl → FpResult
  unfolding can_serve dispatch_binary
  binary op operands control =
      let on_host : (FpFormat → ℕ → ℕ → ℕ) → FpResult =
        λ f. exact (dispatch_binary operands.format operands.lhs operands.rhs f) in
      let served : FpResult = elim op [
        | FpBinaryOp.add ↦ on_host host.add
        | FpBinaryOp.sub ↦ on_host host.sub
        | FpBinaryOp.mul ↦ on_host host.mul
        | FpBinaryOp.div ↦ on_host host.div
        | other ↦ softfloat.binary other operands control
      ] in
      if not (can_serve operands.format operands.rounding)
      then softfloat.binary op operands control
      else served

  unfoldable pub partial_order : FpFormat → ℕ → ℕ → FpComparison
  partial_order format lhs rhs =
      if host.lt format lhs rhs
      then FpComparison.less
      else if host.lt format rhs lhs
      then FpComparison.greater
      else if host.eq format lhs rhs
      then FpComparison.equal
      else FpComparison.unordered

  unfoldable pub compare : FpOperands → Bool → FpComparison × FpExceptions
  unfolding partial_order
  compare operands is_signalling =
      let f = operands.format in
      if is_half f
      then softfloat.compare operands is_signalling
      else (partial_order f (host_bits f operands.lhs) (host_bits f operands.rhs), none_raised)

  unfoldable pub convert_format : FpValue → FpFormat → FpControl → FpResult
  convert_format value target control =
      let fallback = softfloat.convert_format value target control in
      elim value.format [
        | FpFormat.single ↦ elim target [
          | FpFormat.double ↦ exact (host.widen (value.bits % 2 ^ 32))
          | _ ↦ fallback
        ]
        | FpFormat.double ↦ elim target [
          | FpFormat.single ↦ exact (host.narrow value.bits)
          | _ ↦ fallback
        ]
        | _ ↦ fallback
      ]

  abbrev pub native : FpBackend
  native = record {
    tracks_exceptions = false;
    binary = binary;
    unary = softfloat.unary;
    fused_multiply_add = softfloat.fused_multiply_add;
    compare = compare;
    convert_format = convert_format;
    to_integer = softfloat.to_integer;
    convert_from_integer = softfloat.convert_from_integer;
  }
