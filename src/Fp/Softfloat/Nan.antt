-- ===== src/Fp/Softfloat/Nan.antt =====
-- crates/core/src/fp/softfloat/nan.rs: NaN propagation.
pub mod Quiet
use coracle.Prelude.{ℕ, Bool, true, false, ◌||◌, Option, none, some, List, [], ◌∷◌, if◌then◌else◌}
use coracle.Fp.Operand.{FpFormat, is_nan, is_signalling_nan, quieten, default_nan}
use coracle.Fp.Control.{FpControl, FpResult, raising, invalid, none_raised}

unfoldable pub signalling_among : List ℕ → FpFormat → Bool
unfolding is_signalling_nan
signalling_among [] format = false
signalling_among (value ∷ operands) format =
    is_signalling_nan format value || signalling_among operands format

unfoldable pub any_nan : List ℕ → FpFormat → Bool
unfolding is_nan
any_nan [] format = false
any_nan (value ∷ operands) format = is_nan format value || any_nan operands format

unfoldable pub quiet_result : ℕ → FpFormat → FpControl → ℕ
unfolding quieten
quiet_result value format control =
    if control.is_default_nan then default_nan format else quieten format value

-- `operands.iter().copied().find(|&bits| format.is_nan(bits))`.
unfoldable pub first_nan : List ℕ → FpFormat → Option ℕ
unfolding is_nan
first_nan [] format = none
first_nan (value ∷ operands) format =
    let rest = first_nan operands format in if is_nan format value then some value else rest

unfoldable pub propagate : List ℕ → FpFormat → FpControl → Option FpResult
unfolding signalling_among first_nan quiet_result
propagate operands format control =
    let raised = if signalling_among operands format then invalid else none_raised in
    elim (first_nan operands format) [
      | none ↦ none
      | some value ↦ some (raising (quiet_result value format control) raised)
    ]

abbrev pub invalid_operation : FpFormat → FpResult
invalid_operation format = raising (default_nan format) invalid
