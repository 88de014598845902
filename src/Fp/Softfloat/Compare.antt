-- ===== src/Fp/Softfloat/Compare.antt =====
-- crates/core/src/fp/softfloat/compare.rs: comparison, and the minimum and the maximum.
pub mod Order
use coracle.Prelude.{
  ℕ, Bool, true, false, not, ◌&&◌, ◌||◌, Option, none, some, List, [], ◌∷◌, ◌==◌, ltb, bool_eq,
  if◌then◌else◌,
}
use coracle.Fp.Operand.{
  FpFormat, FpComparison, is_nan, is_zero, is_negative, magnitude, signed_zero,
}
use coracle.Fp.Control.{FpControl, FpExceptions, FpResult, exact, invalid, none_raised}
use coracle.Fp.Softfloat.Nan.{any_nan, signalling_among, propagate}

unfoldable pub ordering : ℕ → ℕ → FpFormat → FpComparison
unfolding is_zero is_negative
ordering lhs rhs format =
    let lhs_negative = is_negative format lhs in
    let is_less =
      if lhs_negative
      then ltb (magnitude format rhs) (magnitude format lhs)
      else ltb (magnitude format lhs) (magnitude format rhs) in
    if is_zero format lhs && is_zero format rhs
    then FpComparison.equal
    else if lhs == rhs
    then FpComparison.equal
    else if not (bool_eq lhs_negative (is_negative format rhs))
    then (if lhs_negative then FpComparison.less else FpComparison.greater)
    else if is_less
    then FpComparison.less
    else FpComparison.greater

unfoldable pub compare : ℕ → ℕ → FpFormat → Bool → FpComparison × FpExceptions
unfolding ordering any_nan signalling_among
compare lhs rhs format is_signalling =
    let operands = lhs ∷ rhs ∷ [] in
    let is_invalid = is_signalling || signalling_among operands format in
    if any_nan operands format
    then (FpComparison.unordered, (if is_invalid then invalid else none_raised))
    else (ordering lhs rhs format, none_raised)

pub data Extremum : Type 0 where
  max min max_num min_num : Extremum

unfoldable pub is_maximum : Extremum → Bool
is_maximum Extremum.max = true
is_maximum Extremum.max_num = true
is_maximum _ = false

unfoldable pub ignores_quiet_nan : Extremum → Bool
ignores_quiet_nan Extremum.max_num = true
ignores_quiet_nan Extremum.min_num = true
ignores_quiet_nan _ = false

unfoldable pub numeric_nan_case : ℕ → ℕ → Extremum → FpFormat → Option FpResult
unfolding ignores_quiet_nan signalling_among is_nan
numeric_nan_case lhs rhs which format =
    if not (ignores_quiet_nan which)
    then none
    else if signalling_among (lhs ∷ rhs ∷ []) format
    then none
    else if is_nan format lhs && not (is_nan format rhs)
    then some (exact rhs)
    else if not (is_nan format lhs) && is_nan format rhs
    then some (exact lhs)
    else none

-- The part of `extremum` where no operand is a NaN.
unfoldable pub numeric_extremum : ℕ → ℕ → Extremum → FpFormat → FpResult
unfolding ordering is_zero is_negative signed_zero is_maximum
numeric_extremum lhs rhs which format =
    let lhs_negative = is_negative format lhs in
    let rhs_negative = is_negative format rhs in
    let is_negative =
      if is_maximum which then lhs_negative && rhs_negative else lhs_negative || rhs_negative in
    let is_lhs_greater : Bool = elim (ordering lhs rhs format) [
      | FpComparison.greater ↦ true
      | _ ↦ false
    ] in
    if is_zero format lhs && is_zero format rhs
    then exact (signed_zero format is_negative)
    else exact (if bool_eq is_lhs_greater (is_maximum which) then lhs else rhs)

unfoldable pub extremum : ℕ → ℕ → Extremum → FpFormat → FpControl → FpResult
unfolding numeric_nan_case propagate numeric_extremum
extremum lhs rhs which format control = elim (numeric_nan_case lhs rhs which format) [
  | some result ↦ result
  | none ↦ elim (propagate (lhs ∷ rhs ∷ []) format control) [
    | some result ↦ result
    | none ↦ numeric_extremum lhs rhs which format
  ]
]
