-- ===== src/Fp/Softfloat/Compare/Order.antt =====
-- The comparison against the order of the values as signed magnitudes.
use coracle.Prelude.{ℕ, ◌^◌, ◌<◌, ◌≡◌, arith, Bool, false, ◌||◌, if◌then◌else◌}
use coracle.Prelude.Signed.{ℤ, sub_ℕ, ltb_ℤ}
use coracle.Fp.Operand.{
  FpFormat, FpComparison, bits, magnitude, is_negative, is_zero, is_nan, is_signalling_nan,
}
use coracle.Fp.Control.{FpExceptions, invalid, none_raised}
use coracle.Fp.Softfloat.Nan.{any_nan, signalling_among}
use coracle.Fp.Softfloat.Compare.{ordering, compare}

-- The magnitude with its sign: both zeros are 0, and the order of these integers is the order of the
-- values of a format.
abbrev pub signed_magnitude : FpFormat → ℕ → ℤ
signed_magnitude f value =
    if is_negative f value then sub_ℕ 0 (magnitude f value) else ℤ.pos (magnitude f value)

abbrev pub reference_order : ℤ → ℤ → FpComparison
reference_order a b =
    if ltb_ℤ a b
    then FpComparison.less
    else if ltb_ℤ b a
    then FpComparison.greater
    else FpComparison.equal

pub ordering-eq :
    (lhs rhs : ℕ) (f : FpFormat)
    → lhs < 2 ^ bits f
    → rhs < 2 ^ bits f
    → ordering lhs rhs f ≡ reference_order (signed_magnitude f lhs) (signed_magnitude f rhs)
unfolding ordering is_zero is_negative
ordering-eq lhs rhs FpFormat.half h k = ground arith
ordering-eq lhs rhs FpFormat.single h k = ground arith
ordering-eq lhs rhs FpFormat.double h k = ground arith

-- The scan of the two operands ends with nothing more to find.
no_third :
    (a b s t u : Bool) (order : FpComparison)
    → ◌≡◌ {A = FpComparison × FpExceptions}
        (if a || (b || false)
          then (FpComparison.unordered, (if s || (t || (u || false)) then invalid else none_raised))
          else (order, none_raised))
        (if a || b
          then (FpComparison.unordered, (if s || (t || u) then invalid else none_raised))
          else (order, none_raised))
no_third a b s t u order = ground arith

-- Two values of a format compare unordered exactly when one is a NaN, and else as their signed
-- magnitudes do; invalid is raised exactly for a signalling NaN, or for any NaN where the comparison is
-- a signalling one.
pub compare-order :
    (lhs rhs : ℕ) (f : FpFormat) (is_signalling : Bool)
    → lhs < 2 ^ bits f
    → rhs < 2 ^ bits f
    → compare lhs rhs f is_signalling ≡ (
        if is_nan f lhs || is_nan f rhs
        then (
          FpComparison.unordered,
          (if is_signalling || (is_signalling_nan f lhs || is_signalling_nan f rhs)
              then invalid
              else none_raised),
        )
        else (reference_order (signed_magnitude f lhs) (signed_magnitude f rhs), none_raised))
unfolding compare any_nan signalling_among
compare-order lhs rhs f is_signalling h k = rw (ordering-eq lhs rhs f h k) (
    no_third (is_nan f lhs) (is_nan f rhs) is_signalling (is_signalling_nan f lhs)
      (is_signalling_nan f rhs) (reference_order (signed_magnitude f lhs) (signed_magnitude f rhs)))
