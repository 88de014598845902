-- ===== src/Fp/Softfloat/Nan/Quiet.antt =====
-- The NaN that an operation passes on.
use coracle.Prelude.{
  ℕ, ◌≡◌, ◌↔◌, refl, arith, true, false, List, [], ◌∷◌, Option, some, none, if◌then◌else◌,
}
use mathlib.Core.Option.{some-injective}
use coracle.Prelude.Bits.{bit_or-pow}
use coracle.Fp.Operand.{FpFormat, is_nan, is_signalling_nan, quieten, default_nan}
use coracle.Fp.Control.{FpControl, FpResult, raising, invalid, none_raised}
use coracle.Fp.Softfloat.Nan.{signalling_among, any_nan, first_nan, quiet_result, propagate}

-- A NaN whose quiet bit is set.
abbrev pub IsQuiet : FpFormat → ℕ → Type 0
IsQuiet f value = (is_nan f value ≡ true) × (is_signalling_nan f value ≡ false)

quieten-IsQuiet : (f : FpFormat) (value : ℕ) → is_nan f value ≡ true → IsQuiet f (quieten f value)
unfolding quieten is_signalling_nan is_nan
quieten-IsQuiet FpFormat.half value h = ground (arith, bit_or-pow 9 value)
quieten-IsQuiet FpFormat.single value h = ground (arith, bit_or-pow 22 value)
quieten-IsQuiet FpFormat.double value h = ground (arith, bit_or-pow 51 value)

default_nan-IsQuiet : (f : FpFormat) → IsQuiet f (default_nan f)
unfolding is_signalling_nan is_nan
default_nan-IsQuiet FpFormat.half = (refl, refl)
default_nan-IsQuiet FpFormat.single = (refl, refl)
default_nan-IsQuiet FpFormat.double = (refl, refl)

quiet_result-IsQuiet :
    (f : FpFormat) (control : FpControl) (value : ℕ)
    → is_nan f value ≡ true
    → IsQuiet f (quiet_result value f control)
unfolding quiet_result
quiet_result-IsQuiet f control value h =
    ground (arith, quieten-IsQuiet f value h, default_nan-IsQuiet f)

first_nan-is_nan :
    (operands : List ℕ) (f : FpFormat) (value : ℕ)
    → first_nan operands f ≡ some value
    → is_nan f value ≡ true
unfolding first_nan
first_nan-is_nan [] f value h = ground arith
first_nan-is_nan (first ∷ operands) f value h = ground (arith, first_nan-is_nan operands f value)

first_nan-any :
    (operands : List ℕ) (f : FpFormat)
    → (first_nan operands f ≡ none) ↔ (any_nan operands f ≡ false)
unfolding first_nan any_nan
first_nan-any [] f = ground arith
first_nan-any (first ∷ operands) f = ground (arith, first_nan-any operands f)

-- Operands with no NaN among them pass none on; else the result is a quiet NaN, and invalid is raised
-- exactly where some operand is a signalling NaN, also where that is not the one passed on.
pub propagate-IsQuiet :
    (operands : List ℕ) (f : FpFormat) (control : FpControl)
    → ((propagate operands f control ≡ none) ↔ (any_nan operands f ≡ false))
      × ((result : FpResult)
          → propagate operands f control ≡ some result
          → IsQuiet f result.bits
            × (result.raised ≡ (if signalling_among operands f then invalid else none_raised)))
unfolding propagate
propagate-IsQuiet operands f control = go (first_nan operands f) refl
  where
    raised : ℕ
    raised = if signalling_among operands f then invalid else none_raised

    passed : Option ℕ → Option FpResult
    passed found = elim found [
      | none ↦ none
      | some value ↦ some (raising (quiet_result value f control) raised)
    ]

    go :
        (found : Option ℕ)
        → first_nan operands f ≡ found
        → ((passed found ≡ none) ↔ (any_nan operands f ≡ false))
          × ((result : FpResult)
              → passed found ≡ some result
              → IsQuiet f result.bits × (result.raised ≡ raised))
    go none e = ground (arith, first_nan-any operands f, e)
    go (some value) e =
        let quiet = quiet_result-IsQuiet f control value (first_nan-is_nan operands f value e) in
        (
          ground (arith, first_nan-any operands f, e),
          λ result h.
              let same : raising (quiet_result value f control) raised ≡ result =
                some-injective _ _ h in
              rw (← same) (quiet, refl),
        )
