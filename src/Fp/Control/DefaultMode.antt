-- ===== src/Fp/Control/DefaultMode.antt =====
-- The two tests of the default mode.
use coracle.Prelude.{ℕ, ◌/◌, ◌%◌, ◌^◌, ◌≡◌, ◌↔◌, arith, bit_and, true}
use coracle.Prelude.Bits.{bit_and-half, bit_and-shl, bit_and-zero}
use coracle.Fp.Operand.{from_rmode}
use coracle.Fp.Control.{from_bits, is_default_mode, is_default_mode_bits}

-- The meaningful bits, moved down to bit 0.
low_mask : (y : ℕ) → (bit_and y 249 ≡ 0) ↔ ((y % 2 ≡ 0) × (y / 8 % 32 ≡ 0))
low_mask y = omega (
  arith,
  bit_and-half y 249,
  bit_and-half (y / 2) 124,
  bit_and-half (y / 2 / 2) 62,
  bit_and-half (y / 2 / 2 / 2) 31,
  bit_and-half (y / 2 / 2 / 2 / 2) 15,
  bit_and-half (y / 2 / 2 / 2 / 2 / 2) 7,
  bit_and-half (y / 2 / 2 / 2 / 2 / 2 / 2) 3,
  bit_and-half (y / 2 / 2 / 2 / 2 / 2 / 2 / 2) 1,
  bit_and-zero (y / 2 / 2 / 2 / 2 / 2 / 2 / 2 / 2),
)

-- The same digits in place.
fields_zero :
    (fpcr : ℕ)
    → ((fpcr / 2 ^ 19 % 2 ≡ 0) × (fpcr / 2 ^ 19 / 8 % 32 ≡ 0)) ↔ (
        (fpcr / 2 ^ 22 % 4 ≡ 0)
        × (fpcr / 2 ^ 24 % 2 ≡ 0)
        × (fpcr / 2 ^ 19 % 2 ≡ 0)
        × (fpcr / 2 ^ 25 % 2 ≡ 0)
        × (fpcr / 2 ^ 26 % 2 ≡ 0))
fields_zero fpcr = omega arith

default_mode_iff :
    (fpcr : ℕ)
    → (is_default_mode (from_bits fpcr) ≡ true) ↔ (
        (fpcr / 2 ^ 22 % 4 ≡ 0)
        × (fpcr / 2 ^ 24 % 2 ≡ 0)
        × (fpcr / 2 ^ 19 % 2 ≡ 0)
        × (fpcr / 2 ^ 25 % 2 ≡ 0)
        × (fpcr / 2 ^ 26 % 2 ≡ 0))
unfolding is_default_mode from_bits from_rmode
default_mode_iff fpcr = ground arith

-- The cheap test on the raw FPCR, which the interpreter makes, agrees with the test on the interpreted
-- one: no rounding mode but to nearest, and none of FZ, FZ16, DN and AHP.
pub is_default_mode_bits-eq :
    (fpcr : ℕ) → is_default_mode_bits fpcr ≡ is_default_mode (from_bits fpcr)
unfolding is_default_mode_bits
is_default_mode_bits-eq fpcr = ground (
  arith,
  bit_and-shl 19 fpcr 249,
  low_mask (fpcr / 2 ^ 19),
  fields_zero fpcr,
  default_mode_iff fpcr,
)
