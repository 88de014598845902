-- ===== src/Fp/Control.antt =====
-- crates/core/src/fp/control.rs: FPCR and FPSR, and `FpResult` of operand.rs.
pub mod DefaultMode
use coracle.Prelude.{
  ℕ, ◌+◌, ◌*◌, ◌/◌, ◌%◌, ◌^◌, bit_and, bit_or, Bool, true, false, not, ◌&&◌, ◌==◌,
}
use coracle.Fp.Operand.{FpRounding, from_rmode}

-- The constants of `fpcr_bit`.
abbrev pub fz : ℕ
fz = 24

abbrev pub dn : ℕ
dn = 25

abbrev pub ahp : ℕ
ahp = 26

abbrev pub fz16 : ℕ
fz16 = 19

abbrev pub rmode_lsb : ℕ
rmode_lsb = 22

abbrev pub meaningful_bits : ℕ
meaningful_bits = 3 * 2 ^ rmode_lsb + 2 ^ fz + 2 ^ dn + 2 ^ ahp + 2 ^ fz16

pub record FpControl : Type 0 where
  pub rounding : FpRounding
  pub is_flush_to_zero : Bool
  pub is_flush_to_zero_fp16 : Bool
  pub is_default_nan : Bool
  pub is_alternative_fp16 : Bool

abbrev pub default : FpControl
default = record {
  rounding = FpRounding.nearest;
  is_flush_to_zero = false;
  is_flush_to_zero_fp16 = false;
  is_default_nan = false;
  is_alternative_fp16 = false;
}

-- `fpcr & (1 << k) != 0`.
abbrev is_set : ℕ → ℕ → Bool
is_set fpcr k = fpcr / 2 ^ k % 2 == 1

unfoldable pub from_bits : ℕ → FpControl
unfolding from_rmode
from_bits fpcr = record {
  rounding = from_rmode (fpcr / 2 ^ rmode_lsb % 4);
  is_flush_to_zero = is_set fpcr fz;
  is_flush_to_zero_fp16 = is_set fpcr fz16;
  is_default_nan = is_set fpcr dn;
  is_alternative_fp16 = is_set fpcr ahp;
}

-- `matches!(self.rounding, FpRounding::Nearest)`.
abbrev is_nearest : FpRounding → Bool
is_nearest r = elim r [ FpRounding.nearest ↦ true | _ ↦ false ]

unfoldable pub is_default_mode : FpControl → Bool
is_default_mode c =
    is_nearest c.rounding
    && not c.is_flush_to_zero
    && not c.is_flush_to_zero_fp16
    && not c.is_default_nan
    && not c.is_alternative_fp16

unfoldable pub is_default_mode_bits : ℕ → Bool
is_default_mode_bits fpcr = bit_and fpcr meaningful_bits == 0

-- `FpExceptions(u8)`.
abbrev pub FpExceptions : Type 0
FpExceptions = ℕ

-- The constants of `FpExceptions`, at the bits of `fpsr_bit`.
abbrev pub none_raised : FpExceptions
none_raised = 0

abbrev pub invalid : FpExceptions
invalid = 1

abbrev pub divide_by_zero : FpExceptions
divide_by_zero = 2

abbrev pub overflow : FpExceptions
overflow = 4

abbrev pub underflow : FpExceptions
underflow = 8

abbrev pub inexact : FpExceptions
inexact = 16

abbrev pub input_denormal : FpExceptions
input_denormal = 128

unfoldable pub is_empty : FpExceptions → Bool
is_empty raised = raised == 0

unfoldable pub union : FpExceptions → FpExceptions → FpExceptions
union raised other = bit_or raised other

unfoldable pub contains : FpExceptions → FpExceptions → Bool
contains raised other = bit_and raised other == other

unfoldable pub accumulate : ℕ → FpExceptions → ℕ
accumulate fpsr raised = bit_or fpsr raised

pub record FpResult : Type 0 where
  pub bits : ℕ
  pub raised : FpExceptions

abbrev pub exact : ℕ → FpResult
exact value = record { bits = value; raised = none_raised }

abbrev pub raising : ℕ → FpExceptions → FpResult
raising value raised = record { bits = value; raised = raised }
