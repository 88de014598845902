-- ===== src/Pstate.antt =====
-- crates/core/src/pstate.rs: the exception level, the stack pointer select, and the normalised word
-- that the trace stream carries.
pub mod Flags
pub mod Masks
pub mod TraceWord
use coracle.Prelude.{ℕ, ◌*◌, ◌^◌, bit_or}
use Flags
use Flags.{Nzcv}
use Masks
use Masks.{Daif}

abbrev trace_nzcv_shift : ℕ
trace_nzcv_shift = 28

abbrev trace_daif_shift : ℕ
trace_daif_shift = 6

abbrev trace_el_shift : ℕ
trace_el_shift = 2

pub data ExceptionLevel : Type 0 where
  el0 el1 : ExceptionLevel

pub data StackPointerSelect : Type 0 where
  el0 elx : StackPointerSelect

-- `self.el as u64`.
abbrev pub el_bits : ExceptionLevel → ℕ
el_bits ExceptionLevel.el0 = 0
el_bits ExceptionLevel.el1 = 1

-- `self.sp_sel as u64`.
abbrev pub sp_sel_bits : StackPointerSelect → ℕ
sp_sel_bits StackPointerSelect.el0 = 0
sp_sel_bits StackPointerSelect.elx = 1

pub record Pstate : Type 0 where
  pub nzcv : Nzcv
  pub daif : Daif
  pub el : ExceptionLevel
  pub sp_sel : StackPointerSelect

-- NZCV at 31..28, DAIF at 9..6, `CurrentEL` at 3..2, `SPSel` at 0.
unfoldable pub to_trace_word : Pstate → ℕ
to_trace_word p =
    bit_or
      (bit_or
        (bit_or (Flags.to_bits p.nzcv * 2 ^ trace_nzcv_shift)
          (Masks.to_bits p.daif * 2 ^ trace_daif_shift))
        (el_bits p.el * 2 ^ trace_el_shift))
      (sp_sel_bits p.sp_sel)
