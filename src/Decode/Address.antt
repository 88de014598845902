-- ===== src/Decode/Address.antt =====
-- crates/core/src/decode/address.rs: the addressing modes. A byte offset is an i64, kept as its bit
-- pattern.
use coracle.Prelude.{ℕ, Bool, true, false, Option}
use coracle.Reg.{Gpr}
use coracle.Decode.Operand.{ExtendedReg}

pub data WriteBack : Type 0 where
  none pre post : WriteBack

pub data AddrMode : Type 0 where
  immediate : (base : Gpr) (offset : ℕ) (writeback : WriteBack) → AddrMode
  register : (base : Gpr) (index : ExtendedReg) (writeback : WriteBack) → AddrMode
  pc_relative : (offset : ℕ) → AddrMode
  base_only : (base : Gpr) → AddrMode

pub base : AddrMode → Option Gpr
base (AddrMode.immediate b o w) = Option.some b
base (AddrMode.register b i w) = Option.some b
base (AddrMode.base_only b) = Option.some b
base (AddrMode.pc_relative o) = Option.none

-- Pre- and post-indexed forms update their base.
abbrev updates : WriteBack → Bool
updates WriteBack.none = false
updates WriteBack.pre = true
updates WriteBack.post = true

unfoldable pub has_writeback : AddrMode → Bool
has_writeback (AddrMode.immediate b o w) = updates w
has_writeback (AddrMode.register b i w) = updates w
has_writeback (AddrMode.base_only b) = false
has_writeback (AddrMode.pc_relative o) = false

pub record AccessSize : Type 0 where
  pub bytes : ℕ
  pub is_signed : Bool

abbrev pub size_b : AccessSize
size_b = record { bytes = 1; is_signed = false }

abbrev pub size_h : AccessSize
size_h = record { bytes = 2; is_signed = false }

abbrev pub size_w : AccessSize
size_w = record { bytes = 4; is_signed = false }

abbrev pub size_x : AccessSize
size_x = record { bytes = 8; is_signed = false }

abbrev pub size_q : AccessSize
size_q = record { bytes = 16; is_signed = false }

pub record Ordering : Type 0 where
  pub is_acquire : Bool
  pub is_release : Bool
  pub is_exclusive : Bool

abbrev pub plain : Ordering
plain = record { is_acquire = false; is_release = false; is_exclusive = false }
