-- ===== src/Trace.antt =====
-- crates/core/src/trace: the hook that the interpreter calls, and the register deltas that it reports.
pub mod Deltas
pub mod Format
pub mod Writer
use coracle.Prelude.{ℕ, Bool, false, List}
use coracle.RegFile.{RegFile}

pub data MarkerKind : Type 0 where
  trace_start reset annotation : MarkerKind

pub data EndReason : Type 0 where
  normal limit_reached guest_halt : EndReason

pub data DisconType : Type 0 where
  interrupt exception host_call : DisconType

pub record RegDelta : Type 0 where
  pub reg_id : ℕ
  pub value : ℕ

pub record ExceptionEvent : Type 0 where
  pub icount : ℕ
  pub from_pc : ℕ
  pub to_pc : ℕ
  pub discon : DisconType
  pub regs : RegFile

-- The `TraceSink` trait.
pub record TraceSink (S : Type 0) : Type 0 where
  pub enabled : Bool
  pub on_marker : S → MarkerKind → ℕ → ℕ → S
  pub on_block : S → ℕ → ℕ → List RegDelta → S
  pub on_exception : S → ExceptionEvent → S
  pub finish : S → EndReason → ℕ → S

abbrev pub null_sink : TraceSink (Unit {0})
null_sink = record {
  enabled = false;
  on_marker = λ s kind icount value. s;
  on_block = λ s pc icount deltas. s;
  on_exception = λ s event. s;
  finish = λ s reason icount. s;
}
