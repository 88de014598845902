-- ===== src/Interp/Cpu.antt =====
-- `Cpu` of crates/core/src/interp/mod.rs: the state of a vCPU, and why it stops.
use coracle.Prelude.{ℕ, Option, none, List, []}
use coracle.RegFile
use coracle.RegFile.{RegFile}
use coracle.Trap
use coracle.Trap.{Trap, TrapLog}
use coracle.Trace.{RegDelta}
use coracle.Interp.Cache
use coracle.Interp.Cache.{DecodeCache}

-- Whether an instruction set PC itself.
pub data Flow : Type 0 where
  next branched : Flow

pub data Stop : Type 0 where
  budget_exhausted : Stop
  trapped : (trap : Trap) → Stop

pub record Cpu (M S : Type 0) : Type 0 where
  pub regs : RegFile
  pub memory : M
  pub trap_log : TrapLog
  pub sink : S
  pub cache : DecodeCache
  pub icount : ℕ
  pub previous : Option RegFile
  pub deltas : List RegDelta

-- `Cpu::with_sink`.
abbrev pub with_sink : {M S : Type 0} → M → S → Cpu M S
with_sink memory sink = record {
  regs = RegFile.new;
  memory = memory;
  trap_log = Trap.new;
  sink = sink;
  cache = Cache.new;
  icount = 0;
  previous = none;
  deltas = [];
}
