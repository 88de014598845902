-- ===== src/Interp/Reference.antt =====
-- The machine that the interpreter is compared with: fetch, decode and execute, with no decoded-instruction
-- cache, no tracing and no shadow state.
pub mod Refines
use coracle.Prelude.{ℕ, zero, suc, Result, ok, err, wrapping_add}
use coracle.RegFile.{RegFile, set_pc}
use coracle.Decode.{decode, insn_bytes}
use coracle.Trap.{Trap, TrapLog, record_trap}
use coracle.Interp.Memory.{Memory, read_uint}
use coracle.Interp.Cpu.{Cpu, Flow, Stop}
use coracle.Interp.Dispatch.{execute}
use coracle.Interp.Dispatch.Lift.{bare}

pub record Machine (M : Type 0) : Type 0 where
  pub regs : RegFile
  pub memory : M
  pub trap_log : TrapLog
  pub icount : ℕ

abbrev pub machine_of : {M S : Type 0} → Cpu M S → Machine M
machine_of cpu = record {
  regs = cpu.regs;
  memory = cpu.memory;
  trap_log = cpu.trap_log;
  icount = cpu.icount;
}

module _ {M : Type 0} (mem : Memory M) where
  -- The machine after the instruction at `pc` had an outcome.
  pub finish :
      Machine M → ℕ → Result Trap Flow × Cpu M (Unit {0}) → Result Trap (Unit {0}) × Machine M
  finish m pc (ok Flow.next, after) = (
    ok tt,
    record m {
      regs = set_pc after.regs (wrapping_add pc insn_bytes);
      memory = after.memory;
      icount = wrapping_add m.icount 1;
    },
  )
  finish m pc (ok Flow.branched, after) = (
    ok tt,
    record m { regs = after.regs; memory = after.memory; icount = wrapping_add m.icount 1 },
  )
  finish m pc (err trap, after) = (err trap, record m { trap_log = record_trap m.trap_log trap })

  pub reference_step : Machine M → Result Trap (Unit {0}) × Machine M
  reference_step m = elim (read_uint mem m.memory m.regs.pc 4) [
    | err fault ↦ (err (Trap.instruction_abort m.regs.pc), m)
    | ok encoding ↦
        finish m m.regs.pc (execute mem (bare m.regs m.memory) (decode encoding) m.regs.pc)
  ]

  pub reference_run : ℕ → Machine M → Stop × Machine M
  reference_run zero m = (Stop.budget_exhausted, m)
  reference_run (suc budget) m =
      let stepped = reference_step m in
      elim stepped.0 [
        | err trap ↦ (Stop.trapped trap, stepped.1)
        | ok done ↦ reference_run budget stepped.1
      ]
