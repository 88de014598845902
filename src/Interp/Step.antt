-- ===== src/Interp/Step.antt =====
-- `fetch`, `step`, `run` and `on_exception` of crates/core/src/interp/mod.rs.
pub mod Precise
pub mod Extent
use coracle.Prelude.{
  ℕ, zero, suc, ◌+◌, Option, none, some, Result, ok, err, map_err, wrapping_add, ◌>>=◌,
  if◌then◌else◌,
}
use coracle.RegFile.{set_pc}
use coracle.Decode.{insn_bytes}
use coracle.Decode.Instruction.{Instruction}
use coracle.Trap.{Trap, record_trap}
use coracle.Trace.{TraceSink, DisconType}
use coracle.Trace.Deltas.{deltas_between}
use coracle.Interp.Memory.{Memory, read_uint}
use coracle.Interp.Cache.{decoded}
use coracle.Interp.Cpu.{Cpu, Flow, Stop}
use coracle.Interp.Dispatch.{execute}

module _ {M S : Type 0} (mem : Memory M) (tr : TraceSink S) where
  -- Four bytes, little-endian.
  unfoldable pub fetch : Cpu M S → ℕ → Result Trap ℕ
  unfolding read_uint
  fetch cpu pc = map_err (λ fault. Trap.instruction_abort pc) (read_uint mem cpu.memory pc 4)

  -- The block record, and the shadow state that the next one is compared with.
  pub trace_block : Cpu M S → ℕ → Cpu M S
  trace_block cpu pc =
      let deltas = deltas_between cpu.previous cpu.regs in
      if tr.enabled
      then record cpu {
        deltas = deltas;
        sink = tr.on_block cpu.sink pc cpu.icount deltas;
        previous = some cpu.regs;
      }
      else cpu

  -- What `step` does with the outcome of the instruction.
  unfoldable pub retire : ℕ → Result Trap Flow × Cpu M S → Result Trap (Unit {0}) × Cpu M S
  retire pc (ok Flow.next, cpu) = (
    ok tt,
    record cpu {
      regs = set_pc cpu.regs (wrapping_add pc insn_bytes);
      icount = wrapping_add cpu.icount 1;
    },
  )
  retire pc (ok Flow.branched, cpu) = (ok tt, record cpu { icount = wrapping_add cpu.icount 1 })
  retire pc (err trap, cpu) = (err trap, record cpu { trap_log = record_trap cpu.trap_log trap })

  -- The part of `step` after a fetch that gave `encoding`.
  unfoldable pub step_fetched : Cpu M S → ℕ → Result Trap (Unit {0}) × Cpu M S
  unfolding retire trace_block execute
  step_fetched cpu encoding =
      let pc = cpu.regs.pc in
      let found = decoded cpu.cache pc encoding in
      let traced = trace_block (record cpu { cache = found.1 }) pc in
      retire pc (execute mem traced found.0 pc)

  unfoldable pub step : Cpu M S → Result Trap (Unit {0}) × Cpu M S
  unfolding step_fetched fetch
  step cpu = elim (fetch cpu cpu.regs.pc) [
    | err trap ↦ (err trap, cpu)
    | ok encoding ↦ step_fetched cpu encoding
  ]

  unfoldable pub run : ℕ → Cpu M S → Stop × Cpu M S
  run zero cpu = (Stop.budget_exhausted, cpu)
  run (suc budget) cpu =
      let stepped = step cpu in
      elim stepped.0 [ err trap ↦ (Stop.trapped trap, stepped.1) | ok done ↦ run budget stepped.1 ]

  unfoldable pub on_exception : Cpu M S → ℕ → ℕ → DisconType → Cpu M S
  on_exception cpu from_pc to_pc discon =
      if tr.enabled
      then record cpu {
        sink = tr.on_exception cpu.sink (record {
          icount = cpu.icount;
          from_pc = from_pc;
          to_pc = to_pc;
          discon = discon;
          regs = cpu.regs;
        });
        previous = none;
      }
      else cpu
