-- ===== src/Shim/Service.antt =====
-- `service` and `run` of crates/core/src/shim/mod.rs.
pub mod Frame
pub mod Calls
pub mod Kept
pub mod Bounds
pub mod Extent
pub mod Ends
use coracle.Prelude.{
  ℕ, zero, suc, ◌+◌, ◌-◌, ◌^◌, min, Bool, true, false, Option, none, some, Result, ok, err, ltb,
  wrapping_add,
}
use coracle.Reg.{Gpr}
use coracle.RegFile.{read_x, write_x, set_pc}
use coracle.Decode.{insn_bytes}
use coracle.Trap.{Trap}
use coracle.Trace.{TraceSink}
use coracle.Interp.Memory.{Memory}
use coracle.Interp.Cpu.{Cpu, Stop}
use coracle.Interp.Step
use coracle.Shim.Host.{SysResult, HostIo, to_return_value}
use coracle.Shim.State.{Shim}
use coracle.Shim.Dispatch.{Outcome, Args}
use coracle.Shim.Dispatch.Call.{call}

pub data ShimExit : Type 0 where
  exited : (status : ℕ) → ShimExit
  trapped : (trap : Trap) → ShimExit
  budget_exhausted : ShimExit

-- `unwrap_or_else(Errno::to_return_value)`.
abbrev pub value_of : SysResult → ℕ
value_of (ok value) = value
value_of (err e) = to_return_value e

module _ {H M S : Type 0} (io : HostIo H) (mem : Memory M) (tr : TraceSink S) where
  abbrev pub args_of : Cpu M S → Args
  args_of cpu = record {
    a0 = read_x cpu.regs (Gpr.x 0);
    a1 = read_x cpu.regs (Gpr.x 1);
    a2 = read_x cpu.regs (Gpr.x 2);
    a3 = read_x cpu.regs (Gpr.x 3);
    a4 = read_x cpu.regs (Gpr.x 4);
    a5 = read_x cpu.regs (Gpr.x 5);
  }

  -- What `service` does with the outcome of the call.
  unfoldable pub serviced : Outcome × Shim H × Cpu M S → Option ℕ × Shim H × Cpu M S
  unfolding write_x to_return_value
  serviced (Outcome.returned result, shim, cpu) =
      (none, shim, record cpu { regs = write_x cpu.regs (Gpr.x 0) (value_of result) })
  serviced (Outcome.exited status, shim, cpu) =
      (some status, record shim { host = io.exit shim.host status }, cpu)

  unfoldable pub service : Shim H → Cpu M S → Option ℕ × Shim H × Cpu M S
  unfolding serviced call read_x
  service shim cpu = serviced (call io mem shim cpu (read_x cpu.regs (Gpr.x 8)) (args_of cpu))

  -- What the loop of `run` does with the stop of the interpreter: an exit, or the state that the next
  -- pass starts from.
  unfoldable pub after_stop : Stop × Cpu M S → Shim H → Option ShimExit × Shim H × Cpu M S
  unfolding service set_pc
  after_stop (Stop.budget_exhausted, cpu) shim = (some ShimExit.budget_exhausted, shim, cpu)
  after_stop (Stop.trapped (Trap.supervisor_call pc imm), cpu) shim =
      let (status, served, after) = service shim cpu in
      elim status [
        | some code ↦ (some (ShimExit.exited code), served, after)
        | none ↦
            (none, served, record after { regs = set_pc after.regs (wrapping_add pc insn_bytes) })
      ]
  after_stop (Stop.trapped trap, cpu) shim = (some (ShimExit.trapped trap), shim, cpu)

  -- The loop of `run` on fuel; `none` where the fuel runs out before the loop ends.
  unfoldable pub run_until :
      (fuel deadline : ℕ) → Shim H → Cpu M S → Option ShimExit × Shim H × Cpu M S
  unfolding after_stop
  run_until zero deadline shim cpu = (none, shim, cpu)
  run_until (suc fuel) deadline shim cpu = elim (ltb cpu.icount deadline) [
    | false ↦ (some ShimExit.budget_exhausted, shim, cpu)
    | true ↦
        let (exit, served, after) = after_stop (Step.run mem tr (deadline - cpu.icount) cpu) shim in
        elim exit [
          | some reason ↦ (some reason, served, after)
          | none ↦ run_until fuel deadline served after
        ]
  ]

  -- `saturating_add`.
  unfoldable pub deadline_of : Cpu M S → ℕ → ℕ
  deadline_of cpu budget = min (cpu.icount + budget) (2 ^ 64 - 1)

  unfoldable pub run : (fuel : ℕ) → Shim H → Cpu M S → ℕ → Option ShimExit × Shim H × Cpu M S
  unfolding run_until deadline_of
  run fuel shim cpu budget = run_until fuel (deadline_of cpu budget) shim cpu
