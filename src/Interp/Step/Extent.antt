-- ===== src/Interp/Step/Extent.antt =====
-- How far the memory reaches in a run of the interpreter, and where an SVC that ends the run stands.
use coracle.Prelude.{
  ℕ, zero, suc, ◌+◌, ◌^◌, ◌<◌, ◌≤◌, ◌≡◌, ◌≢◌, refl, sym, ap, ◌∙◌, arith, Result, ok, err, inl, inr,
  ok_or_err,
}
use coracle.Trap.{Trap}
use coracle.Trace.{TraceSink}
use coracle.Interp.Memory.{Memory, read_uint}
use coracle.Interp.Memory.Extent.{Extent}
use coracle.Interp.Cpu.{Cpu, Flow, Stop}
use coracle.Interp.Cache.{decoded}
use coracle.Interp.Dispatch.{execute}
use coracle.Interp.Dispatch.Extent.{svc_at, execute-top, execute-svc}
use coracle.Interp.Step.{fetch, trace_block, retire, step_fetched, step, run}
use coracle.Interp.Step.Precise.{step-elim, step-icount, run-icount}

module _ {M S : Type 0} (mem : Memory M) (tr : TraceSink S) (ext : Extent mem) where
  step_fetched-top :
      (cpu : Cpu M S) (encoding : ℕ)
      → ext.top (step_fetched mem tr cpu encoding).1.memory ≡ ext.top cpu.memory
  unfolding step_fetched retire trace_block
  step_fetched-top cpu encoding =
      let found = decoded cpu.cache cpu.regs.pc encoding in
      let cached : Cpu M S = record cpu { cache = found.1 } in
      let traced = trace_block mem tr cached cpu.regs.pc in
      ground (arith, execute-top mem ext traced found.0 cpu.regs.pc)

  step-top : (cpu : Cpu M S) → ext.top (step mem tr cpu).1.memory ≡ ext.top cpu.memory
  step-top cpu =
      step-elim mem tr (λ out. ext.top out.1.memory ≡ ext.top cpu.memory) cpu (λ trap e. refl)
        (λ encoding e. step_fetched-top cpu encoding)

  pub run-top :
      (budget : ℕ) (cpu : Cpu M S) → ext.top (run mem tr budget cpu).1.memory ≡ ext.top cpu.memory
  unfolding run
  run-top zero cpu = refl
  run-top (suc budget) cpu = ground (arith, step-top cpu, run-top budget (step mem tr cpu).1)

  retire-svc :
      (pc : ℕ) (out : Result Trap Flow × Cpu M S)
      → svc_at pc (retire mem tr pc out).0 ≡ svc_at pc out.0
  unfolding retire
  retire-svc pc out = ground arith

  step_fetched-svc :
      (cpu : Cpu M S) (encoding at imm : ℕ)
      → (step_fetched mem tr cpu encoding).0 ≡ err (Trap.supervisor_call at imm)
      → at ≡ cpu.regs.pc
  unfolding step_fetched
  step_fetched-svc cpu encoding at imm h =
      let pc = cpu.regs.pc in
      let found = decoded cpu.cache pc encoding in
      let cached : Cpu M S = record cpu { cache = found.1 } in
      let traced = trace_block mem tr cached pc in
      sym (ap (svc_at pc) h)
      ∙ retire-svc pc (execute mem traced found.0 pc)
      ∙ execute-svc mem traced found.0 pc

  fetch-inside :
      (cpu : Cpu M S) (encoding : ℕ)
      → fetch mem tr cpu cpu.regs.pc ≡ ok encoding
      → cpu.regs.pc + 4 ≤ ext.top cpu.memory
  unfolding fetch read_uint
  fetch-inside cpu encoding h = elim (ok_or_err (mem.read cpu.memory cpu.regs.pc 4)) [
    | inl (bytes, e) ↦ ext.top_read cpu.memory cpu.regs.pc 4 bytes e
    | inr (fault, e) ↦ ground (arith, e)
  ]

  fetch-svc :
      (cpu : Cpu M S) (trap : Trap) (at imm : ℕ)
      → fetch mem tr cpu cpu.regs.pc ≡ err trap
      → trap ≢ Trap.supervisor_call at imm
  unfolding fetch
  fetch-svc cpu trap at imm e h = ground arith

  -- An SVC stands where the PC is, at an address that was fetched.
  step-svc :
      (cpu : Cpu M S) (at imm : ℕ)
      → (step mem tr cpu).0 ≡ err (Trap.supervisor_call at imm)
      → (at ≡ cpu.regs.pc) × (cpu.regs.pc + 4 ≤ ext.top cpu.memory)
  step-svc cpu at imm =
      step-elim mem tr
        (λ out.
          out.0 ≡ err (Trap.supervisor_call at imm)
          → (at ≡ cpu.regs.pc) × (cpu.regs.pc + 4 ≤ ext.top cpu.memory))
        cpu (λ trap e h. absurd (fetch-svc cpu trap at imm e (ground arith)))
        (λ encoding e h. (step_fetched-svc cpu encoding at imm h, fetch-inside cpu encoding e))

  -- An SVC that ends a run stands at the PC of the CPU that the run leaves, below the end of its memory.
  pub run-svc :
      (budget : ℕ) (cpu : Cpu M S) (at imm : ℕ)
      → cpu.icount + budget < 2 ^ 64
      → let out = run mem tr budget cpu in
        out.0 ≡ Stop.trapped (Trap.supervisor_call at imm)
        → (at + 4 ≤ ext.top cpu.memory) × (out.1.icount ≡ cpu.icount → at ≡ cpu.regs.pc)
  unfolding run
  run-svc zero cpu at imm small h = ground arith
  run-svc (suc budget) cpu at imm small h =
      let next = (step mem tr cpu).1 in
      elim (ok_or_err (step mem tr cpu).0) [
        | inr (trap, e) ↦ ground (arith, e, step-svc cpu at imm)
        | inl (done, e) ↦
            let fewer : next.icount + budget < 2 ^ 64 =
              omega (arith, small, step-icount mem tr cpu e) in
            ground (
              arith,
              e,
              small,
              step-top cpu,
              run-svc budget next at imm fewer,
              step-icount mem tr cpu e,
              run-icount mem tr budget next fewer,
            )
      ]
