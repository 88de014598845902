-- ===== src/Shim/Service/Bounds.antt =====
-- The budget of `run`.
use coracle.Prelude.{
  ℕ, zero, suc, ◌+◌, ◌-◌, ◌^◌, ◌≤◌, ◌<◌, Bool, ◌≡◌, ◌≢◌, inl, inr, refl, sym, ap, ◌∙◌, arith,
  Option, none, some, ltb, min, true, false,
}
use coracle.Interp.Memory.{Memory}
use coracle.Interp.Cpu.{Cpu, Stop}
use coracle.Interp.Step
use coracle.Interp.Step.Precise.{run-icount}
use coracle.Trap.{Trap}
use coracle.Trace.{TraceSink}
use coracle.Shim.Host.{HostIo}
use coracle.Shim.State.{Shim}
use coracle.Shim.Service.{ShimExit, service, after_stop, run_until, deadline_of, run}
use coracle.Shim.Service.Kept.{IsServed, service-kept}

module _ {H M S : Type 0} (io : HostIo H) (mem : Memory M) (tr : TraceSink S) where
  pub service-icount :
      (shim : Shim H) (cpu : Cpu M S) → (service io mem tr shim cpu).2.icount ≡ cpu.icount
  unfolding IsServed
  service-icount shim cpu = ap (λ c. c.icount) (service-kept io mem tr shim cpu).0

  after_stop-icount :
      (stop : Stop) (shim : Shim H) (cpu : Cpu M S)
      → (after_stop io mem tr (stop, cpu) shim).2.icount ≡ cpu.icount
  unfolding after_stop
  after_stop-icount Stop.budget_exhausted shim cpu = refl
  after_stop-icount (Stop.trapped (Trap.supervisor_call pc imm)) shim cpu =
      ground (arith, service-icount shim cpu)
  after_stop-icount (Stop.trapped (Trap.undefined_instruction pc encoding)) shim cpu = refl
  after_stop-icount (Stop.trapped (Trap.breakpoint pc imm)) shim cpu = refl
  after_stop-icount (Stop.trapped (Trap.data_abort pc address is_write)) shim cpu = refl
  after_stop-icount (Stop.trapped (Trap.instruction_abort pc)) shim cpu = refl

  trapped_not_budget :
      (trap : Trap) (shim : Shim H) (cpu : Cpu M S)
      → (after_stop io mem tr (Stop.trapped trap, cpu) shim).0 ≢ some ShimExit.budget_exhausted
  unfolding after_stop
  trapped_not_budget (Trap.supervisor_call pc imm) shim cpu h = ground arith
  trapped_not_budget (Trap.undefined_instruction pc encoding) shim cpu h = ground arith
  trapped_not_budget (Trap.breakpoint pc imm) shim cpu h = ground arith
  trapped_not_budget (Trap.data_abort pc address is_write) shim cpu h = ground arith
  trapped_not_budget (Trap.instruction_abort pc) shim cpu h = ground arith

  -- One pass of the loop.
  IsPass : ℕ → Cpu M S → Option ShimExit × Shim H × Cpu M S → Type 0
  IsPass deadline cpu (exit, served, after) =
      (cpu.icount ≤ after.icount)
      × (after.icount ≤ deadline)
      × (exit ≡ some ShimExit.budget_exhausted → after.icount ≡ deadline)

  after_stop-IsPass :
      (deadline : ℕ) (shim : Shim H) (cpu : Cpu M S)
      → cpu.icount ≤ deadline
      → deadline < 2 ^ 64
      → IsPass deadline cpu
          (after_stop io mem tr (Step.run mem tr (deadline - cpu.icount) cpu) shim)
  unfolding IsPass
  after_stop-IsPass deadline shim cpu h small =
      let out = Step.run mem tr (deadline - cpu.icount) cpu in
      let same = after_stop-icount out.0 shim out.1 in
      elim (run-icount mem tr (deadline - cpu.icount) cpu (omega arith)) [
        | inl (a, b) ↦ (omega (arith, same, b), omega (arith, same, b), λ e. omega (arith, same, b))
        | inr (trap, a, b, c) ↦ (
          omega (arith, same, b),
          omega (arith, same, c),
          λ e. absurd (
              trapped_not_budget trap shim out.1
                (ap (λ s. (after_stop io mem tr (s, out.1) shim).0) (sym a) ∙ e)),
        )
      ]

  run_until-IsPass :
      (fuel deadline : ℕ) (shim : Shim H) (cpu : Cpu M S)
      → cpu.icount ≤ deadline
      → deadline < 2 ^ 64
      → IsPass deadline cpu (run_until io mem tr fuel deadline shim cpu)
  unfolding run_until IsPass
  run_until-IsPass zero deadline shim cpu h small = (omega arith, h, λ e. ground arith)
  run_until-IsPass (suc fuel) deadline shim cpu h small =
      go (ltb cpu.icount deadline) refl
        (after_stop io mem tr (Step.run mem tr (deadline - cpu.icount) cpu) shim)
        (after_stop-IsPass deadline shim cpu h small)
        (λ s c below. run_until-IsPass fuel deadline s c below small)
    where
      go :
          (early : Bool)
          → ltb cpu.icount deadline ≡ early
          → (pass : Option ShimExit × Shim H × Cpu M S) → IsPass deadline cpu pass
          → ((s : Shim H) (c : Cpu M S)
              → c.icount ≤ deadline
              → IsPass deadline c (run_until io mem tr fuel deadline s c))
          → IsPass deadline cpu (elim early [
            | false ↦ (some ShimExit.budget_exhausted, shim, cpu)
            | true ↦ elim pass.0 [
              | some reason ↦ (some reason, pass.1, pass.2)
              | none ↦ run_until io mem tr fuel deadline pass.1 pass.2
            ]
          ])
      go false late pass one more = (omega arith, h, λ e. ground arith)
      go true early (some reason, served, after) one more = one
      go true early (none, served, after) (a, b, c) more =
          let (d, e, f) = more served after b in (omega (arith, a, d), e, f)

  -- However often it is resumed after a system call, a guest whose count is below 2^64 retires no more
  -- instructions than its budget, and exactly the budget, up to the largest count, where the loop ends
  -- because the budget ran out.
  pub run-bounds :
      (fuel : ℕ) (shim : Shim H) (cpu : Cpu M S) (budget : ℕ)
      → cpu.icount < 2 ^ 64
      → let (exit, served, after) = run io mem tr fuel shim cpu budget in
        (cpu.icount ≤ after.icount)
        × (after.icount ≤ cpu.icount + budget)
        × (after.icount < 2 ^ 64)
        × (exit ≡ some ShimExit.budget_exhausted
            → after.icount ≡ min (cpu.icount + budget) (2 ^ 64 - 1))
  unfolding run deadline_of IsPass
  run-bounds fuel shim cpu budget h =
      let deadline = min (cpu.icount + budget) (2 ^ 64 - 1) in
      let (a, b, c) = run_until-IsPass fuel deadline shim cpu (omega arith) (omega arith) in
      (a, omega (arith, b), omega (arith, b), c)
