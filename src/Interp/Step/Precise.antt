-- ===== src/Interp/Step/Precise.antt =====
-- What a step that traps leaves behind, and how a run composes.
use coracle.Prelude.{
  ℕ, zero, suc, ◌+◌, ◌^◌, ◌<◌, ◌≤◌, ◌≡◌, ◌≢◌, refl, sym, ap, ◌∙◌, arith, ◌⊎◌, inl, inr, Result, ok,
  err, result_cases, wrapping_add,
}
use coracle.Trap.{Trap}
use coracle.Trace.{TraceSink}
use coracle.Interp.Memory.{Memory}
use coracle.Interp.Cache.{decoded}
use coracle.Interp.Cpu.{Cpu, Stop}
use coracle.Interp.Dispatch.Frame.{execute-err}
use coracle.Interp.Dispatch.Lift.{execute-lift}
use coracle.Interp.Step.{step, step_fetched, fetch, trace_block, retire, run}

module _ {M S : Type 0} (mem : Memory M) (tr : TraceSink S) where
  -- What a traced CPU has in common with the one before.
  pub trace_block-same :
      (cpu : Cpu M S) (pc : ℕ)
      → ((trace_block mem tr cpu pc).regs ≡ cpu.regs)
        × ((trace_block mem tr cpu pc).memory ≡ cpu.memory)
        × ((trace_block mem tr cpu pc).icount ≡ cpu.icount)
        × ((trace_block mem tr cpu pc).trap_log ≡ cpu.trap_log)
        × ((trace_block mem tr cpu pc).cache ≡ cpu.cache)
  unfolding trace_block
  trace_block-same cpu pc = ground arith

  step_fetched-err :
      (cpu : Cpu M S) (encoding : ℕ) (trap : Trap)
      → (step_fetched mem tr cpu encoding).0 ≡ err trap
      → ((step_fetched mem tr cpu encoding).1.regs ≡ cpu.regs)
        × ((step_fetched mem tr cpu encoding).1.memory ≡ cpu.memory)
        × ((step_fetched mem tr cpu encoding).1.icount ≡ cpu.icount)
  unfolding step_fetched retire
  step_fetched-err cpu encoding trap h =
      let found = decoded cpu.cache cpu.regs.pc encoding in
      let cached : Cpu M S = record cpu { cache = found.1 } in
      let traced = trace_block mem tr cached cpu.regs.pc in
      ground (
        arith,
        trace_block-same cached cpu.regs.pc,
        execute-err mem traced found.0 cpu.regs.pc trap,
      )

  step_fetched-icount :
      (cpu : Cpu M S) (encoding : ℕ)
      → (step_fetched mem tr cpu encoding).0 ≡ ok tt
      → (step_fetched mem tr cpu encoding).1.icount ≡ wrapping_add cpu.icount 1
  unfolding step_fetched retire
  step_fetched-icount cpu encoding h =
      let found = decoded cpu.cache cpu.regs.pc encoding in
      let cached : Cpu M S = record cpu { cache = found.1 } in
      let traced = trace_block mem tr cached cpu.regs.pc in
      ground (
        arith,
        trace_block-same cached cpu.regs.pc,
        ap (λ o. o.1.icount) (execute-lift mem traced found.0 cpu.regs.pc),
      )

  -- What holds of the two ways a fetch can end holds of a step.
  pub step-elim :
      (P : Result Trap (Unit {0}) × Cpu M S → Type 0) (cpu : Cpu M S)
      → ((trap : Trap) → fetch mem tr cpu cpu.regs.pc ≡ err trap → P (err trap, cpu))
      → ((encoding : ℕ)
          → fetch mem tr cpu cpu.regs.pc ≡ ok encoding
          → P (step_fetched mem tr cpu encoding))
      → P (step mem tr cpu)
  unfolding step
  step-elim P cpu f g = go (fetch mem tr cpu cpu.regs.pc) refl
    where
      go :
          (fetched : Result Trap ℕ)
          → fetch mem tr cpu cpu.regs.pc ≡ fetched
          → P (elim fetched [
            | err trap ↦ (err trap, cpu)
            | ok encoding ↦ step_fetched mem tr cpu encoding
          ])
      go (ok encoding) e = g encoding e
      go (err trap) e = f trap e

  -- A step that traps leaves the registers, the PC and the flags among them, the memory and the count
  -- of retired instructions as they were.
  pub step-precise :
      (cpu : Cpu M S) (trap : Trap)
      → (step mem tr cpu).0 ≡ err trap
      → ((step mem tr cpu).1.regs ≡ cpu.regs)
        × ((step mem tr cpu).1.memory ≡ cpu.memory)
        × ((step mem tr cpu).1.icount ≡ cpu.icount)
  step-precise cpu trap =
      step-elim
        (λ after.
          after.0 ≡ err trap
          → (after.1.regs ≡ cpu.regs)
            × (after.1.memory ≡ cpu.memory)
            × (after.1.icount ≡ cpu.icount))
        cpu (λ t e h. (refl, refl, refl)) (λ encoding e. step_fetched-err cpu encoding trap)

  pub step-icount :
      (cpu : Cpu M S)
      → (step mem tr cpu).0 ≡ ok tt
      → (step mem tr cpu).1.icount ≡ wrapping_add cpu.icount 1
  step-icount cpu =
      step-elim (λ after. after.0 ≡ ok tt → after.1.icount ≡ wrapping_add cpu.icount 1) cpu
        (λ t e h. ground arith) (λ encoding e. step_fetched-icount cpu encoding)

  run-ok :
      (budget : ℕ) (cpu : Cpu M S)
      → (step mem tr cpu).0 ≡ ok tt
      → run mem tr (suc budget) cpu ≡ run mem tr budget (step mem tr cpu).1
  unfolding run
  run-ok budget cpu h = ground arith

  run-err :
      (budget : ℕ) (cpu : Cpu M S) (trap : Trap)
      → (step mem tr cpu).0 ≡ err trap
      → run mem tr (suc budget) cpu ≡ (Stop.trapped trap, (step mem tr cpu).1)
  unfolding run
  run-err budget cpu trap h = ground arith

  budget_not_trapped : (trap : Trap) → Stop.budget_exhausted ≢ Stop.trapped trap
  budget_not_trapped trap h = ground arith

  -- Where the count of retired instructions and the budget add up to less than 2^64, a run either ends
  -- its budget and has counted exactly that many instructions more, or ends at a trap and has counted
  -- fewer.
  pub run-icount :
      (budget : ℕ) (cpu : Cpu M S)
      → cpu.icount + budget < 2 ^ 64
      → ((run mem tr budget cpu).0 ≡ Stop.budget_exhausted)
          × ((run mem tr budget cpu).1.icount ≡ cpu.icount + budget)
        ⊎ ((trap : Trap) × ((run mem tr budget cpu).0 ≡ Stop.trapped trap)
            × (cpu.icount ≤ (run mem tr budget cpu).1.icount)
            × ((run mem tr budget cpu).1.icount < cpu.icount + budget))
  unfolding run
  run-icount zero cpu small = inl (refl, omega arith)
  run-icount (suc budget) cpu small = elim (result_cases (step mem tr cpu).0) [
    | inl e ↦
        elim (run-icount budget (step mem tr cpu).1 (omega (arith, small, step-icount cpu e))) [
          | inl (a, b) ↦
              let same = run-ok budget cpu e in
              inl (
                ap (λ p. p.0) same ∙ a,
                omega (arith, ap (λ p. p.1.icount) same, b, small, step-icount cpu e),
              )
          | inr (trap, a, b, c) ↦
              let same = run-ok budget cpu e in
              inr (
                trap,
                ap (λ p. p.0) same ∙ a,
                omega (arith, ap (λ p. p.1.icount) same, b, small, step-icount cpu e),
                omega (arith, ap (λ p. p.1.icount) same, c, small, step-icount cpu e),
              )
        ]
    | inr (trap, e) ↦
        let same = run-err budget cpu trap e in
        let (a, b, c) = step-precise cpu trap e in
        inr (
          trap,
          ap (λ p. p.0) same,
          omega (arith, ap (λ p. p.1.icount) same, c),
          omega (arith, ap (λ p. p.1.icount) same, c),
        )
  ]

  -- A run that ends its budget can be resumed: it is the first part of a longer one; and a run that
  -- traps is the same whatever budget is left.
  pub run-add :
      (first rest : ℕ) (cpu : Cpu M S)
      → ((run mem tr first cpu).0 ≡ Stop.budget_exhausted
          → run mem tr (first + rest) cpu ≡ run mem tr rest (run mem tr first cpu).1)
        × ((trap : Trap)
            → (run mem tr first cpu).0 ≡ Stop.trapped trap
            → run mem tr (first + rest) cpu ≡ run mem tr first cpu)
  unfolding run
  run-add zero rest cpu = (
    λ h. let same : zero + rest ≡ rest = omega arith in ap (λ n. run mem tr n cpu) same,
    λ trap h. absurd (budget_not_trapped trap h),
  )
  run-add (suc first) rest cpu = elim (result_cases (step mem tr cpu).0) [
    | inl e ↦
        let (a, b) = run-add first rest (step mem tr cpu).1 in
        let same = run-ok first cpu e in
        let longer = sum first rest ∙ run-ok (first + rest) cpu e in
        (
          λ h. longer ∙ a (sym (ap (λ p. p.0) same) ∙ h) ∙ ap (λ p. run mem tr rest p.1) (sym same),
          λ trap h. longer ∙ b trap (sym (ap (λ p. p.0) same) ∙ h) ∙ sym same,
        )
    | inr (trap, e) ↦
        let same = run-err first cpu trap e in
        let longer = sum first rest ∙ run-err (first + rest) cpu trap e in
        (
          λ h. absurd (budget_not_trapped trap (sym h ∙ ap (λ p. p.0) same)),
          λ t h. longer ∙ sym same,
        )
  ]
    where
      sum : (a b : ℕ) → run mem tr (suc a + b) cpu ≡ run mem tr (suc (a + b)) cpu
      sum a b = let same : suc a + b ≡ suc (a + b) = omega arith in ap (λ n. run mem tr n cpu) same
