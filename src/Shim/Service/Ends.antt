-- ===== src/Shim/Service/Ends.antt =====
-- When `run` ends. A served SVC does not retire, but its address was fetched, and the next SVC that
-- nothing retires before stands four bytes further up.
use coracle.Prelude.{
  ℕ, zero, suc, ◌+◌, ◌-◌, ◌*◌, ◌^◌, ◌≤◌, ◌<◌, ◌⊎◌, min, Bool, true, false, ◌≡◌, ◌≢◌, refl, sym,
  subst, ap, ◌∙◌, arith, Option, none, some, ltb, wrapping_add, inl, inr,
}
use coracle.RegFile.{set_pc}
use coracle.Interp.Memory.{Memory}
use coracle.Interp.Cpu.{Cpu, Stop}
use coracle.Interp.Step
use coracle.Interp.Step.Precise.{run-icount}
use coracle.Interp.Step.Extent.{run-top, run-svc}
use coracle.Interp.Memory.Extent.{Extent}
use coracle.Trap.{Trap}
use coracle.Trace.{TraceSink}
use coracle.Shim.Host.{HostIo}
use coracle.Shim.State.{Shim}
use coracle.Shim.Service.{ShimExit, after_stop, run_until, deadline_of, run}
use coracle.Shim.Service.Bounds.{service-icount}
use coracle.Shim.Service.Extent.{service-top}

same_or_more : (a b : ℕ) → a ≤ b → (b ≡ a) ⊎ (a < b)
same_or_more a b h = ground arith

-- One retired instruction weighs more than any place of the PC.
retired_drops :
    (left fewer top place : ℕ) → fewer < left → fewer * suc top + (top - place) < left * suc top
retired_drops left fewer top place h =
    let rest = left - suc fewer in
    let whole : left ≡ suc fewer + rest = omega arith in omega (arith, ap (λ n. n * suc top) whole)

-- A pass that retires nothing moves the PC up from where it was.
pass_drops :
    (left fewer top pc at : ℕ)
    → fewer ≤ left
    → (fewer ≡ left → at ≡ pc)
    → at + 4 ≤ top
    → fewer * suc top + (top - (at + 4)) < left * suc top + (top - pc)
pass_drops left fewer top pc at h stays inside = elim (same_or_more fewer left h) [
  | inl same ↦ omega (arith, stays (sym same), ap (λ n. n * suc top) same)
  | inr more ↦ omega (arith, retired_drops left fewer top (at + 4) more)
]

module _ {H M S : Type 0} (io : HostIo H) (mem : Memory M) (tr : TraceSink S)
    (ext : Extent mem) where
  -- What is left of the budget, and below the end of the memory.
  abbrev left_of : ℕ → Cpu M S → ℕ
  left_of deadline cpu =
      (deadline - cpu.icount) * suc (ext.top cpu.memory) + (ext.top cpu.memory - cpu.regs.pc)

  -- A pass that goes on leaves less.
  IsShorter : ℕ → Cpu M S → Option ShimExit × Shim H × Cpu M S → Type 0
  IsShorter deadline cpu (exit, served, after) =
      exit ≡ none
      → (ext.top after.memory ≡ ext.top cpu.memory)
        × (left_of deadline after < left_of deadline cpu)

  resumed :
      (at imm : ℕ) (shim : Shim H) (now : Cpu M S)
      → let (exit, served, after) =
          after_stop io mem tr (Stop.trapped (Trap.supervisor_call at imm), now) shim in
        exit ≡ none
        → (ext.top after.memory ≡ ext.top now.memory)
          × (after.icount ≡ now.icount)
          × (after.regs.pc ≡ wrapping_add at 4)
  unfolding after_stop set_pc
  resumed at imm shim now =
      ground (arith, service-top io mem tr ext shim now, service-icount io mem tr shim now)

  after_stop-IsShorter :
      (deadline : ℕ) (stop : Stop) (shim : Shim H) (cpu now : Cpu M S)
      → ext.top cpu.memory < 2 ^ 64
      → cpu.icount < deadline
      → ext.top now.memory ≡ ext.top cpu.memory
      → cpu.icount ≤ now.icount
      → now.icount ≤ deadline
      → ((at imm : ℕ)
          → stop ≡ Stop.trapped (Trap.supervisor_call at imm)
          → (at + 4 ≤ ext.top cpu.memory) × (now.icount ≡ cpu.icount → at ≡ cpu.regs.pc))
      → IsShorter deadline cpu (after_stop io mem tr (stop, now) shim)
  unfolding IsShorter after_stop
  after_stop-IsShorter deadline (Stop.trapped (Trap.supervisor_call at imm)) shim cpu now room early
        same up down svc goes_on =
      let out = after_stop io mem tr (Stop.trapped (Trap.supervisor_call at imm), now) shim in
      let (a, b, c) = resumed at imm shim now goes_on in
      let (inside, stays) = svc at imm refl in
      let top = ext.top cpu.memory in
      let drops =
        pass_drops (deadline - cpu.icount) (deadline - now.icount) top cpu.regs.pc at (omega arith)
          (λ e. stays (omega (arith, e))) inside in
      let place : out.2.regs.pc ≡ at + 4 = omega (arith, c, inside, room) in
      let there : ext.top out.2.memory ≡ top = a ∙ same in
      (
        there,
        subst (λ t. (deadline - out.2.icount) * suc t + (t - out.2.regs.pc) < left_of deadline cpu)
            (sym there)
            (subst (λ i. (deadline - i) * suc top + (top - out.2.regs.pc) < left_of deadline cpu)
              (sym b)
              (subst (λ p. (deadline - now.icount) * suc top + (top - p) < left_of deadline cpu)
                (sym place) drops)),
      )
  after_stop-IsShorter deadline Stop.budget_exhausted shim cpu now room early same up down svc h =
      ground arith
  after_stop-IsShorter deadline (Stop.trapped (Trap.undefined_instruction pc encoding)) shim cpu now
        room early same up down svc h =
      ground arith
  after_stop-IsShorter deadline (Stop.trapped (Trap.breakpoint pc imm)) shim cpu now room early same
        up down svc h =
      ground arith
  after_stop-IsShorter deadline (Stop.trapped (Trap.data_abort pc address is_write)) shim cpu now
        room early same up down svc h =
      ground arith
  after_stop-IsShorter deadline (Stop.trapped (Trap.instruction_abort pc)) shim cpu now room early
        same up down svc h =
      ground arith

  run-IsShorter :
      (deadline : ℕ) (shim : Shim H) (cpu : Cpu M S)
      → ext.top cpu.memory < 2 ^ 64
      → cpu.icount < deadline
      → deadline < 2 ^ 64
      → IsShorter deadline cpu
          (after_stop io mem tr (Step.run mem tr (deadline - cpu.icount) cpu) shim)
  run-IsShorter deadline shim cpu room early small =
      let budget = deadline - cpu.icount in
      let out = Step.run mem tr budget cpu in
      let bounds : (cpu.icount ≤ out.1.icount) × (out.1.icount ≤ deadline) =
        elim (run-icount mem tr budget cpu (omega arith)) [
          | inl (a, b) ↦ (omega (arith, b), omega (arith, b))
          | inr (trap, a, b, c) ↦ (b, omega (arith, c))
        ] in
      after_stop-IsShorter deadline out.0 shim cpu out.1 room early (run-top mem tr ext budget cpu)
        bounds.0 bounds.1 (λ at imm. run-svc mem tr ext budget cpu at imm (omega arith))

  run_until-ends :
      (fuel deadline : ℕ) (shim : Shim H) (cpu : Cpu M S)
      → ext.top cpu.memory < 2 ^ 64
      → deadline < 2 ^ 64
      → left_of deadline cpu < fuel
      → (run_until io mem tr fuel deadline shim cpu).0 ≢ none
  unfolding run_until IsShorter
  run_until-ends zero deadline shim cpu room small h = absurd (omega arith)
  run_until-ends (suc fuel) deadline shim cpu room small h =
      go (ltb cpu.icount deadline) refl
        (after_stop io mem tr (Step.run mem tr (deadline - cpu.icount) cpu) shim)
        (λ early. run-IsShorter deadline shim cpu room early small)
        (λ s c inside. run_until-ends fuel deadline s c inside small)
    where
      go :
          (early : Bool)
          → ltb cpu.icount deadline ≡ early
          → (pass : Option ShimExit × Shim H × Cpu M S)
          → (cpu.icount < deadline → IsShorter deadline cpu pass)
          → ((s : Shim H) (c : Cpu M S)
              → ext.top c.memory < 2 ^ 64
              → left_of deadline c < fuel
              → (run_until io mem tr fuel deadline s c).0 ≢ none)
          → let ended : Option ShimExit × Shim H × Cpu M S = elim early [
            | false ↦ (some ShimExit.budget_exhausted, shim, cpu)
            | true ↦ elim pass.0 [
              | some reason ↦ (some reason, pass.1, pass.2)
              | none ↦ run_until io mem tr fuel deadline pass.1 pass.2
            ]
          ] in
            ended.0 ≢ none
      go false late pass one more = λ e. ground arith
      go true early (some reason, served, after) one more = λ e. ground arith
      go true early (none, served, after) one more =
          let (same, less) = one (ground (arith, early)) refl in
          more served after (omega (arith, same, room)) (omega (arith, less, h))

  -- In a memory whose addresses end below 2^64, `run` ends, whatever the guest does: fuel of one more
  -- than the budget times one more than the end of the addresses is enough.
  pub run-ends :
      (fuel : ℕ) (shim : Shim H) (cpu : Cpu M S) (budget : ℕ)
      → ext.top cpu.memory < 2 ^ 64
      → suc budget * suc (ext.top cpu.memory) ≤ fuel
      → (run io mem tr fuel shim cpu budget).0 ≢ none
  unfolding run deadline_of
  run-ends fuel shim cpu budget room enough =
      let deadline = min (cpu.icount + budget) (2 ^ 64 - 1) in
      let most : deadline - cpu.icount < suc budget = omega arith in
      run_until-ends fuel deadline shim cpu room (omega arith) (
        omega (
          arith,
          enough,
          retired_drops (suc budget) (deadline - cpu.icount) (ext.top cpu.memory) cpu.regs.pc most,
        ))
