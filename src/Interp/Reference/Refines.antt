-- ===== src/Interp/Reference/Refines.antt =====
-- The interpreter with its cache and its tracing, beside the reference machine.
use coracle.Prelude.{ℕ, zero, suc, ◌≡◌, refl, sym, ap, subst, Result, ok, err, map_err}
use coracle.Decode.{decode}
use coracle.Decode.Instruction.{Instruction}
use coracle.Trap.{Trap, record_trap}
use coracle.Trace.{TraceSink}
use coracle.Interp.Memory.{AccessFault, Memory, read_uint}
use coracle.Interp.Cache.{decoded}
use coracle.Interp.Cache.Transparent.{IsCoherent, decoded-eq-decode, decoded-IsCoherent}
use coracle.Interp.Cpu.{Cpu, Flow, Stop}
use coracle.Interp.Dispatch.{execute}
use coracle.Interp.Dispatch.Frame.{execute-err}
use coracle.Interp.Dispatch.Lift.{bare, lift, execute-lift}
use coracle.Interp.Step.{step, step_fetched, fetch, trace_block, retire, run}
use coracle.Interp.Step.Precise.{trace_block-same}
use coracle.Interp.Reference.{Machine, machine_of, finish, reference_step, reference_run}

module _ {M S : Type 0} (mem : Memory M) (tr : TraceSink S) where
  abbrev Implements : Result Trap (Unit {0}) × Cpu M S → Result Trap (Unit {0}) × Machine M → Type 0
  Implements did should =
      (did.0 ≡ should.0) × (machine_of did.1 ≡ should.1) × IsCoherent did.1.cache

  machine_of-cong :
      (c d : Cpu M S)
      → c.regs ≡ d.regs
      → c.memory ≡ d.memory
      → c.trap_log ≡ d.trap_log
      → c.icount ≡ d.icount
      → machine_of c ≡ machine_of d
  machine_of-cong c d e f g h i = record { regs = e i; memory = f i; trap_log = g i; icount = h i }

  abbrev Ends : Stop × Cpu M S → Stop × Machine M → Type 0
  Ends did should = (did.0 ≡ should.0) × (machine_of did.1 ≡ should.1) × IsCoherent did.1.cache

  retire-finish :
      (cpu : Cpu M S) (pc : ℕ) (outcome : Result Trap Flow × Cpu M (Unit {0}))
      → ((trap : Trap) → outcome.0 ≡ err trap → outcome.1 ≡ bare cpu.regs cpu.memory)
      → IsCoherent cpu.cache
      → Implements (retire mem tr pc (lift cpu outcome)) (finish mem (machine_of cpu) pc outcome)
  unfolding retire finish
  retire-finish cpu pc (ok Flow.next, after) h w = (refl, refl, w)
  retire-finish cpu pc (ok Flow.branched, after) h w = (refl, refl, w)
  retire-finish cpu pc (err trap, after) h w =
      let same = h trap refl in
      (
        refl,
        ap
            (λ c. record (machine_of cpu) {
              regs = c.regs;
              memory = c.memory;
              trap_log = record_trap cpu.trap_log trap;
            })
            same,
        w,
      )

  -- The machine that `reference_step` gives once it has fetched `encoding`.
  abbrev pub reference_fetched : Machine M → ℕ → Result Trap (Unit {0}) × Machine M
  reference_fetched m encoding =
      finish mem m m.regs.pc (execute mem (bare m.regs m.memory) (decode encoding) m.regs.pc)

  retire-execute :
      (cpu : Cpu M S) (m : Machine M) (insn : Instruction) (encoding : ℕ)
      → machine_of cpu ≡ m
      → insn ≡ decode encoding
      → IsCoherent cpu.cache
      → Implements
          (retire mem tr m.regs.pc (execute mem cpu insn m.regs.pc))
          (reference_fetched m encoding)
  retire-execute cpu m insn encoding e f w =
      let pc = cpu.regs.pc in
      let outcome = execute mem (bare cpu.regs cpu.memory) (decode encoding) pc in
      let base : Implements (retire mem tr pc (lift cpu outcome))
          (finish mem (machine_of cpu) pc outcome) =
        retire-finish cpu pc outcome
          (λ trap. execute-err mem (bare cpu.regs cpu.memory) (decode encoding) pc trap) w in
      let lifted : Implements (retire mem tr pc (execute mem cpu (decode encoding) pc))
          (reference_fetched (machine_of cpu) encoding) =
        subst (λ o. Implements (retire mem tr pc o) (reference_fetched (machine_of cpu) encoding))
          (sym (execute-lift mem cpu (decode encoding) pc)) base in
      let decoded_insn =
        subst
          (λ i.
            Implements (retire mem tr pc (execute mem cpu i pc))
              (reference_fetched (machine_of cpu) encoding))
          (sym f) lifted in
      subst
        (λ m.
          Implements (retire mem tr m.regs.pc (execute mem cpu insn m.regs.pc))
            (reference_fetched m encoding))
        e decoded_insn

  step_fetched-Implements :
      (cpu : Cpu M S) (encoding : ℕ)
      → IsCoherent cpu.cache
      → Implements (step_fetched mem tr cpu encoding) (reference_fetched (machine_of cpu) encoding)
  unfolding step_fetched
  step_fetched-Implements cpu encoding w =
      let pc = cpu.regs.pc in
      let found = decoded cpu.cache pc encoding in
      let cached : Cpu M S = record cpu { cache = found.1 } in
      let (a, b, c, d, e) = trace_block-same mem tr cached pc in
      retire-execute (trace_block mem tr cached pc) (machine_of cpu) found.0 encoding
        (machine_of-cong (trace_block mem tr cached pc) cpu a b d c)
        (decoded-eq-decode cpu.cache pc encoding w)
        (subst IsCoherent (sym e) (decoded-IsCoherent cpu.cache pc encoding w))

  -- One step from a coherent cache does what the reference machine does, whatever the cache holds and
  -- whatever the sink: the same result, the same registers, memory, trap log and count; and the cache
  -- stays coherent.
  pub step-refines :
      (cpu : Cpu M S)
      → IsCoherent cpu.cache
      → ((step mem tr cpu).0 ≡ (reference_step mem (machine_of cpu)).0)
        × (machine_of (step mem tr cpu).1 ≡ (reference_step mem (machine_of cpu)).1)
        × IsCoherent (step mem tr cpu).1.cache
  unfolding reference_step step fetch
  step-refines cpu w = go (read_uint mem cpu.memory cpu.regs.pc 4)
    where
      go :
          (fetched : Result AccessFault ℕ)
          → Implements
              (elim (map_err (λ fault. Trap.instruction_abort cpu.regs.pc) fetched) [
                | err trap ↦ (err trap, cpu)
                | ok encoding ↦ step_fetched mem tr cpu encoding
              ])
              (elim fetched [
                | err fault ↦ (err (Trap.instruction_abort cpu.regs.pc), machine_of cpu)
                | ok encoding ↦ reference_fetched (machine_of cpu) encoding
              ])
      go (ok encoding) = step_fetched-Implements cpu encoding w
      go (err fault) = (refl, refl, w)

  -- The same of a run of any length.
  pub run-refines :
      (budget : ℕ) (cpu : Cpu M S)
      → IsCoherent cpu.cache
      → ((run mem tr budget cpu).0 ≡ (reference_run mem budget (machine_of cpu)).0)
        × (machine_of (run mem tr budget cpu).1 ≡ (reference_run mem budget (machine_of cpu)).1)
        × IsCoherent (run mem tr budget cpu).1.cache
  unfolding run reference_run
  run-refines zero cpu w = (refl, refl, w)
  run-refines (suc budget) cpu w =
      let (e, f, v) = step-refines cpu w in
      subst (λ should. Ends (continue_run (step mem tr cpu)) (continue_reference should))
        (λ i. (e i, f i)) (go (step mem tr cpu) v (run-refines budget))
    where
      continue_run : Result Trap (Unit {0}) × Cpu M S → Stop × Cpu M S
      continue_run stepped = elim stepped.0 [
        | err trap ↦ (Stop.trapped trap, stepped.1)
        | ok done ↦ run mem tr budget stepped.1
      ]

      continue_reference : Result Trap (Unit {0}) × Machine M → Stop × Machine M
      continue_reference stepped = elim stepped.0 [
        | err trap ↦ (Stop.trapped trap, stepped.1)
        | ok done ↦ reference_run mem budget stepped.1
      ]

      go :
          (did : Result Trap (Unit {0}) × Cpu M S)
          → IsCoherent did.1.cache
          → ((after : Cpu M S)
              → IsCoherent after.cache
              → Ends (run mem tr budget after) (reference_run mem budget (machine_of after)))
          → Ends (continue_run did) (continue_reference (did.0, machine_of did.1))
      go (ok done, after) v rest = rest after v
      go (err trap, after) v rest = (refl, refl, v)
