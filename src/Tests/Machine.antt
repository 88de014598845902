-- ===== src/Tests/Machine.antt =====
-- A small guest in flat memory, and the theorems on the interpreter at it.
use coracle.Prelude.{ℕ, ◌+◌, ◌<◌, ◌≤◌, ◌≡◌, ◌⊎◌, refl, arith, [], ◌∷◌, err}
use coracle.RegFile.{set_pc}
use coracle.Decode.{decode, decode_in, group_of}
use coracle.Decode.Instruction
use coracle.Decode.Instruction.{unallocated, with_width, setting_flags}
use coracle.Decode.Group.DpImmediate.{data_processing_immediate, add_sub_immediate}
use coracle.Trap.{Trap}
use coracle.Trace.{null_sink}
use coracle.Interp.Memory.Bytes.{from_le}
use coracle.Interp.Memory.Flat
use coracle.Interp.Memory.Flat.{FlatMemory, flat}
use coracle.Interp.Cache
use coracle.Interp.Cache.{slot, is_hit, decoded}
use coracle.Interp.Cache.Transparent.{IsCoherent, new-IsCoherent, decoded-eq-decode}
use coracle.Interp.Cpu.{Cpu, Stop, with_sink}
use coracle.Interp.Dispatch.{execute}
use coracle.Interp.Dispatch.Frame.{execute-err}
use coracle.Interp.Step.{run, step}
use coracle.Interp.Step.Precise.{step-precise, run-icount, run-add}
use coracle.Interp.Reference.{machine_of, reference_step, reference_run}
use coracle.Interp.Reference.Refines.{step-refines, run-refines}

-- `add x0, x0, #1` twice, then a vector word that no instruction of the build has.
abbrev program : FlatMemory
program = record { base = 4096; bytes = 0 ∷ 4 ∷ 0 ∷ 145 ∷ 0 ∷ 4 ∷ 0 ∷ 145 ∷ 0 ∷ 132 ∷ 32 ∷ 78 ∷ [] }

abbrev guest_at : ℕ → Cpu FlatMemory (Unit {0})
guest_at pc = record (with_sink program tt) {
  regs = set_pc (with_sink {S = Unit {0}} program tt).regs pc;
}

abbrev guest : Cpu FlatMemory (Unit {0})
guest = guest_at 4096

two_adds : (run flat null_sink 2 guest).0 ≡ Stop.budget_exhausted
unfolding run step Flat.read Flat.offset decoded is_hit Cache.new from_le decode decode_in group_of
    data_processing_immediate add_sub_immediate with_width Instruction.new slot
two_adds = refl

off_the_map : (step flat null_sink (guest_at 0)).0 ≡ err (Trap.instruction_abort 0)
unfolding step Flat.read Flat.offset
off_the_map = refl

no_such_word :
    (execute flat (guest_at 4104) (unallocated 7) 4104).0 ≡ err (Trap.undefined_instruction 4104 7)
unfolding execute unallocated Instruction.new
no_such_word = refl

run-refines_example :
    ((run flat null_sink 2 guest).0 ≡ (reference_run flat 2 (machine_of guest)).0)
    × (machine_of (run flat null_sink 2 guest).1 ≡ (reference_run flat 2 (machine_of guest)).1)
    × IsCoherent (run flat null_sink 2 guest).1.cache
run-refines_example = run-refines flat null_sink 2 guest new-IsCoherent

step-refines_example :
    ((step flat null_sink guest).0 ≡ (reference_step flat (machine_of guest)).0)
    × (machine_of (step flat null_sink guest).1 ≡ (reference_step flat (machine_of guest)).1)
    × IsCoherent (step flat null_sink guest).1.cache
step-refines_example = step-refines flat null_sink guest new-IsCoherent

decoded-eq-decode_example : (decoded Cache.new 4096 0x91000400).0 ≡ decode 0x91000400
decoded-eq-decode_example = decoded-eq-decode Cache.new 4096 0x91000400 new-IsCoherent

execute-err_example : (execute flat (guest_at 4104) (unallocated 7) 4104).1 ≡ guest_at 4104
execute-err_example =
    execute-err flat (guest_at 4104) (unallocated 7) 4104 (Trap.undefined_instruction 4104 7)
      no_such_word

step-precise_example :
    ((step flat null_sink (guest_at 0)).1.regs ≡ (guest_at 0).regs)
    × ((step flat null_sink (guest_at 0)).1.memory ≡ (guest_at 0).memory)
    × ((step flat null_sink (guest_at 0)).1.icount ≡ (guest_at 0).icount)
step-precise_example =
    step-precise flat null_sink (guest_at 0) (Trap.instruction_abort 0) off_the_map

run-icount_example :
    ((run flat null_sink 2 guest).0 ≡ Stop.budget_exhausted)
      × ((run flat null_sink 2 guest).1.icount ≡ guest.icount + 2)
    ⊎ ((trap : Trap) × ((run flat null_sink 2 guest).0 ≡ Stop.trapped trap)
        × (guest.icount ≤ (run flat null_sink 2 guest).1.icount)
        × ((run flat null_sink 2 guest).1.icount < guest.icount + 2))
run-icount_example = run-icount flat null_sink 2 guest (omega arith)

run-add_example :
    ((run flat null_sink 2 guest).0 ≡ Stop.budget_exhausted
      → run flat null_sink (2 + 1) guest ≡ run flat null_sink 1 (run flat null_sink 2 guest).1)
    × ((trap : Trap)
        → (run flat null_sink 2 guest).0 ≡ Stop.trapped trap
        → run flat null_sink (2 + 1) guest ≡ run flat null_sink 2 guest)
run-add_example = run-add flat null_sink 2 1 guest
