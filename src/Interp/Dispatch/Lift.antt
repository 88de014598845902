-- ===== src/Interp/Dispatch/Lift.antt =====
-- Execution reads and writes the registers and the memory only: on any CPU it does what it does on a
-- bare one with the same registers and memory.
use coracle.Prelude.{ℕ, Bool, true, false, ◌≡◌, refl, arith}
use coracle.Reg.{Gpr}
use coracle.RegFile.{RegFile}
use coracle.Decode.Address.{AddrMode, AccessSize}
use coracle.Decode.Instruction.{Instruction}
use coracle.Interp.Fetch.{effective_address}
use coracle.Interp.Memory.{Memory}
use coracle.Interp.Cpu.{Cpu, with_sink}
use coracle.Interp.Dispatch.{
  arithmetic, logical, branch_immediate, branch_register, store, load, transfer, single_register,
  load_store, execute, is_str,
}

-- A CPU with nothing but registers and memory.
abbrev pub bare : {M : Type 0} → RegFile → M → Cpu M (Unit {0})
bare regs memory = record (with_sink memory tt) { regs = regs }

-- The registers and the memory of the second CPU, put into the first.
abbrev pub put : {M S : Type 0} → Cpu M S → Cpu M (Unit {0}) → Cpu M S
put cpu after = record cpu { regs = after.regs; memory = after.memory }

abbrev pub lift : {R M S : Type 0} → Cpu M S → R × Cpu M (Unit {0}) → R × Cpu M S
lift cpu outcome = (outcome.0, put cpu outcome.1)

module _ {M S : Type 0} (mem : Memory M) where
  arithmetic-lift :
      (cpu : Cpu M S) (insn : Instruction)
      → arithmetic mem cpu insn ≡ lift cpu (arithmetic mem (bare cpu.regs cpu.memory) insn)
  unfolding arithmetic
  arithmetic-lift cpu insn = ground arith

  logical-lift :
      (cpu : Cpu M S) (insn : Instruction)
      → logical mem cpu insn ≡ lift cpu (logical mem (bare cpu.regs cpu.memory) insn)
  unfolding logical
  logical-lift cpu insn = ground arith

  branch_immediate-lift :
      (cpu : Cpu M S) (insn : Instruction) (pc : ℕ)
      → branch_immediate mem cpu insn pc
        ≡ lift cpu (branch_immediate mem (bare cpu.regs cpu.memory) insn pc)
  unfolding branch_immediate
  branch_immediate-lift cpu insn pc = ground arith

  branch_register-lift :
      (cpu : Cpu M S) (insn : Instruction) (pc : ℕ)
      → branch_register mem cpu insn pc
        ≡ lift cpu (branch_register mem (bare cpu.regs cpu.memory) insn pc)
  unfolding branch_register
  branch_register-lift cpu insn pc = ground arith

  transfer-lift :
      (cpu : Cpu M S) (rt : Gpr) (address : ℕ) (is_write : Bool) (insn : Instruction)
      (size : AccessSize)
      → transfer mem cpu rt address is_write insn size
        ≡ lift cpu (transfer mem (bare cpu.regs cpu.memory) rt address is_write insn size)
  unfolding transfer store load
  transfer-lift cpu rt address true insn size = refl
  transfer-lift cpu rt address false insn size = ground arith

  single_register-lift :
      (cpu : Cpu M S) (insn : Instruction) (pc : ℕ) (rt : Gpr) (addr : AddrMode) (size : AccessSize)
      → single_register mem cpu insn pc rt addr size
        ≡ lift cpu (single_register mem (bare cpu.regs cpu.memory) insn pc rt addr size)
  unfolding single_register
  single_register-lift cpu insn pc rt addr size =
      let address = (effective_address cpu.regs addr pc).address in
      ground (arith, transfer-lift cpu rt address (is_str insn.op) insn size)

  load_store-lift :
      (cpu : Cpu M S) (insn : Instruction) (pc : ℕ)
      → load_store mem cpu insn pc ≡ lift cpu (load_store mem (bare cpu.regs cpu.memory) insn pc)
  unfolding load_store
  load_store-lift cpu insn pc = grind (arith, single_register-lift)

  pub execute-lift :
      (cpu : Cpu M S) (insn : Instruction) (pc : ℕ)
      → execute mem cpu insn pc ≡ lift cpu (execute mem (bare cpu.regs cpu.memory) insn pc)
  unfolding execute
  execute-lift cpu insn pc = ground (
    arith,
    arithmetic-lift cpu insn,
    logical-lift cpu insn,
    branch_immediate-lift cpu insn pc,
    branch_register-lift cpu insn pc,
    load_store-lift cpu insn pc,
  )
