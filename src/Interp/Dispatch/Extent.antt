-- ===== src/Interp/Dispatch/Extent.antt =====
-- How far the memory of a CPU reaches while instructions execute, and where an SVC traps.
use coracle.Prelude.{ℕ, ◌≡◌, arith, Bool, true, false, Result, err}
use coracle.Reg.{Gpr}
use coracle.Decode.Address.{AddrMode, AccessSize}
use coracle.Decode.Instruction.{Instruction}
use coracle.Trap.{Trap}
use coracle.Interp.Memory.{Memory, write_uint}
use coracle.Interp.Memory.Extent.{Extent}
use coracle.Interp.Cpu.{Cpu}
use coracle.Interp.Fetch.{effective_address}
use coracle.Interp.Dispatch.{
  arithmetic, logical, branch_immediate, branch_register, store, load, transfer, single_register,
  load_store, execute, is_str,
}

module _ {M S : Type 0} (mem : Memory M) (ext : Extent mem) where
  arithmetic-top :
      (cpu : Cpu M S) (insn : Instruction)
      → ext.top (arithmetic mem cpu insn).1.memory ≡ ext.top cpu.memory
  unfolding arithmetic
  arithmetic-top cpu insn = ground arith

  logical-top :
      (cpu : Cpu M S) (insn : Instruction)
      → ext.top (logical mem cpu insn).1.memory ≡ ext.top cpu.memory
  unfolding logical
  logical-top cpu insn = ground arith

  branch_immediate-top :
      (cpu : Cpu M S) (insn : Instruction) (pc : ℕ)
      → ext.top (branch_immediate mem cpu insn pc).1.memory ≡ ext.top cpu.memory
  unfolding branch_immediate
  branch_immediate-top cpu insn pc = ground arith

  branch_register-top :
      (cpu : Cpu M S) (insn : Instruction) (pc : ℕ)
      → ext.top (branch_register mem cpu insn pc).1.memory ≡ ext.top cpu.memory
  unfolding branch_register
  branch_register-top cpu insn pc = ground arith

  load-top :
      (cpu : Cpu M S) (rt : Gpr) (address : ℕ) (insn : Instruction) (size : AccessSize)
      → ext.top (load mem cpu rt address insn size).1.memory ≡ ext.top cpu.memory
  unfolding load
  load-top cpu rt address insn size = ground arith

  transfer-top :
      (cpu : Cpu M S) (rt : Gpr) (address : ℕ) (is_write : Bool) (insn : Instruction)
      (size : AccessSize)
      → ext.top (transfer mem cpu rt address is_write insn size).1.memory ≡ ext.top cpu.memory
  unfolding transfer store write_uint
  transfer-top cpu rt address true insn size = ext.top_write cpu.memory address _
  transfer-top cpu rt address false insn size = load-top cpu rt address insn size

  single_register-top :
      (cpu : Cpu M S) (insn : Instruction) (pc : ℕ) (rt : Gpr) (addr : AddrMode) (size : AccessSize)
      → ext.top (single_register mem cpu insn pc rt addr size).1.memory ≡ ext.top cpu.memory
  unfolding single_register
  single_register-top cpu insn pc rt addr size =
      let address = (effective_address cpu.regs addr pc).address in
      ground (arith, transfer-top cpu rt address (is_str insn.op) insn size)

  load_store-top :
      (cpu : Cpu M S) (insn : Instruction) (pc : ℕ)
      → ext.top (load_store mem cpu insn pc).1.memory ≡ ext.top cpu.memory
  unfolding load_store
  load_store-top cpu insn pc = grind (arith, single_register-top)

  pub execute-top :
      (cpu : Cpu M S) (insn : Instruction) (pc : ℕ)
      → ext.top (execute mem cpu insn pc).1.memory ≡ ext.top cpu.memory
  unfolding execute
  execute-top cpu insn pc = ground (
    arith,
    arithmetic-top cpu insn,
    logical-top cpu insn,
    branch_immediate-top cpu insn pc,
    branch_register-top cpu insn pc,
    load_store-top cpu insn pc,
  )

-- Where the SVC is that an outcome traps at, and `pc` for all else.
abbrev pub svc_at : {R : Type 0} → ℕ → Result Trap R → ℕ
svc_at pc (err (Trap.supervisor_call at imm)) = at
svc_at pc _ = pc

module _ {M S : Type 0} (mem : Memory M) where
  arithmetic-svc :
      (cpu : Cpu M S) (insn : Instruction) (pc : ℕ) → svc_at pc (arithmetic mem cpu insn).0 ≡ pc
  unfolding arithmetic
  arithmetic-svc cpu insn pc = ground arith

  logical-svc :
      (cpu : Cpu M S) (insn : Instruction) (pc : ℕ) → svc_at pc (logical mem cpu insn).0 ≡ pc
  unfolding logical
  logical-svc cpu insn pc = ground arith

  branch_immediate-svc :
      (cpu : Cpu M S) (insn : Instruction) (pc : ℕ)
      → svc_at pc (branch_immediate mem cpu insn pc).0 ≡ pc
  unfolding branch_immediate
  branch_immediate-svc cpu insn pc = ground arith

  branch_register-svc :
      (cpu : Cpu M S) (insn : Instruction) (pc : ℕ)
      → svc_at pc (branch_register mem cpu insn pc).0 ≡ pc
  unfolding branch_register
  branch_register-svc cpu insn pc = ground arith

  load_store-svc :
      (cpu : Cpu M S) (insn : Instruction) (pc : ℕ) → svc_at pc (load_store mem cpu insn pc).0 ≡ pc
  unfolding load_store single_register
  load_store-svc cpu insn pc = ground arith

  pub execute-svc :
      (cpu : Cpu M S) (insn : Instruction) (pc : ℕ) → svc_at pc (execute mem cpu insn pc).0 ≡ pc
  unfolding execute
  execute-svc cpu insn pc = ground (
    arith,
    arithmetic-svc cpu insn pc,
    logical-svc cpu insn pc,
    branch_immediate-svc cpu insn pc,
    branch_register-svc cpu insn pc,
    load_store-svc cpu insn pc,
  )
