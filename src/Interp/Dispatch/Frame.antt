-- ===== src/Interp/Dispatch/Frame.antt =====
-- What an instruction that traps leaves behind.
use coracle.Prelude.{ℕ, Bool, true, false, ◌≡◌, refl, ap, arith, ◌⊎◌, inl, inr, Result, ok, err}
use coracle.Reg.{Gpr}
use coracle.Decode.Address.{AddrMode, AccessSize}
use coracle.Decode.Instruction.{Instruction}
use coracle.Trap.{Trap}
use coracle.Interp.Memory.{AccessFault, Memory, write_uint}
use coracle.Interp.Cpu.{Cpu}
use coracle.Interp.Fetch.{effective_address}
use coracle.Interp.Dispatch.{
  arithmetic, logical, branch_immediate, branch_register, store, load, transfer, single_register,
  load_store, execute, is_str,
}

module _ {M S : Type 0} (mem : Memory M) where
  arithmetic-err :
      (cpu : Cpu M S) (insn : Instruction) (trap : Trap)
      → (arithmetic mem cpu insn).0 ≡ err trap
      → (arithmetic mem cpu insn).1 ≡ cpu
  unfolding arithmetic
  arithmetic-err cpu insn trap h = ground arith

  logical-err :
      (cpu : Cpu M S) (insn : Instruction) (trap : Trap)
      → (logical mem cpu insn).0 ≡ err trap
      → (logical mem cpu insn).1 ≡ cpu
  unfolding logical
  logical-err cpu insn trap h = ground arith

  branch_immediate-err :
      (cpu : Cpu M S) (insn : Instruction) (pc : ℕ) (trap : Trap)
      → (branch_immediate mem cpu insn pc).0 ≡ err trap
      → (branch_immediate mem cpu insn pc).1 ≡ cpu
  unfolding branch_immediate
  branch_immediate-err cpu insn pc trap h = ground arith

  branch_register-err :
      (cpu : Cpu M S) (insn : Instruction) (pc : ℕ) (trap : Trap)
      → (branch_register mem cpu insn pc).0 ≡ err trap
      → (branch_register mem cpu insn pc).1 ≡ cpu
  unfolding branch_register
  branch_register-err cpu insn pc trap h = ground arith

  store-err :
      (cpu : Cpu M S) (rt : Gpr) (address : ℕ) (insn : Instruction) (bytes : ℕ)
      (fault : AccessFault)
      → (store mem cpu rt address insn bytes).0 ≡ err fault
      → (store mem cpu rt address insn bytes).1 ≡ cpu
  unfolding store write_uint
  store-err cpu rt address insn bytes fault h =
      ap (λ m. record cpu { memory = m }) (mem.write_fault cpu.memory address _ fault h)

  load-err :
      (cpu : Cpu M S) (rt : Gpr) (address : ℕ) (insn : Instruction) (size : AccessSize)
      (fault : AccessFault)
      → (load mem cpu rt address insn size).0 ≡ err fault
      → (load mem cpu rt address insn size).1 ≡ cpu
  unfolding load
  load-err cpu rt address insn size fault h = ground arith

  transfer-err :
      (cpu : Cpu M S) (rt : Gpr) (address : ℕ) (is_write : Bool) (insn : Instruction)
      (size : AccessSize) (fault : AccessFault)
      → (transfer mem cpu rt address is_write insn size).0 ≡ err fault
      → (transfer mem cpu rt address is_write insn size).1 ≡ cpu
  unfolding transfer
  transfer-err cpu rt address true insn size fault = store-err cpu rt address insn size.bytes fault
  transfer-err cpu rt address false insn size fault = load-err cpu rt address insn size fault

  ok_or_err :
      (outcome : Result AccessFault (Unit {0}) × Cpu M S) (cpu : Cpu M S)
      → ((fault : AccessFault) → outcome.0 ≡ err fault → outcome.1 ≡ cpu)
      → (outcome.0 ≡ ok tt) ⊎ (outcome.1 ≡ cpu)
  ok_or_err (ok tt, after) cpu h = inl refl
  ok_or_err (err fault, after) cpu h = inr (h fault refl)

  transfer-ok :
      (cpu : Cpu M S) (rt : Gpr) (address : ℕ) (is_write : Bool) (insn : Instruction)
      (size : AccessSize)
      → ((transfer mem cpu rt address is_write insn size).0 ≡ ok tt)
        ⊎ ((transfer mem cpu rt address is_write insn size).1 ≡ cpu)
  transfer-ok cpu rt address is_write insn size =
      ok_or_err _ cpu (transfer-err cpu rt address is_write insn size)

  single_register-err :
      (cpu : Cpu M S) (insn : Instruction) (pc : ℕ) (rt : Gpr) (addr : AddrMode) (size : AccessSize)
      (trap : Trap)
      → (single_register mem cpu insn pc rt addr size).0 ≡ err trap
      → (single_register mem cpu insn pc rt addr size).1 ≡ cpu
  unfolding single_register
  single_register-err cpu insn pc rt addr size trap h =
      let address = (effective_address cpu.regs addr pc).address in
      ground (arith, transfer-ok cpu rt address (is_str insn.op) insn size)

  load_store-err :
      (cpu : Cpu M S) (insn : Instruction) (pc : ℕ) (trap : Trap)
      → (load_store mem cpu insn pc).0 ≡ err trap
      → (load_store mem cpu insn pc).1 ≡ cpu
  unfolding load_store
  load_store-err cpu insn pc trap h = grind (arith, single_register-err)

  -- An instruction that traps leaves the CPU as it was: a faulting access in particular writes neither
  -- its register nor its base back.
  pub execute-err :
      (cpu : Cpu M S) (insn : Instruction) (pc : ℕ) (trap : Trap)
      → (execute mem cpu insn pc).0 ≡ err trap
      → (execute mem cpu insn pc).1 ≡ cpu
  unfolding execute
  execute-err cpu insn pc trap h = ground (
    arith,
    arithmetic-err cpu insn trap,
    logical-err cpu insn trap,
    branch_immediate-err cpu insn pc trap,
    branch_register-err cpu insn pc trap,
    load_store-err cpu insn pc trap,
  )
