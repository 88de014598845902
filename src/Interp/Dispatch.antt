-- ===== src/Interp/Dispatch.antt =====
-- crates/core/src/interp/dispatch.rs: the execution of one decoded instruction. Each arm gives its
-- result and the CPU after it.
pub mod Frame
pub mod Extent
pub mod Lift
use coracle.Prelude.{
  ℕ, ◌+◌, ◌-◌, ◌*◌, ◌%◌, ◌^◌, Bool, true, false, Option, Result, ok, err, map_err, bit_and, bit_or,
  bit_xor, not64, wrapping_add, leb, if◌then◌else◌,
}
use coracle.Reg.{Gpr}
use coracle.RegFile.{RegFile, read_x, write_x, write_w, set_pc}
use coracle.Decode.{insn_bytes}
use coracle.Decode.Op.{Op}
use coracle.Decode.Operand.{RegWidth}
use coracle.Decode.Address.{AddrMode, AccessSize}
use coracle.Decode.Instruction.{Instruction, Form}
use coracle.Trap.{Trap, undefined}
use coracle.Interp.Flags.{add_with_carry, logical_flags}
use coracle.Interp.Fetch.{
  read_gpr, read_shifted, read_extended, effective_address, sign_extend_to_64,
}
use coracle.Interp.Memory.{AccessFault, Memory, read_uint, write_uint}
use coracle.Interp.Cpu.{Cpu, Flow}

abbrev pub is_sub : Op → Bool
is_sub Op.sub = true
is_sub _ = false

abbrev pub is_bl : Op → Bool
is_bl Op.bl = true
is_bl _ = false

abbrev pub is_blr : Op → Bool
is_blr Op.blr = true
is_blr _ = false

abbrev pub is_str : Op → Bool
is_str Op.str = true
is_str _ = false

-- The registers after a result of the given width: `value as u32` for a `W` form.
unfoldable write_result : RegFile → Gpr → ℕ → RegWidth → RegFile
write_result regs rd value RegWidth.w32 = write_w regs rd (value % 2 ^ 32)
write_result regs rd value RegWidth.x64 = write_x regs rd value

-- What the six bitwise opcodes compute; any other opcode is `eon`, as in the source's last arm.
unfoldable bitwise : Op → ℕ → ℕ → ℕ
bitwise Op.and left operand = bit_and left operand
bitwise Op.bic left operand = bit_and left (not64 operand)
bitwise Op.orr left operand = bit_or left operand
bitwise Op.orn left operand = bit_or left (not64 operand)
bitwise Op.eor left operand = bit_xor left operand
bitwise _ left operand = bit_xor left (not64 operand)

-- The end of `arithmetic`: the registers after the sum or the difference with `operand`.
unfoldable arithmetic_result : RegFile → Instruction → Gpr → Gpr → ℕ → RegFile
unfolding write_result add_with_carry
arithmetic_result regs insn rd rn operand =
    let left = read_gpr regs rn insn.width in
    let right = if is_sub insn.op then not64 operand else operand in
    let result = add_with_carry left right (is_sub insn.op) insn.width in
    let written = write_result regs rd result.value insn.width in
    if insn.sets_flags
    then record written { pstate = record written.pstate { nzcv = result.flags } }
    else written

-- The end of `logical`.
unfoldable logical_result : RegFile → Instruction → Gpr → Gpr → ℕ → RegFile
unfolding write_result bitwise
logical_result regs insn rd rn operand =
    let value = bitwise insn.op (read_gpr regs rn insn.width) operand in
    let written = write_result regs rd value insn.width in
    if insn.sets_flags
    then record written { pstate = record written.pstate { nzcv = logical_flags value insn.width } }
    else written

-- `BL` and `BLR` leave the return address in X30.
unfoldable link : Bool → ℕ → RegFile → RegFile
link is_link pc regs =
    if is_link then write_x regs (Gpr.x 30) (wrapping_add pc insn_bytes) else regs

abbrev pub data_abort : ℕ → ℕ → Bool → Trap
data_abort pc address is_write = Trap.data_abort pc address is_write

-- `sign_extend` of the source is `sign_extend_to_64`, line for line.
unfoldable loaded_value : ℕ → AccessSize → ℕ
loaded_value raw size = if size.is_signed then sign_extend_to_64 raw (size.bytes * 8) else raw

pub supervisor_call : Instruction → ℕ → Trap
supervisor_call insn pc = elim insn.form [
  | Form.imm imm ↦ Trap.supervisor_call pc (imm % 2 ^ 16)
  | _ ↦ undefined pc insn
]

pub breakpoint : Instruction → ℕ → Trap
breakpoint insn pc = elim insn.form [
  | Form.imm imm ↦ Trap.breakpoint pc (imm % 2 ^ 16)
  | _ ↦ undefined pc insn
]

unfoldable apply_writeback : Option (Gpr × ℕ) → RegFile → RegFile
apply_writeback Option.none regs = regs
apply_writeback (Option.some (base, value)) regs = write_x regs base value

module _ {M S : Type 0} (mem : Memory M) where
  pub arithmetic : Cpu M S → Instruction → Result Trap Flow × Cpu M S
  unfolding arithmetic_result read_shifted read_extended
  arithmetic cpu insn = elim insn.form [
    | Form.reg_imm rd rn imm ↦
        (ok Flow.next, record cpu { regs = arithmetic_result cpu.regs insn rd rn imm })
    | Form.reg_shifted rd rn rm ↦ (
      ok Flow.next,
      record cpu {
        regs = arithmetic_result cpu.regs insn rd rn (read_shifted cpu.regs rm insn.width);
      },
    )
    | Form.reg_extended rd rn rm ↦ (
      ok Flow.next,
      record cpu { regs = arithmetic_result cpu.regs insn rd rn (read_extended cpu.regs rm) },
    )
    | _ ↦ (err (undefined cpu.regs.pc insn), cpu)
  ]

  pub logical : Cpu M S → Instruction → Result Trap Flow × Cpu M S
  unfolding logical_result read_shifted
  logical cpu insn = elim insn.form [
    | Form.reg_imm rd rn imm ↦
        (ok Flow.next, record cpu { regs = logical_result cpu.regs insn rd rn imm })
    | Form.reg_shifted rd rn rm ↦ (
      ok Flow.next,
      record cpu {
        regs = logical_result cpu.regs insn rd rn (read_shifted cpu.regs rm insn.width);
      },
    )
    | _ ↦ (err (undefined cpu.regs.pc insn), cpu)
  ]

  unfoldable pub branch_immediate : Cpu M S → Instruction → ℕ → Result Trap Flow × Cpu M S
  unfolding link set_pc
  branch_immediate cpu insn pc = elim insn.form [
    | Form.branch offset ↦ (
      ok Flow.branched,
      record cpu { regs = set_pc (link (is_bl insn.op) pc cpu.regs) (wrapping_add pc offset) },
    )
    | _ ↦ (err (undefined pc insn), cpu)
  ]

  unfoldable pub branch_register : Cpu M S → Instruction → ℕ → Result Trap Flow × Cpu M S
  unfolding link set_pc read_x
  branch_register cpu insn pc = elim insn.form [
    | Form.branch_indirect rn ↦ (
      ok Flow.branched,
      record cpu { regs = set_pc (link (is_blr insn.op) pc cpu.regs) (read_x cpu.regs rn) },
    )
    | _ ↦ (err (undefined pc insn), cpu)
  ]

  pub store : Cpu M S → Gpr → ℕ → Instruction → ℕ → Result AccessFault (Unit {0}) × Cpu M S
  unfolding write_uint read_gpr
  store cpu rt address insn bytes =
      let written = write_uint mem cpu.memory address bytes (read_gpr cpu.regs rt insn.width) in
      (written.0, record cpu { memory = written.1 })

  pub load : Cpu M S → Gpr → ℕ → Instruction → AccessSize → Result AccessFault (Unit {0}) × Cpu M S
  unfolding read_uint write_result loaded_value
  load cpu rt address insn size = elim (read_uint mem cpu.memory address size.bytes) [
    | err fault ↦ (err fault, cpu)
    | ok raw ↦
        (ok tt, record cpu { regs = write_result cpu.regs rt (loaded_value raw size) insn.width })
  ]

  pub transfer :
      Cpu M S → Gpr → ℕ → Bool → Instruction → AccessSize → Result AccessFault (Unit {0}) × Cpu M S
  unfolding store load
  transfer cpu rt address is_write insn size =
      if is_write then store cpu rt address insn size.bytes else load cpu rt address insn size

  -- The body of `load_store`: write-back follows an access that succeeded.
  unfoldable pub single_register :
      Cpu M S → Instruction → ℕ → Gpr → AddrMode → AccessSize → Result Trap Flow × Cpu M S
  unfolding transfer apply_writeback effective_address
  single_register cpu insn pc rt addr size =
      let computed = effective_address cpu.regs addr pc in
      let is_write = is_str insn.op in
      let moved = transfer cpu rt computed.address is_write insn size in
      elim moved.0 [
        | err fault ↦ (err (data_abort pc computed.address is_write), moved.1)
        | ok done ↦ (
          ok Flow.next,
          record moved.1 { regs = apply_writeback computed.writeback moved.1.regs },
        )
      ]

  pub load_store : Cpu M S → Instruction → ℕ → Result Trap Flow × Cpu M S
  unfolding single_register
  load_store cpu insn pc = elim insn.form [
    | Form.load_store rt Option.none rs addr size ordering ↦
        single_register cpu insn pc rt addr size
    | _ ↦ (err (undefined pc insn), cpu)
  ]

  unfoldable pub execute : Cpu M S → Instruction → ℕ → Result Trap Flow × Cpu M S
  unfolding arithmetic logical branch_immediate branch_register load_store supervisor_call
      breakpoint
  execute cpu insn pc = elim insn.op [
    | Op.add ↦ arithmetic cpu insn
    | Op.sub ↦ arithmetic cpu insn
    | Op.and ↦ logical cpu insn
    | Op.orr ↦ logical cpu insn
    | Op.eor ↦ logical cpu insn
    | Op.bic ↦ logical cpu insn
    | Op.orn ↦ logical cpu insn
    | Op.eon ↦ logical cpu insn
    | Op.b ↦ branch_immediate cpu insn pc
    | Op.bl ↦ branch_immediate cpu insn pc
    | Op.br ↦ branch_register cpu insn pc
    | Op.blr ↦ branch_register cpu insn pc
    | Op.ret ↦ branch_register cpu insn pc
    | Op.nop ↦ (ok Flow.next, cpu)
    | Op.ldr ↦ load_store cpu insn pc
    | Op.str ↦ load_store cpu insn pc
    | Op.svc ↦ (err (supervisor_call insn pc), cpu)
    | Op.brk ↦ (err (breakpoint insn pc), cpu)
    | _ ↦ (err (undefined pc insn), cpu)
  ]
