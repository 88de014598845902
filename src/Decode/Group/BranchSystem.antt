-- ===== src/Decode/Group/BranchSystem.antt =====
-- crates/core/src/decode/group/branch_system.rs: branches, exceptions and system instructions.
use coracle.Prelude.{ℕ, ◌+◌, ◌*◌, ◌%◌, ◌^◌, not, ◌&&◌, ◌||◌, ◌==◌, leb, if◌then◌else◌}
use coracle.Reg.{Gpr, from_index_zr}
use coracle.Decode.Op.{Op}
use coracle.Decode.Operand.{from_sf, cond_from_bits}
use coracle.Decode.Instruction.{Form, Instruction, new, with_width, unallocated}
use coracle.Decode.Group.Fields.{bits, flag, sign_extend, scaled}

unfoldable pub branch_immediate : ℕ → Instruction
branch_immediate encoding =
    let op = if flag encoding 31 then Op.bl else Op.b in
    let offset = scaled (sign_extend (bits encoding 25 0) 26) 4 in
    new encoding op (Form.branch offset)

unfoldable pub conditional_branch : ℕ → Instruction
conditional_branch encoding =
    let offset = scaled (sign_extend (bits encoding 23 5) 19) 4 in
    let cond = cond_from_bits (bits encoding 3 0) in
    if not (bits encoding 24 24 == 0) || not (bits encoding 4 4 == 0)
    then unallocated encoding
    else new encoding Op.b (Form.branch_cond offset cond)

unfoldable pub compare_and_branch : ℕ → Instruction
compare_and_branch encoding =
    let op = if flag encoding 24 then Op.cbnz else Op.cbz in
    let offset = scaled (sign_extend (bits encoding 23 5) 19) 4 in
    let form = Form.branch_reg (from_index_zr (bits encoding 4 0)) offset 0 in
    with_width (new encoding op form) (from_sf (flag encoding 31))

unfoldable pub test_and_branch : ℕ → Instruction
test_and_branch encoding =
    let op = if flag encoding 24 then Op.tbnz else Op.tbz in
    let bit = bits encoding 31 31 * 2 ^ 5 + bits encoding 23 19 in
    let offset = scaled (sign_extend (bits encoding 18 5) 14) 4 in
    let form = Form.branch_reg (from_index_zr (bits encoding 4 0)) offset bit in
    with_width (new encoding op form) (from_sf (flag encoding 31))

unfoldable pub branch_register : ℕ → Instruction
branch_register encoding =
    let opc = bits encoding 24 21 in
    let op3 = bits encoding 15 10 in
    let rn = bits encoding 9 5 in
    let rm = bits encoding 4 0 in
    let form = Form.branch_indirect (from_index_zr rn) in
    if not (bits encoding 20 16 == 31)
    then unallocated encoding
    else if not (op3 == 0)
    then unallocated encoding
    else if leb opc 2 && not (rm == 0)
    then unallocated encoding
    else if opc == 0
    then new encoding Op.br form
    else if opc == 1
    then new encoding Op.blr form
    else if opc == 2
    then new encoding Op.ret form
    else if opc == 4 && (rn == 31 && rm == 0)
    then new encoding Op.eret Form.none
    else unallocated encoding

unfoldable pub exception : ℕ → Instruction
exception encoding =
    let form = Form.imm (bits encoding 20 5) in
    let opc = bits encoding 23 21 in
    let ll = bits encoding 1 0 in
    if not (bits encoding 4 2 == 0)
    then unallocated encoding
    else if opc == 0 && ll == 1
    then new encoding Op.svc form
    else if opc == 0 && ll == 2
    then new encoding Op.hvc form
    else if opc == 0 && ll == 3
    then new encoding Op.smc form
    else if opc == 1 && ll == 0
    then new encoding Op.brk form
    else if opc == 2 && ll == 0
    then new encoding Op.hlt form
    else unallocated encoding

unfoldable hint : ℕ → ℕ → ℕ → Instruction
hint encoding crm op2 =
    let op =
      if not (crm == 0)
      then Op.nop
      else if op2 == 1
      then Op.yield
      else if op2 == 2
      then Op.wfe
      else if op2 == 3
      then Op.wfi
      else if op2 == 4 || op2 == 5
      then Op.sev
      else Op.nop in
    new encoding op Form.none

unfoldable barrier : ℕ → ℕ → ℕ → Instruction
barrier encoding crm op2 =
    let form = Form.imm crm in
    if op2 == 2
    then new encoding Op.clrex form
    else if op2 == 4
    then new encoding Op.dsb form
    else if op2 == 5
    then new encoding Op.dmb form
    else if op2 == 6
    then new encoding Op.isb form
    else unallocated encoding

-- The five fields are disjoint, so `|` is a sum.
unfoldable pub pack_sysreg : ℕ → ℕ → ℕ → ℕ → ℕ → ℕ
pack_sysreg op0 op1 crn crm op2 =
    op0 % 4 * 2 ^ 14 + op1 % 8 * 2 ^ 11 + crn % 16 * 2 ^ 7 + crm % 16 * 2 ^ 3 + op2 % 8

unfoldable pub system : ℕ → Instruction
unfolding hint barrier
system encoding =
    let l = bits encoding 21 21 in
    let op0 = bits encoding 20 19 in
    let op1 = bits encoding 18 16 in
    let crn = bits encoding 15 12 in
    let crm = bits encoding 11 8 in
    let op2 = bits encoding 7 5 in
    let rt = bits encoding 4 0 in
    if op0 == 0
    then (if not (l == 0 && rt == 31)
        then unallocated encoding
        else if op1 == 3 && crn == 2
        then hint encoding crm op2
        else if op1 == 3 && crn == 3
        then barrier encoding crm op2
        else if crn == 4
        then new encoding Op.msr (Form.system Gpr.zr (pack_sysreg 0 op1 crn crm op2))
        else unallocated encoding)
    else if op0 == 1
    then unallocated encoding
    else new encoding (if l == 1 then Op.mrs else Op.msr)
        (Form.system (from_index_zr rt) (pack_sysreg op0 op1 crn crm op2))

unfoldable pub branches_exceptions_system : ℕ → Instruction
branches_exceptions_system encoding =
    let op0 = bits encoding 31 29 in
    let op1 = bits encoding 25 22 in
    if op0 == 2 && leb op1 7
    then conditional_branch encoding
    else if op0 == 6 && leb op1 3
    then exception encoding
    else if op0 == 6 && op1 == 4
    then system encoding
    else if op0 == 6 && leb 8 op1
    then branch_register encoding
    else if op0 == 0 || op0 == 4
    then branch_immediate encoding
    else if (op0 == 1 || op0 == 5) && leb op1 7
    then compare_and_branch encoding
    else if op0 == 1 || op0 == 5
    then test_and_branch encoding
    else unallocated encoding
