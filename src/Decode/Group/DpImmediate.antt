-- ===== src/Decode/Group/DpImmediate.antt =====
-- crates/core/src/decode/group/dp_immediate.rs: data processing with an immediate operand.
use coracle.Prelude.{ℕ, ◌+◌, ◌*◌, ◌^◌, Bool, not, ◌&&◌, ◌||◌, none, some, ◌==◌, leb, if◌then◌else◌}
use coracle.Prelude.Bits.{is_set}
use coracle.Reg.{Gpr, from_index_zr, from_index_sp}
use coracle.Decode.Op.{Op}
use coracle.Decode.Operand.{RegWidth, from_sf, is_w32}
use coracle.Decode.Instruction.{Form, Instruction, new, with_width, setting_flags, unallocated}
use coracle.Decode.Group.Fields.{bits, flag, sign_extend, scaled}
use coracle.Decode.Group.BitMasks.{decode_bit_masks}

unfoldable pub pc_relative : ℕ → Instruction
pc_relative encoding =
    let imm = bits encoding 23 5 * 2 ^ 2 + bits encoding 30 29 in
    let is_page = flag encoding 31 in
    let offset = scaled (sign_extend imm 21) (if is_page then 4096 else 1) in
    let form = Form.pc_rel_addr (from_index_zr (bits encoding 4 0)) offset in
    new encoding (if is_page then Op.adrp else Op.adr) form

-- Slot 31 of the destination is the zero register where the instruction sets flags.
abbrev pub flagged_rd : Bool → ℕ → Gpr
flagged_rd sets_flags encoding =
    if sets_flags then from_index_zr (bits encoding 4 0) else from_index_sp (bits encoding 4 0)

abbrev pub flagged : Bool → Instruction → Instruction
flagged sets_flags insn = if sets_flags then setting_flags insn else insn

unfoldable pub add_sub_immediate : ℕ → Instruction
add_sub_immediate encoding =
    let shift = bits encoding 23 22 in
    let imm12 = bits encoding 21 10 in
    let imm = if is_set shift 0 then imm12 * 2 ^ 12 else imm12 in
    let sets_flags = flag encoding 29 in
    let form =
      Form.reg_imm (flagged_rd sets_flags encoding) (from_index_sp (bits encoding 9 5)) imm in
    let op = if flag encoding 30 then Op.sub else Op.add in
    let insn = with_width (new encoding op form) (from_sf (flag encoding 31)) in
    if is_set shift 1 then unallocated encoding else flagged sets_flags insn

abbrev logical_immediate_op : ℕ → Op
logical_immediate_op opc =
    if opc == 0 || opc == 3 then Op.and else if opc == 1 then Op.orr else Op.eor

-- The instruction of a bitmask that names an element.
logical_immediate_insn : ℕ → RegWidth → ℕ → Instruction
logical_immediate_insn encoding width imm =
    let opc = bits encoding 30 29 in
    let sets_flags = opc == 3 in
    let form =
      Form.reg_imm (flagged_rd sets_flags encoding) (from_index_zr (bits encoding 9 5)) imm in
    flagged sets_flags (with_width (new encoding (logical_immediate_op opc) form) width)

unfoldable pub logical_immediate : ℕ → Instruction
unfolding logical_immediate_insn
logical_immediate encoding =
    let width = from_sf (flag encoding 31) in
    let n = bits encoding 22 22 in
    let imm = decode_bit_masks n (bits encoding 21 16) (bits encoding 15 10) width in
    if is_w32 width && n == 1 then unallocated encoding else elim imm [
      | none ↦ unallocated encoding
      | some value ↦ logical_immediate_insn encoding width value
    ]

unfoldable pub move_wide : ℕ → Instruction
move_wide encoding =
    let width = from_sf (flag encoding 31) in
    let hw = bits encoding 22 21 in
    let opc = bits encoding 30 29 in
    let form = Form.move_wide (from_index_zr (bits encoding 4 0)) (bits encoding 20 5) hw in
    let op = if opc == 0 then Op.movn else if opc == 2 then Op.movz else Op.movk in
    if is_w32 width && is_set hw 1
    then unallocated encoding
    else if opc == 1
    then unallocated encoding
    else with_width (new encoding op form) width

unfoldable pub bitfield : ℕ → Instruction
bitfield encoding =
    let width = from_sf (flag encoding 31) in
    let immr = bits encoding 21 16 in
    let imms = bits encoding 15 10 in
    let opc = bits encoding 30 29 in
    let op = if opc == 0 then Op.sbfm else if opc == 1 then Op.bfm else Op.ubfm in
    let rn = from_index_zr (bits encoding 9 5) in
    let form = Form.bitfield (from_index_zr (bits encoding 4 0)) rn rn immr imms in
    if not (bits encoding 22 22 == bits encoding 31 31)
    then unallocated encoding
    else if is_w32 width && (is_set immr 5 || is_set imms 5)
    then unallocated encoding
    else if opc == 3
    then unallocated encoding
    else with_width (new encoding op form) width

unfoldable pub extract : ℕ → Instruction
extract encoding =
    let width = from_sf (flag encoding 31) in
    let imms = bits encoding 15 10 in
    let form =
      Form.bitfield (from_index_zr (bits encoding 4 0)) (from_index_zr (bits encoding 9 5))
        (from_index_zr (bits encoding 20 16)) 0 imms in
    if not (bits encoding 30 29 == 0)
      || not (bits encoding 21 21 == 0)
      || not (bits encoding 22 22 == bits encoding 31 31)
    then unallocated encoding
    else if is_w32 width && is_set imms 5
    then unallocated encoding
    else with_width (new encoding Op.extr form) width

unfoldable pub data_processing_immediate : ℕ → Instruction
data_processing_immediate encoding =
    let op = bits encoding 25 23 in
    if leb op 1
    then pc_relative encoding
    else if op == 2
    then add_sub_immediate encoding
    else if op == 4
    then logical_immediate encoding
    else if op == 5
    then move_wide encoding
    else if op == 6
    then bitfield encoding
    else if op == 7
    then extract encoding
    else unallocated encoding
