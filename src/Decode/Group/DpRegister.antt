-- ===== src/Decode/Group/DpRegister.antt =====
-- crates/core/src/decode/group/dp_register.rs: data processing on registers.
use coracle.Prelude.{ℕ, Bool, not, ◌&&◌, ◌||◌, ◌==◌, ltb, leb, if◌then◌else◌}
use coracle.Prelude.Bits.{is_set}
use coracle.Reg.{Gpr, from_index_zr, from_index_sp}
use coracle.Decode.Op.{Op}
use coracle.Decode.Operand.{
  RegWidth, ShiftKind, ShiftedReg, ExtendedReg, from_sf, is_w32, from_option, cond_from_bits,
}
use coracle.Decode.Instruction.{Form, Instruction, new, with_width, setting_flags, unallocated}
use coracle.Decode.Group.Fields.{bits, flag}

abbrev rd_zr : ℕ → Gpr
rd_zr encoding = from_index_zr (bits encoding 4 0)

abbrev rn_zr : ℕ → Gpr
rn_zr encoding = from_index_zr (bits encoding 9 5)

abbrev rm_zr : ℕ → Gpr
rm_zr encoding = from_index_zr (bits encoding 20 16)

abbrev width_of : ℕ → RegWidth
width_of encoding = from_sf (flag encoding 31)

abbrev flagged_if : Bool → Instruction → Instruction
flagged_if sets_flags insn = if sets_flags then setting_flags insn else insn

-- `match field & 0b11`.
unfoldable pub shift_kind : ℕ → ShiftKind
shift_kind field =
    if field == 0
    then ShiftKind.lsl
    else if field == 1
    then ShiftKind.lsr
    else if field == 2
    then ShiftKind.asr
    else ShiftKind.ror

abbrev logical_op : ℕ → Bool → Op
logical_op opc is_negated =
    if opc == 0 || opc == 3
    then (if is_negated then Op.bic else Op.and)
    else if opc == 1
    then (if is_negated then Op.orn else Op.orr)
    else if opc == 2 && not is_negated
    then Op.eor
    else Op.eon

unfoldable pub logical_shifted : ℕ → Instruction
logical_shifted encoding =
    let width = width_of encoding in
    let amount = bits encoding 15 10 in
    let opc = bits encoding 30 29 in
    let op = logical_op opc (flag encoding 21) in
    let rm : ShiftedReg = record {
      reg = rm_zr encoding;
      kind = shift_kind (bits encoding 23 22);
      amount = amount;
    } in
    let form = Form.reg_shifted (rd_zr encoding) (rn_zr encoding) rm in
    if is_w32 width && is_set amount 5
    then unallocated encoding
    else flagged_if (opc == 3) (with_width (new encoding op form) width)

unfoldable pub finish_arithmetic : ℕ → Form → RegWidth → Instruction
finish_arithmetic encoding form width =
    let op = if flag encoding 30 then Op.sub else Op.add in
    flagged_if (flag encoding 29) (with_width (new encoding op form) width)

unfoldable pub add_sub_shifted : ℕ → Instruction
unfolding finish_arithmetic
add_sub_shifted encoding =
    let width = width_of encoding in
    let shift = bits encoding 23 22 in
    let amount = bits encoding 15 10 in
    let rm : ShiftedReg = record {
      reg = rm_zr encoding;
      kind = shift_kind shift;
      amount = amount;
    } in
    let form = Form.reg_shifted (rd_zr encoding) (rn_zr encoding) rm in
    if shift == 3 || (is_w32 width && is_set amount 5)
    then unallocated encoding
    else finish_arithmetic encoding form width

unfoldable pub add_sub_extended : ℕ → Instruction
unfolding finish_arithmetic
add_sub_extended encoding =
    let width = width_of encoding in
    let amount = bits encoding 12 10 in
    let rd =
      if flag encoding 29
      then from_index_zr (bits encoding 4 0)
      else from_index_sp (bits encoding 4 0) in
    let rm : ExtendedReg = record {
      reg = rm_zr encoding;
      kind = from_option (bits encoding 15 13);
      amount = amount;
    } in
    let form = Form.reg_extended rd (from_index_sp (bits encoding 9 5)) rm in
    if not (bits encoding 23 22 == 0) || ltb 4 amount
    then unallocated encoding
    else finish_arithmetic encoding form width

-- A register operand with `LSL #0`.
abbrev unshifted : Gpr → ShiftedReg
unshifted reg = record { reg = reg; kind = ShiftKind.lsl; amount = 0 }

unfoldable pub add_sub_with_carry : ℕ → Instruction
add_sub_with_carry encoding =
    let form = Form.reg_shifted (rd_zr encoding) (rn_zr encoding) (unshifted (rm_zr encoding)) in
    let op = if flag encoding 30 then Op.sbc else Op.adc in
    if not (bits encoding 15 10 == 0)
    then unallocated encoding
    else flagged_if (flag encoding 29) (with_width (new encoding op form) (width_of encoding))

unfoldable pub conditional_compare : ℕ → Instruction
conditional_compare encoding =
    let cond = cond_from_bits (bits encoding 15 12) in
    let rn = rn_zr encoding in
    let form =
      if flag encoding 11
      then Form.cond_compare rn (bits encoding 20 16) (bits encoding 3 0) cond
      else Form.cond_select Gpr.zr rn (rm_zr encoding) cond in
    let op = if flag encoding 30 then Op.ccmp else Op.ccmn in
    if not (flag encoding 29) || not (bits encoding 10 10 == 0) || not (bits encoding 4 4 == 0)
    then unallocated encoding
    else setting_flags (with_width (new encoding op form) (width_of encoding))

unfoldable pub conditional_select : ℕ → Instruction
conditional_select encoding =
    let is_inverted = flag encoding 30 in
    let op2 = bits encoding 11 10 in
    let op =
      if op2 == 0
      then (if is_inverted then Op.csinv else Op.csel)
      else (if is_inverted then Op.csneg else Op.csinc) in
    let form =
      Form.cond_select (rd_zr encoding) (rn_zr encoding) (rm_zr encoding)
        (cond_from_bits (bits encoding 15 12)) in
    if not (bits encoding 29 29 == 0)
    then unallocated encoding
    else if ltb 1 op2
    then unallocated encoding
    else with_width (new encoding op form) (width_of encoding)

abbrev two_source_insn : ℕ → Op → Instruction
two_source_insn encoding op =
    with_width
      (new encoding op
        (Form.reg_shifted (rd_zr encoding) (rn_zr encoding) (unshifted (rm_zr encoding))))
      (width_of encoding)

unfoldable pub two_source : ℕ → Instruction
two_source encoding =
    let opcode = bits encoding 15 10 in
    if opcode == 2
    then two_source_insn encoding Op.udiv
    else if opcode == 3
    then two_source_insn encoding Op.sdiv
    else if opcode == 8
    then two_source_insn encoding Op.lslv
    else if opcode == 9
    then two_source_insn encoding Op.lsrv
    else if opcode == 10
    then two_source_insn encoding Op.asrv
    else if opcode == 11
    then two_source_insn encoding Op.rorv
    else unallocated encoding

abbrev one_source_insn : ℕ → Op → Instruction
one_source_insn encoding op =
    with_width
      (new encoding op
        (Form.reg_shifted (rd_zr encoding) (rn_zr encoding) (unshifted (rn_zr encoding))))
      (width_of encoding)

unfoldable pub one_source : ℕ → Instruction
one_source encoding =
    let is_wide = not (is_w32 (width_of encoding)) in
    let opcode = bits encoding 15 10 in
    if not (bits encoding 20 16 == 0)
    then unallocated encoding
    else if opcode == 0
    then one_source_insn encoding Op.rbit
    else if opcode == 1
    then one_source_insn encoding Op.rev16
    else if opcode == 2 && is_wide
    then one_source_insn encoding Op.rev32
    else if opcode == 2
    then one_source_insn encoding Op.rev
    else if opcode == 3 && is_wide
    then one_source_insn encoding Op.rev
    else if opcode == 4
    then one_source_insn encoding Op.clz
    else if opcode == 5
    then one_source_insn encoding Op.cls
    else unallocated encoding

unfoldable pub two_source_or_one_source : ℕ → Instruction
two_source_or_one_source encoding =
    if not (bits encoding 29 29 == 0)
    then unallocated encoding
    else if flag encoding 30
    then one_source encoding
    else two_source encoding

abbrev three_source_insn : ℕ → Op → Instruction
three_source_insn encoding op =
    with_width
      (new encoding op (
        Form.three_source (rd_zr encoding) (rn_zr encoding) (rm_zr encoding)
          (from_index_zr (bits encoding 14 10))))
      (width_of encoding)

unfoldable pub three_source : ℕ → Instruction
three_source encoding =
    let is_wide = not (is_w32 (width_of encoding)) in
    let op31 = bits encoding 23 21 in
    let o0 = flag encoding 15 in
    if not (bits encoding 30 29 == 0)
    then unallocated encoding
    else if op31 == 0 && not o0
    then three_source_insn encoding Op.madd
    else if op31 == 0
    then three_source_insn encoding Op.msub
    else if is_wide && op31 == 1 && not o0
    then three_source_insn encoding Op.smaddl
    else if is_wide && op31 == 1
    then three_source_insn encoding Op.smsubl
    else if is_wide && op31 == 2 && not o0
    then three_source_insn encoding Op.smulh
    else if is_wide && op31 == 5 && not o0
    then three_source_insn encoding Op.umaddl
    else if is_wide && op31 == 5
    then three_source_insn encoding Op.umsubl
    else if is_wide && op31 == 6 && not o0
    then three_source_insn encoding Op.umulh
    else unallocated encoding

-- The rows with op1, bit 28, set.
unfoldable pub register_row_one : ℕ → ℕ → Instruction
register_row_one encoding op2 =
    if op2 == 0
    then add_sub_with_carry encoding
    else if op2 == 2
    then conditional_compare encoding
    else if op2 == 4
    then conditional_select encoding
    else if op2 == 6
    then two_source_or_one_source encoding
    else if leb 8 op2
    then three_source encoding
    else unallocated encoding

unfoldable pub data_processing_register : ℕ → Instruction
unfolding register_row_one
data_processing_register encoding =
    let op2 = bits encoding 24 21 in
    if flag encoding 28
    then register_row_one encoding op2
    else if leb op2 7
    then logical_shifted encoding
    else if is_set op2 0
    then add_sub_extended encoding
    else add_sub_shifted encoding
