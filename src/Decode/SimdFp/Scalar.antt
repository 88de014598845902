-- ===== src/Decode/SimdFp/Scalar.antt =====
-- crates/core/src/decode/group/simd_fp/scalar.rs: scalar floating point.
pub mod Convert
use coracle.Prelude.{
  ℕ, ◌+◌, ◌-◌, ◌*◌, ◌/◌, ◌%◌, ◌^◌, Bool, true, false, not, ◌&&◌, ◌||◌, Option, ◌==◌, if◌then◌else◌,
}
use coracle.Prelude.Bits.{is_set}
use coracle.Decode.Op.{Op}
use coracle.Decode.Operand.{ElemSize, VecOperand, RoundMode, cond_from_bits}
use coracle.Decode.Instruction.{Form, Instruction, new, with_round, unallocated}
use coracle.Decode.Group.Fields.{bits, flag}
use coracle.Decode.SimdFp.Lanes.{scalar, rd, rn, rm, ra, float_size, same_size}
use Convert.{integer_conversion, fixed_point_conversion}

unfoldable pub three_source : ℕ → ElemSize → Instruction
three_source encoding size =
    let o0 = flag encoding 15 in
    let op =
      if flag encoding 21
      then (if o0 then Op.fnmsub else Op.fnmadd)
      else (if o0 then Op.fmsub else Op.fmadd) in
    new encoding op (
      Form.vec_data (scalar (rd encoding) size) (scalar (rn encoding) size)
        (Option.some (scalar (rm encoding) size)) (Option.some (scalar (ra encoding) size)))

abbrev two_source_insn : ℕ → ElemSize → Op → Instruction
two_source_insn encoding size op = new encoding op (
    Form.vec_data (scalar (rd encoding) size) (scalar (rn encoding) size)
      (Option.some (scalar (rm encoding) size)) Option.none)

unfoldable pub two_source : ℕ → ElemSize → Instruction
two_source encoding size =
    let opcode = bits encoding 15 12 in
    if opcode == 0
    then two_source_insn encoding size Op.fmul
    else if opcode == 1
    then two_source_insn encoding size Op.fdiv
    else if opcode == 2
    then two_source_insn encoding size Op.fadd
    else if opcode == 3
    then two_source_insn encoding size Op.fsub
    else if opcode == 4
    then two_source_insn encoding size Op.fmax
    else if opcode == 5
    then two_source_insn encoding size Op.fmin
    else if opcode == 6
    then two_source_insn encoding size Op.fmaxnm
    else if opcode == 7
    then two_source_insn encoding size Op.fminnm
    else if opcode == 8
    then two_source_insn encoding size Op.fnmul
    else unallocated encoding

unfoldable pub conditional_select : ℕ → ElemSize → Instruction
conditional_select encoding size = new encoding Op.fcsel (
    Form.vec_cond (scalar (rd encoding) size) (scalar (rn encoding) size)
      (scalar (rm encoding) size) (cond_from_bits (bits encoding 15 12)))

unfoldable pub conditional_compare : ℕ → ElemSize → Instruction
conditional_compare encoding size = new encoding (if flag encoding 4 then Op.fccmpe else Op.fccmp) (
    Form.vec_cond_compare (scalar (rn encoding) size) (scalar (rm encoding) size) (rd encoding % 16)
      (cond_from_bits (bits encoding 15 12)))

pub compare : ℕ → ElemSize → Instruction
compare encoding size =
    let opcode2 = rd encoding in
    let is_zero_form = is_set opcode2 3 in
    let op = if is_set opcode2 4 then Op.fcmpe else Op.fcmp in
    let vm = if is_zero_form then Option.none else Option.some (scalar (rm encoding) size) in
    if not (opcode2 % 8 == 0)
    then unallocated encoding
    else if is_zero_form && not (rm encoding == 0)
    then unallocated encoding
    else new encoding op (Form.vec_compare (scalar (rn encoding) size) vm)

-- The widths of the exponent and mantissa fields.
abbrev exponent_width : ElemSize → ℕ
exponent_width ElemSize.h16 = 5
exponent_width ElemSize.d64 = 11
exponent_width _ = 8

abbrev mantissa_width : ElemSize → ℕ
mantissa_width ElemSize.h16 = 10
mantissa_width ElemSize.d64 = 52
mantissa_width _ = 23

-- The fields are disjoint, so `|` is a sum.
unfoldable pub expand_float_immediate : ℕ → ElemSize → ℕ
expand_float_immediate imm8 size =
    let sign = imm8 / 2 ^ 7 in
    let exponent_high = imm8 / 2 ^ 6 % 2 in
    let exponent_low = imm8 / 2 ^ 4 % 4 in
    let mantissa = imm8 % 16 in
    let e = exponent_width size in
    let m = mantissa_width size in
    let repeated = if exponent_high == 1 then 2 ^ (e - 3) - 1 else 0 in
    let exponent = (1 - exponent_high) * 2 ^ (e - 1) + repeated * 4 + exponent_low in
    sign * 2 ^ (e + m) + exponent * 2 ^ m + mantissa * 2 ^ (m - 4)

pub move_immediate : ℕ → ElemSize → Instruction
move_immediate encoding size =
    let vd = scalar (rd encoding) size in
    let form = Form.vec_imm vd vd (expand_float_immediate (bits encoding 20 13) size) in
    if not (bits encoding 9 5 == 0) then unallocated encoding else new encoding Op.fmov_imm form

abbrev one_source_insn : ℕ → ElemSize → Op → RoundMode → ElemSize → Instruction
one_source_insn encoding size op round target =
    with_round
      (new encoding op (
        Form.vec_data (scalar (rd encoding) target) (scalar (rn encoding) size) Option.none
          Option.none))
      round

-- `FCVT` to the size named in the low two bits of the opcode, which is not the source's own.
unfoldable pub convert_to : ℕ → ElemSize → Option ElemSize → Instruction
convert_to encoding size Option.none = unallocated encoding
convert_to encoding size (Option.some target) =
    if same_size target size
    then unallocated encoding
    else one_source_insn encoding size Op.fcvt RoundMode.current target

unfoldable pub one_source : ℕ → ElemSize → Instruction
one_source encoding size =
    let opcode = bits encoding 20 15 in
    if opcode == 0
    then one_source_insn encoding size Op.fmov RoundMode.current size
    else if opcode == 1
    then one_source_insn encoding size Op.fabs RoundMode.current size
    else if opcode == 2
    then one_source_insn encoding size Op.fneg RoundMode.current size
    else if opcode == 3
    then one_source_insn encoding size Op.fsqrt RoundMode.current size
    else if opcode == 4 || opcode == 5 || opcode == 7
    then convert_to encoding size (float_size (opcode % 4))
    else if opcode == 8
    then one_source_insn encoding size Op.frint RoundMode.nearest size
    else if opcode == 9
    then one_source_insn encoding size Op.frint RoundMode.plus size
    else if opcode == 10
    then one_source_insn encoding size Op.frint RoundMode.minus size
    else if opcode == 11
    then one_source_insn encoding size Op.frint RoundMode.zero size
    else if opcode == 12
    then one_source_insn encoding size Op.frint RoundMode.nearest_away size
    else if opcode == 14 || opcode == 15
    then one_source_insn encoding size Op.frint RoundMode.current size
    else unallocated encoding

unfoldable pub compare_or_one_source : ℕ → ElemSize → Instruction
unfolding compare move_immediate
compare_or_one_source encoding size =
    let field = bits encoding 14 10 in
    if field == 16
    then one_source encoding size
    else if field == 8
    then compare encoding size
    else if field == 4
    then move_immediate encoding size
    else unallocated encoding

-- The families that read a format from `ftype`.
unfoldable pub sized : ℕ → ElemSize → Instruction
unfolding three_source conditional_compare conditional_select
sized encoding size =
    let field = bits encoding 11 10 in
    if flag encoding 24
    then three_source encoding size
    else if field == 0
    then compare_or_one_source encoding size
    else if field == 1
    then conditional_compare encoding size
    else if field == 2
    then two_source encoding size
    else conditional_select encoding size

unfoldable pub data_processing : ℕ → Instruction
data_processing encoding =
    let is_three_source = flag encoding 24 in
    let is_fixed_point = not is_three_source && bits encoding 21 21 == 0 in
    let is_integer_conversion =
      not is_three_source && (flag encoding 21 && bits encoding 15 10 == 0) in
    let by_size : Instruction = elim (float_size (bits encoding 23 22)) [
      | Option.none ↦ unallocated encoding
      | Option.some size ↦ sized encoding size
    ] in
    if flag encoding 29 || flag encoding 30
    then unallocated encoding
    else if flag encoding 31 && not (is_fixed_point || is_integer_conversion)
    then unallocated encoding
    else if is_fixed_point
    then fixed_point_conversion encoding
    else if is_integer_conversion
    then integer_conversion encoding
    else by_size
