-- ===== src/Decode/SimdFp/Neon.antt =====
-- crates/core/src/decode/group/simd_fp/neon.rs: the advanced SIMD subset.
pub mod Immediate
pub mod Copy
use coracle.Prelude.{
  ℕ, ◌+◌, ◌-◌, ◌*◌, Bool, true, false, not, ◌&&◌, ◌||◌, Option, ◌==◌, ltb, leb, if◌then◌else◌,
}
use coracle.Decode.Op.{Op}
use coracle.Decode.Operand.{ElemSize, VecShape, elem_bits, from_size}
use coracle.Decode.Instruction.{Form, Instruction, new, unallocated}
use coracle.Decode.Group.Fields.{bits, flag}
use coracle.Decode.SimdFp.Lanes.{rd, rn, rm, scalar, vector, is_quad, is_d64}
use Immediate.{move_immediate, element_from_immh}
use Copy.{copy}

-- Three vectors of one element size.
abbrev three_vectors : ℕ → Op → ElemSize → Instruction
three_vectors encoding op elem =
    let quad = is_quad encoding in
    new encoding op (
      Form.vec_data (vector (rd encoding) elem quad) (vector (rn encoding) elem quad)
        (Option.some (vector (rm encoding) elem quad)) Option.none)

abbrev logical_op : Bool → ℕ → Op
logical_op u size =
    if u
    then (if size == 0
        then Op.vec_eor
        else if size == 1
        then Op.vec_bsl
        else if size == 2
        then Op.vec_bit
        else Op.vec_bif)
    else if size == 0
    then Op.vec_and
    else if size == 1
    then Op.vec_bic
    else if size == 2
    then Op.vec_orr
    else Op.vec_orn

unfoldable pub three_same_logical : ℕ → Instruction
three_same_logical encoding =
    three_vectors encoding (logical_op (flag encoding 29) (bits encoding 23 22)) ElemSize.b8

abbrev signed_choice : Bool → Op → Op → Option Op
signed_choice is_unsigned signed unsigned = Option.some (if is_unsigned then unsigned else signed)

unfoldable three_same_op : ℕ → Bool → Option Op
three_same_op opcode is_unsigned =
    if opcode == 1
    then signed_choice is_unsigned Op.sshl Op.ushl
    else if opcode == 6
    then signed_choice is_unsigned Op.vec_cmgt Op.vec_cmhi
    else if opcode == 7
    then signed_choice is_unsigned Op.vec_cmge Op.vec_cmhs
    else if opcode == 16
    then signed_choice is_unsigned Op.vec_add Op.vec_sub
    else if opcode == 17 && is_unsigned
    then Option.some Op.vec_cmeq
    else if opcode == 19
    then signed_choice is_unsigned Op.vec_mul Op.vec_mul
    else if opcode == 18
    then signed_choice is_unsigned Op.vec_mla Op.vec_mls
    else if opcode == 23
    then Option.some Op.addp
    else Option.none

unfoldable pub three_same : ℕ → Instruction
unfolding three_same_op
three_same encoding =
    let elem = from_size (bits encoding 23 22) in
    elim (three_same_op (bits encoding 15 11) (flag encoding 29)) [
      | Option.none ↦ unallocated encoding
      | Option.some op ↦
          if is_d64 elem && not (is_quad encoding)
          then unallocated encoding
          else three_vectors encoding op elem
    ]

-- A reduction writes one element.
abbrev reduction : ℕ → Op → Instruction
reduction encoding op =
    let elem = from_size (bits encoding 23 22) in
    new encoding op (
      Form.vec_data (scalar (rd encoding) elem) (vector (rn encoding) elem (is_quad encoding))
        Option.none Option.none)

unfoldable pub across_lanes : ℕ → Instruction
across_lanes encoding =
    let opcode = bits encoding 16 12 in
    if opcode == 26 && flag encoding 29
    then reduction encoding Op.uminv
    else if opcode == 10 && flag encoding 29
    then reduction encoding Op.umaxv
    else if opcode == 27
    then reduction encoding Op.addv
    else unallocated encoding

unfoldable pub table_lookup : ℕ → Instruction
table_lookup encoding =
    let quad = is_quad encoding in
    new encoding (if flag encoding 12 then Op.tbx else Op.tbl) (
      Form.table_lookup (vector (rd encoding) ElemSize.b8 quad) (record { index = rn encoding })
        (bits encoding 14 13 + 1) (vector (rm encoding) ElemSize.b8 quad))

unfoldable pub extract : ℕ → Instruction
extract encoding =
    let quad = is_quad encoding in
    let index = bits encoding 14 11 in
    if not quad && leb 8 index
    then unallocated encoding
    else new encoding Op.ext (
        Form.vec_imm (vector (rd encoding) ElemSize.b8 quad) (vector (rn encoding) ElemSize.b8 quad)
          index)

abbrev two_vectors : ℕ → Op → ElemSize → Instruction
two_vectors encoding op elem =
    let quad = is_quad encoding in
    new encoding op (
      Form.vec_data (vector (rd encoding) elem quad) (vector (rn encoding) elem quad) Option.none
        Option.none)

unfoldable pub two_register : ℕ → Instruction
two_register encoding =
    let elem = from_size (bits encoding 23 22) in
    let opcode = bits encoding 16 12 in
    let u = flag encoding 29 in
    if opcode == 0 && not u
    then two_vectors encoding Op.vec_rev64 elem
    else if opcode == 1 && not u
    then two_vectors encoding Op.vec_rev16 elem
    else if opcode == 5 && not u
    then two_vectors encoding Op.vec_cnt ElemSize.b8
    else if opcode == 5
    then two_vectors encoding Op.vec_not ElemSize.b8
    else if opcode == 11 && not u
    then two_vectors encoding Op.vec_abs elem
    else if opcode == 11
    then two_vectors encoding Op.vec_neg elem
    else unallocated encoding

-- A shift of elements of one size. A left shift counts up from the element's width, a right shift
-- down from twice it.
unfoldable pub shift_of : ℕ → ElemSize → Instruction
shift_of encoding elem =
    let width = elem_bits elem in
    let encoded = bits encoding 22 19 * 8 + bits encoding 18 16 in
    let is_left = bits encoding 15 11 == 10 in
    let amount = if is_left then encoded - width else 2 * width - encoded in
    let op =
      if is_left then Op.vec_shl else if flag encoding 29 then Op.vec_ushr else Op.vec_sshr in
    let quad = is_quad encoding in
    if not is_left && not (bits encoding 15 11 == 0)
    then unallocated encoding
    else new encoding op
        (Form.vec_imm (vector (rd encoding) elem quad) (vector (rn encoding) elem quad) amount)

unfoldable pub shift_by_immediate : ℕ → Instruction
shift_by_immediate encoding = elim (element_from_immh (bits encoding 22 19)) [
  | Option.none ↦ unallocated encoding
  | Option.some elem ↦ shift_of encoding elem
]

abbrev permuted : ℕ → Op → Instruction
permuted encoding op =
    let elem = from_size (bits encoding 23 22) in
    if is_d64 elem && not (is_quad encoding)
    then unallocated encoding
    else three_vectors encoding op elem

unfoldable pub permute : ℕ → Instruction
permute encoding =
    let opcode = bits encoding 14 12 in
    if opcode == 1
    then permuted encoding Op.uzp1
    else if opcode == 2
    then permuted encoding Op.trn1
    else if opcode == 3
    then permuted encoding Op.zip1
    else if opcode == 5
    then permuted encoding Op.uzp2
    else if opcode == 6
    then permuted encoding Op.trn2
    else if opcode == 7
    then permuted encoding Op.zip2
    else unallocated encoding

unfoldable pub bit21_clear : ℕ → Instruction
bit21_clear encoding =
    let field = bits encoding 11 10 in
    if flag encoding 10
    then copy encoding
    else if field == 0
    then table_lookup encoding
    else if not (field == 2)
    then unallocated encoding
    else if flag encoding 29
    then (if not (bits encoding 23 22 == 0) then unallocated encoding else extract encoding)
    else permute encoding

unfoldable pub bit21_set : ℕ → Instruction
bit21_set encoding =
    let is_ten = bits encoding 11 10 == 2 in
    let family = bits encoding 20 17 in
    if is_ten && family == 8
    then across_lanes encoding
    else if is_ten && family == 0
    then two_register encoding
    else if bits encoding 15 10 == 7
    then three_same_logical encoding
    else if flag encoding 10
    then three_same encoding
    else unallocated encoding

unfoldable pub immediate_or_shift : ℕ → Instruction
immediate_or_shift encoding =
    if bits encoding 22 19 == 0 then move_immediate encoding else shift_by_immediate encoding

unfoldable pub data_processing : ℕ → Instruction
data_processing encoding =
    if flag encoding 31
    then unallocated encoding
    else if bits encoding 28 24 == 15
    then immediate_or_shift encoding
    else if not (bits encoding 28 24 == 14)
    then unallocated encoding
    else if bits encoding 21 21 == 0
    then bit21_clear encoding
    else bit21_set encoding
