-- ===== src/Decode/SimdFp/Scalar/Convert.antt =====
-- The conversions and transfers between the register files of
-- crates/core/src/decode/group/simd_fp/scalar.rs.
use coracle.Prelude.{
  ℕ, ◌-◌, Bool, true, false, not, ◌&&◌, ◌||◌, Option, ◌==◌, ltb, leb, bool_eq, if◌then◌else◌,
}
use coracle.Reg.{from_index_zr}
use coracle.Decode.Op.{Op}
use coracle.Decode.Operand.{RegWidth, ElemSize, RoundMode, VecShape, from_sf, is_w32}
use coracle.Decode.Instruction.{Form, Instruction, new, with_width, with_round, unallocated}
use coracle.Decode.Group.Fields.{bits, flag}
use coracle.Decode.SimdFp.Lanes.{scalar, rd, rn, float_size, is_d64}

pub record ConversionKind : Type 0 where
  pub op : Op
  pub round : RoundMode
  pub is_to_gpr : Bool

abbrev kind : Op → RoundMode → Bool → Option ConversionKind
kind op round is_to_gpr = Option.some (record { op = op; round = round; is_to_gpr = is_to_gpr })

abbrev signed_op : Bool → Op
signed_op is_signed = if is_signed then Op.fcvts else Op.fcvtu

abbrev toward_zero : Bool → Op
toward_zero is_signed = if is_signed then Op.fcvtzs else Op.fcvtzu

abbrev rmode_round : ℕ → RoundMode
rmode_round rmode =
    if rmode == 0 then RoundMode.nearest else if rmode == 1 then RoundMode.plus else RoundMode.minus

unfoldable pub conversion_kind : ℕ → ℕ → Option ConversionKind
conversion_kind rmode opcode =
    if rmode == 3 && leb opcode 1
    then kind (toward_zero (opcode == 0)) RoundMode.zero true
    else if leb opcode 1
    then kind (signed_op (opcode == 0)) (rmode_round rmode) true
    else if rmode == 0 && (opcode == 2 || opcode == 3)
    then kind (if opcode == 2 then Op.scvtf else Op.ucvtf) RoundMode.current false
    else if rmode == 0 && (opcode == 4 || opcode == 5)
    then kind (signed_op (opcode == 4)) RoundMode.nearest_away true
    else if leb rmode 1 && (opcode == 6 || opcode == 7)
    then kind (if opcode == 6 then Op.fmov_from_vec else Op.fmov_to_vec) RoundMode.current
        (opcode == 6)
    else Option.none

-- A conversion names its general-purpose register in `Rd` or in `Rn`, and its vector in the other.
abbrev conversion_form : ℕ → Bool → ElemSize → Form
conversion_form encoding is_to_gpr size =
    if is_to_gpr
    then Form.vec_gpr_move (from_index_zr (rd encoding)) (scalar (rn encoding) size)
    else Form.vec_gpr_move (from_index_zr (rn encoding)) (scalar (rd encoding) size)

-- The size of a transfer: the two widths of a plain one agree, a high half is a doubleword.
unfoldable move_size : Bool → RegWidth → Option ElemSize → Option ElemSize
move_size is_high_half width (Option.some size) =
    if is_high_half || bool_eq (is_d64 size) (not (is_w32 width))
    then Option.some size
    else Option.none
move_size is_high_half width Option.none =
    if is_high_half then Option.some ElemSize.d64 else Option.none

abbrev move_shape : Bool → ElemSize → VecShape
move_shape is_high_half size =
    if is_high_half then VecShape.element ElemSize.d64 1 else VecShape.scalar size

unfoldable pub move_between_files : ℕ → RegWidth → ConversionKind → Instruction
unfolding move_size
move_between_files encoding width k =
    let is_high_half = bits encoding 20 19 == 1 in
    let gpr_index = if k.is_to_gpr then rd encoding else rn encoding in
    let vec_index = if k.is_to_gpr then rn encoding else rd encoding in
    let found : Instruction =
      elim (move_size is_high_half width (float_size (bits encoding 23 22))) [
        | Option.none ↦ unallocated encoding
        | Option.some size ↦
            with_width
              (new encoding k.op (
                Form.vec_gpr_move (from_index_zr gpr_index) (record {
                  reg = record { index = vec_index };
                  shape = move_shape is_high_half size;
                })))
              width
      ] in
    if is_high_half && (is_w32 width || not (bits encoding 23 22 == 2))
    then unallocated encoding
    else found

abbrev is_transfer : Op → Bool
is_transfer Op.fmov_from_vec = true
is_transfer Op.fmov_to_vec = true
is_transfer _ = false

-- A conversion of a kind that the table allocates.
unfoldable pub conversion_of : ℕ → RegWidth → ConversionKind → Instruction
conversion_of encoding width k =
    let sized : Instruction = elim (float_size (bits encoding 23 22)) [
      | Option.none ↦ unallocated encoding
      | Option.some size ↦
          with_round
            (with_width (new encoding k.op (conversion_form encoding k.is_to_gpr size)) width)
            k.round
    ] in
    if is_transfer k.op then move_between_files encoding width k else sized

unfoldable pub integer_conversion : ℕ → Instruction
integer_conversion encoding =
    let width = from_sf (flag encoding 31) in
    elim (conversion_kind (bits encoding 20 19) (bits encoding 18 16)) [
      | Option.none ↦ unallocated encoding
      | Option.some k ↦ conversion_of encoding width k
    ]

abbrev fixed_insn : ℕ → RegWidth → ElemSize → Op → Bool → Instruction
fixed_insn encoding width size op is_to_gpr =
    with_round (with_width (new encoding op (conversion_form encoding is_to_gpr size)) width)
      RoundMode.zero

-- A fixed-point conversion of an allocated format.
unfoldable pub fixed_point_of : ℕ → ElemSize → Instruction
fixed_point_of encoding size =
    let width = from_sf (flag encoding 31) in
    let fractional_bits = 64 - bits encoding 15 10 in
    let rmode = bits encoding 20 19 in
    let opcode = bits encoding 18 16 in
    if is_w32 width && ltb 32 fractional_bits
    then unallocated encoding
    else if rmode == 3 && opcode == 0
    then fixed_insn encoding width size Op.fcvtzs true
    else if rmode == 3 && opcode == 1
    then fixed_insn encoding width size Op.fcvtzu true
    else if rmode == 0 && opcode == 2
    then fixed_insn encoding width size Op.scvtf false
    else if rmode == 0 && opcode == 3
    then fixed_insn encoding width size Op.ucvtf false
    else unallocated encoding

unfoldable pub fixed_point_conversion : ℕ → Instruction
fixed_point_conversion encoding = elim (float_size (bits encoding 23 22)) [
  | Option.none ↦ unallocated encoding
  | Option.some size ↦ fixed_point_of encoding size
]
