-- ===== src/Decode/SimdFp/Neon/Copy.antt =====
-- The copy group of crates/core/src/decode/group/simd_fp/neon.rs.
use coracle.Prelude.{ℕ, ◌/◌, ◌^◌, Bool, true, false, Option, ◌==◌, if◌then◌else◌}
use coracle.Prelude.Bits.{is_set}
use coracle.Reg.{from_index_zr}
use coracle.Decode.Op.{Op}
use coracle.Decode.Operand.{ElemSize, from_sf}
use coracle.Decode.Instruction.{Form, Instruction, new, with_width, unallocated}
use coracle.Decode.Group.Fields.{bits, flag}
use coracle.Decode.SimdFp.Lanes.{rd, rn, vector, element, is_quad}

-- The element size and the lane that imm5 names.
unfoldable pub lane_from_imm5 : ℕ → Option (ElemSize × ℕ)
lane_from_imm5 imm5 =
    if is_set imm5 0
    then Option.some (ElemSize.b8, imm5 / 2 ^ 1)
    else if is_set imm5 1
    then Option.some (ElemSize.h16, imm5 / 2 ^ 2)
    else if is_set imm5 2
    then Option.some (ElemSize.s32, imm5 / 2 ^ 3)
    else if is_set imm5 3
    then Option.some (ElemSize.d64, imm5 / 2 ^ 4)
    else Option.none

unfoldable duplicate_from_gpr : ℕ → ElemSize → Instruction
duplicate_from_gpr encoding elem =
    new encoding Op.dup (
      Form.vec_gpr_move (from_index_zr (rn encoding))
        (vector (rd encoding) elem (is_quad encoding)))

unfoldable duplicate_from_element : ℕ → ElemSize → ℕ → Instruction
duplicate_from_element encoding elem lane = new encoding Op.dup (
    Form.vec_data (vector (rd encoding) elem (is_quad encoding)) (element (rn encoding) elem lane)
      Option.none Option.none)

unfoldable insert_from_gpr : ℕ → ElemSize → ℕ → Instruction
insert_from_gpr encoding elem lane =
    new encoding Op.ins_gpr
      (Form.vec_gpr_move (from_index_zr (rn encoding)) (element (rd encoding) elem lane))

unfoldable move_to_gpr : ℕ → ElemSize → ℕ → Bool → Instruction
move_to_gpr encoding elem lane is_signed =
    with_width
      (new encoding (if is_signed then Op.smov else Op.umov)
        (Form.vec_gpr_move (from_index_zr (rd encoding)) (element (rn encoding) elem lane)))
      (from_sf (is_quad encoding))

-- `elem as u32`, the position of the size among its enum.
abbrev discriminant : ElemSize → ℕ
discriminant ElemSize.b8 = 0
discriminant ElemSize.h16 = 1
discriminant ElemSize.s32 = 2
discriminant ElemSize.d64 = 3
discriminant ElemSize.q128 = 4

unfoldable insert_element : ℕ → Instruction
insert_element encoding = elim (lane_from_imm5 (bits encoding 20 16)) [
  | Option.none ↦ unallocated encoding
  | Option.some (elem, destination) ↦ new encoding Op.ins (
      Form.vec_data (element (rd encoding) elem destination)
        (element (rn encoding) elem (bits encoding 14 11 / 2 ^ discriminant elem)) Option.none
        Option.none)
]

-- The copies of a lane that imm5 names.
unfoldable copy_lane : ℕ → ElemSize → ℕ → Instruction
unfolding insert_element duplicate_from_element duplicate_from_gpr insert_from_gpr move_to_gpr
copy_lane encoding elem lane =
    let imm4 = bits encoding 14 11 in
    if flag encoding 29
    then insert_element encoding
    else if imm4 == 0
    then duplicate_from_element encoding elem lane
    else if imm4 == 1
    then duplicate_from_gpr encoding elem
    else if imm4 == 3
    then insert_from_gpr encoding elem lane
    else if imm4 == 5
    then move_to_gpr encoding elem lane true
    else if imm4 == 7
    then move_to_gpr encoding elem lane false
    else unallocated encoding

unfoldable pub copy : ℕ → Instruction
unfolding copy_lane
copy encoding = elim (lane_from_imm5 (bits encoding 20 16)) [
  | Option.none ↦ unallocated encoding
  | Option.some (elem, lane) ↦ copy_lane encoding elem lane
]
