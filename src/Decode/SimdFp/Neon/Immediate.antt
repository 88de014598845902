-- ===== src/Decode/SimdFp/Neon/Immediate.antt =====
-- The modified immediates of crates/core/src/decode/group/simd_fp/neon.rs.
use coracle.Prelude.{
  ℕ, zero, suc, ◌+◌, ◌-◌, ◌*◌, ◌/◌, ◌%◌, ◌^◌, Bool, not, ◌&&◌, ◌||◌, Option, ◌==◌, leb,
  if◌then◌else◌, bit_or,
}
use coracle.Prelude.Bits.{is_set}
use coracle.Decode.Op.{Op}
use coracle.Decode.Operand.{ElemSize}
use coracle.Decode.Instruction.{Form, Instruction, new, unallocated}
use coracle.Decode.Group.Fields.{bits, flag}
use coracle.Decode.SimdFp.Lanes.{rd, vector, is_quad}

-- The fields are disjoint, so `|` is a sum.
unfoldable expand_float32 : ℕ → ℕ
expand_float32 imm8 =
    let sign = imm8 / 2 ^ 7 in
    let exponent_high = imm8 / 2 ^ 6 % 2 in
    let exponent_low = imm8 / 2 ^ 4 % 4 in
    let mantissa = imm8 % 16 in
    let repeated = if exponent_high == 1 then 31 else 0 in
    sign * 2 ^ 31
    + (1 - exponent_high) * 2 ^ 30
    + repeated * 2 ^ 25
    + exponent_low * 2 ^ 23
    + mantissa * 2 ^ 19

-- The `for bit in 0..8` loop with `left` rounds to go: each bit of imm8 becomes a byte.
byte_mask : ℕ → ℕ → ℕ → ℕ
byte_mask imm8 zero expanded = expanded
byte_mask imm8 (suc left) expanded =
    let bit = 8 - suc left in
    byte_mask imm8 left
      (if is_set imm8 bit then bit_or expanded (255 * 2 ^ (8 * bit)) else expanded)

unfoldable pub expand_wide_immediate : ℕ → ℕ → Bool → Option (ℕ × ElemSize)
unfolding byte_mask expand_float32
expand_wide_immediate imm8 cmode is_inverted =
    let c = cmode % 16 in
    if c == 14 && not is_inverted
    then Option.some (imm8, ElemSize.b8)
    else if c == 14
    then Option.some (byte_mask imm8 8 0, ElemSize.d64)
    else if c == 15 && not is_inverted
    then Option.some (expand_float32 imm8, ElemSize.s32)
    else Option.none

unfoldable pub expand_advsimd_immediate : ℕ → ℕ → Bool → Option (ℕ × ElemSize)
expand_advsimd_immediate imm8 cmode is_inverted =
    let half = cmode / 2 in
    let ones_shift = 8 * (half % 2 + 1) in
    if leb half 3
    then Option.some (imm8 * 2 ^ (8 * half), ElemSize.s32)
    else if half == 4
    then Option.some (imm8 * 2 ^ (8 * (half % 2)), ElemSize.h16)
    else if half == 5
    then Option.some (imm8 * 2 ^ (8 * (half % 2)), ElemSize.h16)
    else if half == 6
    then Option.some (bit_or (imm8 * 2 ^ ones_shift) (2 ^ ones_shift - 1), ElemSize.s32)
    else expand_wide_immediate imm8 cmode is_inverted

unfoldable pub move_immediate : ℕ → Instruction
move_immediate encoding =
    let cmode = bits encoding 15 12 in
    let is_inverted = flag encoding 29 in
    let imm8 = bits encoding 18 16 * 2 ^ 5 + bits encoding 9 5 in
    let op = if is_inverted && not (cmode == 14) then Op.mvni else Op.movi in
    elim (expand_advsimd_immediate imm8 cmode is_inverted) [
      | Option.none ↦ unallocated encoding
      | Option.some (imm, elem) ↦ new encoding op (
          Form.vec_imm (vector (rd encoding) elem (is_quad encoding))
            (vector (rd encoding) elem (is_quad encoding)) imm)
    ]

unfoldable pub element_from_immh : ℕ → Option ElemSize
element_from_immh immh =
    if immh == 1
    then Option.some ElemSize.b8
    else if immh == 2 || immh == 3
    then Option.some ElemSize.h16
    else if leb 4 immh && leb immh 7
    then Option.some ElemSize.s32
    else if leb 8 immh && leb immh 15
    then Option.some ElemSize.d64
    else Option.none
