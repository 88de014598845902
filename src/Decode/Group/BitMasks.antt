-- ===== src/Decode/Group/BitMasks.antt =====
-- `decode_bit_masks` of crates/core/src/decode/group/dp_immediate.rs: the immediates of the logical
-- instructions.
pub mod Fuel
use coracle.Prelude.{
  ℕ, zero, suc, ◌+◌, ◌-◌, ◌*◌, ◌%◌, ◌^◌, ◌&&◌, Option, none, some, ◌==◌, ltb, if◌then◌else◌, bit_or,
  shl64, shr64,
}
use coracle.Decode.Operand.{RegWidth, width_bits, mask, is_w32}

-- `31 - combined.leading_zeros()`: the highest set bit of a value below 2 ^ 7 that is not 0.
unfoldable highest_bit : ℕ → ℕ
highest_bit combined =
    if ltb combined 2
    then 0
    else if ltb combined 4
    then 1
    else if ltb combined 8
    then 2
    else if ltb combined 16
    then 3
    else if ltb combined 32
    then 4
    else if ltb combined 64
    then 5
    else 6

-- The `while filled < width.bits()` loop. `filled` starts at one at least and doubles, so it passes 64
-- within the seven rounds of fuel that `decode_bit_masks` gives.
pub replicate_element : ℕ → RegWidth → ℕ → ℕ → ℕ
replicate_element zero width filled value = value
replicate_element (suc fuel) width filled value =
    let rest = replicate_element fuel width (filled * 2) (bit_or value (shl64 value filled)) in
    if ltb filled (width_bits width) then rest else value

-- `s + 1` low ones rotated right by `r` within `esize` bits.
unfoldable rotated_ones : ℕ → ℕ → ℕ → ℕ
rotated_ones esize s r =
    let ones = 2 ^ (s + 1) - 1 in
    if r == 0 then ones else bit_or (shr64 ones r) (shl64 ones (esize - r)) % 2 ^ esize

pub decode_bit_masks : ℕ → ℕ → ℕ → RegWidth → Option ℕ
unfolding highest_bit replicate_element rotated_ones
decode_bit_masks n immr imms width =
    let combined = n * 2 ^ 6 + (63 - imms) in
    let len = highest_bit combined in
    let esize = 2 ^ len in
    let s = imms % esize in
    let r = immr % esize in
    if combined == 0
    then none
    else if is_w32 width && len == 6
    then none
    else if s == esize - 1
    then none
    else some (mask width (replicate_element 7 width esize (rotated_ones esize s r)))
