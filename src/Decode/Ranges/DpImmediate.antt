-- ===== src/Decode/Ranges/DpImmediate.antt =====
-- The operands of the immediate data-processing group.
use coracle.Prelude.{ℕ, arith, if_intro}
use coracle.Decode.Operand.{from_sf}
use coracle.Decode.Instruction.{unallocated, new, with_width, setting_flags}
use coracle.Decode.Group.DpImmediate.{
  add_sub_immediate, bitfield, data_processing_immediate, extract, logical_immediate, move_wide,
  pc_relative,
}
use coracle.Decode.Ranges.{IsDecoded, unallocated-IsDecoded, fields}

pc_relative-IsDecoded : (encoding : ℕ) → IsDecoded encoding (pc_relative encoding)
unfolding IsDecoded pc_relative new with_width setting_flags unallocated from_sf
pc_relative-IsDecoded encoding = ground (arith, fields encoding)

add_sub_immediate-IsDecoded : (encoding : ℕ) → IsDecoded encoding (add_sub_immediate encoding)
unfolding IsDecoded add_sub_immediate new with_width setting_flags unallocated from_sf
add_sub_immediate-IsDecoded encoding = ground (arith, fields encoding)

logical_immediate-IsDecoded : (encoding : ℕ) → IsDecoded encoding (logical_immediate encoding)
unfolding IsDecoded logical_immediate new with_width setting_flags unallocated from_sf
logical_immediate-IsDecoded encoding = ground (arith, fields encoding)

move_wide-IsDecoded : (encoding : ℕ) → IsDecoded encoding (move_wide encoding)
unfolding IsDecoded move_wide new with_width setting_flags unallocated from_sf
move_wide-IsDecoded encoding = ground (arith, fields encoding)

bitfield-IsDecoded : (encoding : ℕ) → IsDecoded encoding (bitfield encoding)
unfolding IsDecoded bitfield new with_width setting_flags unallocated from_sf
bitfield-IsDecoded encoding = ground (arith, fields encoding)

extract-IsDecoded : (encoding : ℕ) → IsDecoded encoding (extract encoding)
unfolding IsDecoded extract new with_width setting_flags unallocated from_sf
extract-IsDecoded encoding = ground (arith, fields encoding)

pub data_processing_immediate-IsDecoded :
    (encoding : ℕ) → IsDecoded encoding (data_processing_immediate encoding)
unfolding data_processing_immediate
data_processing_immediate-IsDecoded encoding =
    if_intro (IsDecoded encoding) _ (pc_relative-IsDecoded encoding) (
      if_intro (IsDecoded encoding) _ (add_sub_immediate-IsDecoded encoding) (
        if_intro (IsDecoded encoding) _ (logical_immediate-IsDecoded encoding) (
          if_intro (IsDecoded encoding) _ (move_wide-IsDecoded encoding) (
            if_intro (IsDecoded encoding) _ (bitfield-IsDecoded encoding) (
              if_intro (IsDecoded encoding) _ (extract-IsDecoded encoding)
                (unallocated-IsDecoded encoding))))))
