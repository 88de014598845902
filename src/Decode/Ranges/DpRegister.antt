-- ===== src/Decode/Ranges/DpRegister.antt =====
-- The operands of the register data-processing group.
use coracle.Prelude.{ℕ, arith, if_intro}
use coracle.Decode.Operand.{from_sf}
use coracle.Decode.Instruction.{unallocated, new, with_width, setting_flags}
use coracle.Decode.Group.DpRegister.{
  add_sub_extended, add_sub_shifted, add_sub_with_carry, conditional_compare, conditional_select,
  data_processing_register, finish_arithmetic, logical_shifted, one_source, register_row_one,
  three_source, two_source, two_source_or_one_source,
}
use coracle.Decode.Group.Fields.{bits}
use coracle.Decode.Ranges.{IsDecoded, unallocated-IsDecoded, fields}

logical_shifted-IsDecoded : (encoding : ℕ) → IsDecoded encoding (logical_shifted encoding)
unfolding IsDecoded logical_shifted new with_width setting_flags unallocated from_sf
logical_shifted-IsDecoded encoding = ground (arith, fields encoding)

add_sub_shifted-IsDecoded : (encoding : ℕ) → IsDecoded encoding (add_sub_shifted encoding)
unfolding IsDecoded add_sub_shifted finish_arithmetic new with_width setting_flags unallocated
    from_sf
add_sub_shifted-IsDecoded encoding = ground (arith, fields encoding)

add_sub_extended-IsDecoded : (encoding : ℕ) → IsDecoded encoding (add_sub_extended encoding)
unfolding IsDecoded add_sub_extended finish_arithmetic new with_width setting_flags unallocated
    from_sf
add_sub_extended-IsDecoded encoding = ground (arith, fields encoding)

add_sub_with_carry-IsDecoded : (encoding : ℕ) → IsDecoded encoding (add_sub_with_carry encoding)
unfolding IsDecoded add_sub_with_carry new with_width setting_flags unallocated from_sf
add_sub_with_carry-IsDecoded encoding = ground (arith, fields encoding)

conditional_compare-IsDecoded : (encoding : ℕ) → IsDecoded encoding (conditional_compare encoding)
unfolding IsDecoded conditional_compare new with_width setting_flags unallocated from_sf
conditional_compare-IsDecoded encoding = ground (arith, fields encoding)

conditional_select-IsDecoded : (encoding : ℕ) → IsDecoded encoding (conditional_select encoding)
unfolding IsDecoded conditional_select new with_width setting_flags unallocated from_sf
conditional_select-IsDecoded encoding = ground (arith, fields encoding)

two_source-IsDecoded : (encoding : ℕ) → IsDecoded encoding (two_source encoding)
unfolding IsDecoded two_source new with_width setting_flags unallocated from_sf
two_source-IsDecoded encoding = ground (arith, fields encoding)

one_source-IsDecoded : (encoding : ℕ) → IsDecoded encoding (one_source encoding)
unfolding IsDecoded one_source new with_width setting_flags unallocated from_sf
one_source-IsDecoded encoding = ground (arith, fields encoding)

two_source_or_one_source-IsDecoded :
    (encoding : ℕ) → IsDecoded encoding (two_source_or_one_source encoding)
unfolding IsDecoded two_source_or_one_source new with_width setting_flags unallocated from_sf
two_source_or_one_source-IsDecoded encoding =
    ground (arith, fields encoding, two_source-IsDecoded encoding, one_source-IsDecoded encoding)

three_source-IsDecoded : (encoding : ℕ) → IsDecoded encoding (three_source encoding)
unfolding IsDecoded three_source new with_width setting_flags unallocated from_sf
three_source-IsDecoded encoding = ground (arith, fields encoding)

register_row_one-IsDecoded : (encoding op2 : ℕ) → IsDecoded encoding (register_row_one encoding op2)
unfolding register_row_one
register_row_one-IsDecoded encoding op2 =
    if_intro (IsDecoded encoding) _ (add_sub_with_carry-IsDecoded encoding) (
      if_intro (IsDecoded encoding) _ (conditional_compare-IsDecoded encoding) (
        if_intro (IsDecoded encoding) _ (conditional_select-IsDecoded encoding) (
          if_intro (IsDecoded encoding) _ (two_source_or_one_source-IsDecoded encoding) (
            if_intro (IsDecoded encoding) _ (three_source-IsDecoded encoding)
              (unallocated-IsDecoded encoding)))))

pub data_processing_register-IsDecoded :
    (encoding : ℕ) → IsDecoded encoding (data_processing_register encoding)
unfolding data_processing_register
data_processing_register-IsDecoded encoding =
    if_intro (IsDecoded encoding) _ (register_row_one-IsDecoded encoding (bits encoding 24 21)) (
      if_intro (IsDecoded encoding) _ (logical_shifted-IsDecoded encoding) (
        if_intro (IsDecoded encoding) _ (add_sub_extended-IsDecoded encoding)
          (add_sub_shifted-IsDecoded encoding)))
