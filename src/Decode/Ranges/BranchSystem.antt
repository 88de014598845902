-- ===== src/Decode/Ranges/BranchSystem.antt =====
-- The operands of the branch, exception and system group.
use coracle.Prelude.{ℕ, ◌^◌, ◌<◌, arith, if_intro}
use coracle.Decode.Operand.{from_sf}
use coracle.Decode.Instruction.{unallocated, new, with_width, setting_flags}
use coracle.Decode.Group.BranchSystem.{
  branch_immediate, branch_register, branches_exceptions_system, compare_and_branch,
  conditional_branch, exception, pack_sysreg, system, test_and_branch,
}
use coracle.Decode.Group.Fields.{bits}
use coracle.Decode.Ranges.{IsDecoded, unallocated-IsDecoded, fields}

branch_immediate-IsDecoded : (encoding : ℕ) → IsDecoded encoding (branch_immediate encoding)
unfolding IsDecoded branch_immediate new with_width setting_flags unallocated from_sf
branch_immediate-IsDecoded encoding = ground (arith, fields encoding)

conditional_branch-IsDecoded : (encoding : ℕ) → IsDecoded encoding (conditional_branch encoding)
unfolding IsDecoded conditional_branch new with_width setting_flags unallocated from_sf
conditional_branch-IsDecoded encoding = ground (arith, fields encoding)

compare_and_branch-IsDecoded : (encoding : ℕ) → IsDecoded encoding (compare_and_branch encoding)
unfolding IsDecoded compare_and_branch new with_width setting_flags unallocated from_sf
compare_and_branch-IsDecoded encoding = ground (arith, fields encoding)

test_and_branch-IsDecoded : (encoding : ℕ) → IsDecoded encoding (test_and_branch encoding)
unfolding IsDecoded test_and_branch new with_width setting_flags unallocated from_sf
test_and_branch-IsDecoded encoding = ground (arith, fields encoding)

branch_register-IsDecoded : (encoding : ℕ) → IsDecoded encoding (branch_register encoding)
unfolding IsDecoded branch_register new with_width setting_flags unallocated from_sf
branch_register-IsDecoded encoding = ground (arith, fields encoding)

exception-IsDecoded : (encoding : ℕ) → IsDecoded encoding (exception encoding)
unfolding IsDecoded exception new with_width setting_flags unallocated from_sf
exception-IsDecoded encoding = ground (arith, fields encoding)

-- A packed name of a system register has sixteen bits.
pack_sysreg-lt : (op0 op1 crn crm op2 : ℕ) → pack_sysreg op0 op1 crn crm op2 < 2 ^ 16
unfolding pack_sysreg
pack_sysreg-lt op0 op1 crn crm op2 = omega arith

system-IsDecoded : (encoding : ℕ) → IsDecoded encoding (system encoding)
unfolding IsDecoded system new with_width setting_flags unallocated from_sf
system-IsDecoded encoding =
    let named = λ (op0 : ℕ).
      pack_sysreg-lt op0 (bits encoding 18 16) (bits encoding 15 12) (bits encoding 11 8)
        (bits encoding 7 5) in
    ground (arith, fields encoding, named 0, named (bits encoding 20 19))

pub branches_exceptions_system-IsDecoded :
    (encoding : ℕ) → IsDecoded encoding (branches_exceptions_system encoding)
unfolding branches_exceptions_system
branches_exceptions_system-IsDecoded encoding =
    if_intro (IsDecoded encoding) _ (conditional_branch-IsDecoded encoding) (
      if_intro (IsDecoded encoding) _ (exception-IsDecoded encoding) (
        if_intro (IsDecoded encoding) _ (system-IsDecoded encoding) (
          if_intro (IsDecoded encoding) _ (branch_register-IsDecoded encoding) (
            if_intro (IsDecoded encoding) _ (branch_immediate-IsDecoded encoding) (
              if_intro (IsDecoded encoding) _ (compare_and_branch-IsDecoded encoding) (
                if_intro (IsDecoded encoding) _ (test_and_branch-IsDecoded encoding)
                  (unallocated-IsDecoded encoding)))))))
