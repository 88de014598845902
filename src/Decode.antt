-- ===== src/Decode.antt =====
-- crates/core/src/decode/mod.rs: the top-level switch of the A64 decoder.
pub mod Op
pub mod Operand
pub mod Address
pub mod Instruction
pub mod Group
pub mod SimdFp
pub mod Ranges
pub mod Assembled
use coracle.Prelude.{ℕ, ◌||◌, ◌==◌, leb, if◌then◌else◌}
use coracle.Decode.Group.Fields.{bits, flag}
use coracle.Decode.Group.DpImmediate
use coracle.Decode.Group.DpRegister
use coracle.Decode.Group.BranchSystem
use coracle.Decode.Group.LoadsStores
use coracle.Decode.SimdFp
use coracle.Decode.SimdFp.VecLoadsStores

abbrev pub insn_bytes : ℕ
insn_bytes = 4

pub data EncodingGroup : Type 0 where
  reserved sve data_processing_immediate branches_exceptions_system loads_and_stores : EncodingGroup
  data_processing_register data_processing_simd_fp unallocated : EncodingGroup

-- `EncodingGroup::of`.
unfoldable pub group_of : ℕ → EncodingGroup
group_of encoding =
    let op0 = bits encoding 28 25 in
    if op0 == 0
    then EncodingGroup.reserved
    else if op0 == 1 || op0 == 3
    then EncodingGroup.unallocated
    else if op0 == 2
    then EncodingGroup.sve
    else if op0 == 8 || op0 == 9
    then EncodingGroup.data_processing_immediate
    else if op0 == 10 || op0 == 11
    then EncodingGroup.branches_exceptions_system
    else if op0 == 4 || op0 == 6 || op0 == 12 || op0 == 14
    then EncodingGroup.loads_and_stores
    else if op0 == 5 || op0 == 13
    then EncodingGroup.data_processing_register
    else EncodingGroup.data_processing_simd_fp

unfoldable pub decode_in : EncodingGroup → ℕ → Instruction.Instruction
decode_in EncodingGroup.data_processing_immediate encoding =
    DpImmediate.data_processing_immediate encoding
decode_in EncodingGroup.branches_exceptions_system encoding =
    BranchSystem.branches_exceptions_system encoding
decode_in EncodingGroup.loads_and_stores encoding =
    if flag encoding 26
    then VecLoadsStores.loads_and_stores_vec encoding
    else LoadsStores.loads_and_stores encoding
decode_in EncodingGroup.data_processing_register encoding =
    DpRegister.data_processing_register encoding
decode_in EncodingGroup.data_processing_simd_fp encoding = SimdFp.data_processing_simd_fp encoding
decode_in EncodingGroup.sve encoding = Instruction.unallocated encoding
decode_in EncodingGroup.reserved encoding = Instruction.unallocated encoding
decode_in EncodingGroup.unallocated encoding = Instruction.unallocated encoding

unfoldable pub decode : ℕ → Instruction.Instruction
decode encoding = decode_in (group_of encoding) encoding
