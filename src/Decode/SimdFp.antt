-- ===== src/Decode/SimdFp.antt =====
-- crates/core/src/decode/group/simd_fp/mod.rs: scalar floating point and advanced SIMD.
pub mod Lanes
pub mod Scalar
pub mod Neon
pub mod VecLoadsStores
use coracle.Prelude.{ℕ, if◌then◌else◌}
use coracle.Decode.Instruction.{Instruction}
use coracle.Decode.Group.Fields.{flag}
use Scalar
use Neon

unfoldable pub data_processing_simd_fp : ℕ → Instruction
data_processing_simd_fp encoding =
    if flag encoding 28 then Scalar.data_processing encoding else Neon.data_processing encoding
