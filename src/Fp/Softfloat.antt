-- ===== src/Fp/Softfloat.antt =====
-- crates/core/src/fp/softfloat: the bit-exact backend.
pub mod Nan
pub mod Compare
pub mod Decompose
pub mod Arithmetic
pub mod Fused
pub mod Convert
