-- ===== src/Fp.antt =====
-- crates/core/src/fp: floating point.
pub mod Operand
pub mod Control
pub mod Softfloat
pub mod Backend
pub mod Reference
pub mod Native
pub mod Engine
