-- ===== src/Interp.antt =====
-- crates/core/src/interp: the interpreter.
pub mod Flags
pub mod Fetch
pub mod Memory
pub mod Cache
pub mod Cpu
pub mod Dispatch
pub mod Step
pub mod Reference
