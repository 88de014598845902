-- ===== src/Shim.antt =====
-- crates/core/src/shim: the Linux system calls that the shim serves for one guest process.
pub mod MemoryMap
pub mod Host
pub mod Number
pub mod State
pub mod Structs
pub mod Dispatch
pub mod Service
