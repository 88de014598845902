-- ===== src/Decode/Group.antt =====
-- crates/core/src/decode/group: one decoder for each row of the top-level encoding table.
pub mod Fields
pub mod BitMasks
pub mod DpImmediate
pub mod DpRegister
pub mod BranchSystem
pub mod LoadsStores
