-- ===== src/Tests.antt =====
-- Runs of the model at concrete inputs, where the theorems' hypotheses hold.
mod Machine
mod Parts
mod Float
mod Shim
