-- ===== src/Reg.antt =====
-- crates/core/src/reg.rs: register operands after slot 31 has been resolved. An index past the file
-- panics in the code; here it is kept as it is.
pub mod TraceRegId
use coracle.Prelude.{ℕ, ◌<◌, ◌≡◌, arith, Bool, true, false, ◌==◌, if◌then◌else◌}

pub data Gpr : Type 0 where
  x : ℕ → Gpr
  sp zr : Gpr

pub from_index_zr : ℕ → Gpr
from_index_zr index = if index == 31 then Gpr.zr else Gpr.x index

pub from_index_sp : ℕ → Gpr
from_index_sp index = if index == 31 then Gpr.sp else Gpr.x index

unfoldable is_zero : Gpr → Bool
is_zero Gpr.zr = true
is_zero (Gpr.x n) = false
is_zero Gpr.sp = false

-- A SIMD/FP register operand, v0 to v31.
pub record Vec : Type 0 where
  pub index : ℕ

abbrev pub vec_count : ℕ
vec_count = 32

abbrev pub num_gpr : ℕ
num_gpr = 31

-- An operand that names storage of the register file.
abbrev pub IsGpr : Gpr → Type 0
IsGpr (Gpr.x n) = n < num_gpr
IsGpr Gpr.sp = Unit {0}
IsGpr Gpr.zr = Unit {0}

pub from_index_zr-IsGpr : (i : ℕ) → i < 32 → IsGpr (from_index_zr i)
unfolding from_index_zr
from_index_zr-IsGpr i h = ground arith

pub from_index_sp-IsGpr : (i : ℕ) → i < 32 → IsGpr (from_index_sp i)
unfolding from_index_sp
from_index_sp-IsGpr i h = ground arith
