-- ===== src/Reg/TraceRegId.antt =====
-- The `trace_reg_id` module of crates/core/src/reg.rs: the register ids of the trace stream. `gpr`
-- and `vec_lo` assert their argument to be in range, which their theorems here assume.
use coracle.Prelude.{ℕ, ◌+◌, ◌*◌}

abbrev pub x0 : ℕ
x0 = 0

abbrev pub sp_id : ℕ
sp_id = 31

abbrev pub pc_id : ℕ
pc_id = 32

abbrev pub pstate_id : ℕ
pstate_id = 33

abbrev pub fpcr_id : ℕ
fpcr_id = 34

abbrev pub fpsr_id : ℕ
fpsr_id = 35

abbrev pub v_base : ℕ
v_base = 64

abbrev pub sys_base : ℕ
sys_base = 256

unfoldable pub gpr : ℕ → ℕ
gpr n = x0 + n

pub vec_lo : ℕ → ℕ
vec_lo n = v_base + 2 * n

unfoldable pub vec_hi : ℕ → ℕ
unfolding vec_lo
vec_hi n = vec_lo n + 1
