-- ===== src/RegFile.antt =====
-- crates/core/src/regfile.rs: X0 to X30, SP, PC, V0 to V31, PSTATE, FPCR and FPSR.
pub mod Access
use coracle.Prelude.{ℕ, ◌%◌, ◌^◌, ◌<◌, ◌≡◌, List, false, length, get_or, set, replicate}
use coracle.Pstate.{Pstate, ExceptionLevel, StackPointerSelect}
use coracle.Reg.{Gpr, Vec, num_gpr, vec_count}

pub record RegFile : Type 0 where
  pub x : List ℕ
  pub sp : ℕ
  pub pc : ℕ
  pub v : List ℕ
  pub pstate : Pstate
  pub fpcr : ℕ
  pub fpsr : ℕ

abbrev zeroed_pstate : Pstate
zeroed_pstate = record {
  nzcv = record { n = false; z = false; c = false; v = false };
  daif = record { d = false; a = false; i = false; f = false };
  el = ExceptionLevel.el0;
  sp_sel = StackPointerSelect.el0;
}

unfoldable pub new : RegFile
new = record {
  x = replicate num_gpr 0;
  sp = 0;
  pc = 0;
  v = replicate vec_count 0;
  pstate = zeroed_pstate;
  fpcr = 0;
  fpsr = 0;
}

unfoldable pub read_x : RegFile → Gpr → ℕ
read_x r (Gpr.x index) = get_or r.x index 0
read_x r Gpr.sp = r.sp
read_x r Gpr.zr = 0

-- `as u32` keeps the low 32 bits.
unfoldable read_w : RegFile → Gpr → ℕ
unfolding read_x
read_w r g = read_x r g % 2 ^ 32

unfoldable pub write_x : RegFile → Gpr → ℕ → RegFile
write_x r (Gpr.x index) value = record r { x = set r.x index value }
write_x r Gpr.sp value = record r { sp = value }
write_x r Gpr.zr value = r

-- A `W` write clears the upper half: `value` is a u32.
unfoldable pub write_w : RegFile → Gpr → ℕ → RegFile
unfolding write_x
write_w r g value = write_x r g value

unfoldable pub read_v : RegFile → Vec → ℕ
read_v r reg = get_or r.v reg.index 0

unfoldable write_v : RegFile → Vec → ℕ → RegFile
write_v r reg value = record r { v = set r.v reg.index value }

unfoldable pub set_pc : RegFile → ℕ → RegFile
set_pc r value = record r { pc = value }

unfoldable set_sp : RegFile → ℕ → RegFile
set_sp r value = record r { sp = value }

-- `xn` by architectural index.
unfoldable pub x_at : RegFile → ℕ → ℕ
x_at r index = get_or r.x index 0

-- The shape of the arrays, and the range of the words in them.
pub record IsRegFile (r : RegFile) : Type 0 where
  pub x_len : length r.x ≡ num_gpr
  pub v_len : length r.v ≡ vec_count
  pub x_word : (i : ℕ) → get_or r.x i 0 < 2 ^ 64
  pub sp_word : r.sp < 2 ^ 64
  pub pc_word : r.pc < 2 ^ 64
