-- ===== src/RegFile/Access.antt =====
-- Reads after writes in the register file, and its well-formedness.
use coracle.Prelude.{
  ℕ, zero, suc, ◌^◌, ◌<◌, ◌≡◌, refl, ap, ◌∙◌, ◌≢◌, arith, List, [], ◌∷◌, get_or, set, replicate,
  length-set, get_or-set_self, get_or-set_ne,
}
use coracle.Reg.{Gpr, IsGpr}
use coracle.RegFile.{RegFile, IsRegFile, new, read_x, write_x, set_pc}

-- A read of the register just written gives the value, unless it is the zero register.
pub read_x-write_x_self :
    (r : RegFile) (g : Gpr) (value : ℕ)
    → IsRegFile r
    → IsGpr g
    → g ≢ Gpr.zr
    → read_x (write_x r g value) g ≡ value
unfolding read_x write_x
read_x-write_x_self r (Gpr.x n) value w h ne =
    get_or-set_self r.x n value 0 (omega (arith, w.x_len))
read_x-write_x_self r Gpr.sp value w h ne = refl
read_x-write_x_self r Gpr.zr value w h ne = absurd (ne refl)

-- A write through one operand leaves every other operand as it was.
pub read_x-write_x_ne :
    (r : RegFile) (g h : Gpr) (value : ℕ) → g ≢ h → read_x (write_x r g value) h ≡ read_x r h
unfolding read_x write_x
read_x-write_x_ne r (Gpr.x n) (Gpr.x m) value ne =
    get_or-set_ne r.x n m value 0 (λ e. ne (ap Gpr.x e))
read_x-write_x_ne r (Gpr.x n) Gpr.sp value ne = refl
read_x-write_x_ne r (Gpr.x n) Gpr.zr value ne = refl
read_x-write_x_ne r Gpr.sp (Gpr.x m) value ne = refl
read_x-write_x_ne r Gpr.sp Gpr.sp value ne = absurd (ne refl)
read_x-write_x_ne r Gpr.sp Gpr.zr value ne = refl
read_x-write_x_ne r Gpr.zr g value ne = refl

pub read_x-lt : (r : RegFile) (g : Gpr) → IsRegFile r → read_x r g < 2 ^ 64
unfolding read_x
read_x-lt r (Gpr.x n) w = w.x_word n
read_x-lt r Gpr.sp w = w.sp_word
read_x-lt r Gpr.zr w = omega arith

get_or-set-lt :
    (xs : List ℕ) (i j v b : ℕ)
    → ((k : ℕ) → get_or xs k 0 < b)
    → v < b
    → get_or (set xs i v) j 0 < b
get_or-set-lt [] i j v b h hv = h j
get_or-set-lt (a ∷ xs) zero zero v b h hv = hv
get_or-set-lt (a ∷ xs) zero (suc j) v b h hv = h (suc j)
get_or-set-lt (a ∷ xs) (suc i) zero v b h hv = h 0
get_or-set-lt (a ∷ xs) (suc i) (suc j) v b h hv = get_or-set-lt xs i j v b (λ k. h (suc k)) hv

-- A write of a 64-bit value keeps the file well formed.
pub write_x-IsRegFile :
    (r : RegFile) (g : Gpr) (value : ℕ)
    → IsRegFile r
    → value < 2 ^ 64
    → IsRegFile (write_x r g value)
unfolding write_x
write_x-IsRegFile r (Gpr.x n) value w h = record {
  x_len = length-set r.x n value ∙ w.x_len;
  v_len = w.v_len;
  x_word = λ i. get_or-set-lt r.x n i value (2 ^ 64) w.x_word h;
  sp_word = w.sp_word;
  pc_word = w.pc_word;
}
write_x-IsRegFile r Gpr.sp value w h = record {
  x_len = w.x_len;
  v_len = w.v_len;
  x_word = w.x_word;
  sp_word = h;
  pc_word = w.pc_word;
}
write_x-IsRegFile r Gpr.zr value w h = w

pub set_pc-IsRegFile :
    (r : RegFile) (value : ℕ) → IsRegFile r → value < 2 ^ 64 → IsRegFile (set_pc r value)
unfolding set_pc
set_pc-IsRegFile r value w h = record {
  x_len = w.x_len;
  v_len = w.v_len;
  x_word = w.x_word;
  sp_word = w.sp_word;
  pc_word = h;
}

zeroes : (n i : ℕ) → get_or {A = ℕ} (replicate n 0) i 0 ≡ 0
zeroes zero i = refl
zeroes (suc n) zero = refl
zeroes (suc n) (suc i) = zeroes n i

pub new-IsRegFile : IsRegFile new
unfolding new
new-IsRegFile = record {
  x_len = refl;
  v_len = refl;
  x_word = λ i. omega (arith, zeroes 31 i);
  sp_word = omega arith;
  pc_word = omega arith;
}
