-- ===== src/Interp/Flags.antt =====
-- crates/core/src/interp/flags.rs: producing and consuming NZCV.
pub mod Compare
use coracle.Prelude.{
  ℕ, ◌+◌, ◌-◌, ◌/◌, ◌^◌, Bool, true, false, not, ◌&&◌, bit_and, bit_xor, ◌==◌, bool_eq, to_bit,
}
use coracle.Pstate.Flags.{Nzcv}
use coracle.Decode.Operand.{RegWidth, Cond, width_bits, mask}

pub record FlaggedResult : Type 0 where
  pub value : ℕ
  pub flags : Nzcv

-- `1 << (width.bits() - 1)`.
abbrev pub sign_bit : RegWidth → ℕ
sign_bit width = 2 ^ (width_bits width - 1)

unfoldable pub add_with_carry : ℕ → ℕ → Bool → RegWidth → FlaggedResult
add_with_carry a b carry_in width =
    let left = mask width a in
    let right = mask width b in
    let unsigned = left + right + to_bit carry_in in
    let value = mask width unsigned in
    let overflowed =
      bit_and (bit_and (bit_xor left value) (bit_xor right value)) (sign_bit width) in
    record {
      value = value;
      flags = record {
        n = not (bit_and value (sign_bit width) == 0);
        z = value == 0;
        c = not (unsigned / 2 ^ width_bits width == 0);
        v = not (overflowed == 0);
      };
    }

unfoldable pub logical_flags : ℕ → RegWidth → Nzcv
logical_flags value width =
    let masked = mask width value in
    record { n = not (bit_and masked (sign_bit width) == 0); z = masked == 0; c = false; v = false }

pub is_condition_met : Cond → Nzcv → Bool
is_condition_met Cond.eq f = f.z
is_condition_met Cond.ne f = not f.z
is_condition_met Cond.cs f = f.c
is_condition_met Cond.cc f = not f.c
is_condition_met Cond.mi f = f.n
is_condition_met Cond.pl f = not f.n
is_condition_met Cond.vs f = f.v
is_condition_met Cond.vc f = not f.v
is_condition_met Cond.hi f = f.c && not f.z
is_condition_met Cond.ls f = not (f.c && not f.z)
is_condition_met Cond.ge f = bool_eq f.n f.v
is_condition_met Cond.lt f = not (bool_eq f.n f.v)
is_condition_met Cond.gt f = not f.z && bool_eq f.n f.v
is_condition_met Cond.le f = not (not f.z && bool_eq f.n f.v)
is_condition_met Cond.al f = true
is_condition_met Cond.nv f = true
