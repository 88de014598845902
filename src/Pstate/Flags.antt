-- ===== src/Pstate/Flags.antt =====
-- crates/core/src/pstate.rs: the condition flags, and their packed four-bit field.
use coracle.Prelude.{ℕ, ◌+◌, ◌*◌, ◌^◌, ◌<◌, ◌≡◌, refl, arith, Bool, true, false, bit_or, to_bit}
use coracle.Prelude.Bits.{is_set}

pub record Nzcv : Type 0 where
  pub n : Bool
  pub z : Bool
  pub c : Bool
  pub v : Bool

unfoldable pub from_bits : ℕ → Nzcv
from_bits bits = record {
  n = is_set bits 3;
  z = is_set bits 2;
  c = is_set bits 1;
  v = is_set bits 0;
}

unfoldable pub to_bits : Nzcv → ℕ
to_bits t =
    bit_or (bit_or (bit_or (to_bit t.n * 2 ^ 3) (to_bit t.z * 2 ^ 2)) (to_bit t.c * 2 ^ 1))
      (to_bit t.v)

-- The packed field as a sum.
pub to_bits_sum :
    (t : Nzcv) → to_bits t ≡ to_bit t.n * 8 + to_bit t.z * 4 + to_bit t.c * 2 + to_bit t.v
unfolding to_bits
to_bits_sum t = sums t.n t.z t.c t.v
  where
    sums :
        (p q r s : Bool)
        → bit_or
            (bit_or (bit_or (to_bit p * 2 ^ 3) (to_bit q * 2 ^ 2)) (to_bit r * 2 ^ 1))
            (to_bit s)
          ≡ to_bit p * 8 + to_bit q * 4 + to_bit r * 2 + to_bit s
    sums true true true true = refl
    sums true true true false = refl
    sums true true false true = refl
    sums true true false false = refl
    sums true false true true = refl
    sums true false true false = refl
    sums true false false true = refl
    sums true false false false = refl
    sums false true true true = refl
    sums false true true false = refl
    sums false true false true = refl
    sums false true false false = refl
    sums false false true true = refl
    sums false false true false = refl
    sums false false false true = refl
    sums false false false false = refl

pub to_bits-lt : (t : Nzcv) → to_bits t < 16
to_bits-lt t = ground (arith, to_bits_sum t)

-- Unpacking the packed field gives the flags back.
pub from_bits-to_bits : (t : Nzcv) → from_bits (to_bits t) ≡ t
unfolding from_bits
from_bits-to_bits t = rw (to_bits_sum t) (ground arith)

-- Packing an unpacked four-bit field gives the field back.
pub to_bits-from_bits : (bits : ℕ) → bits < 16 → to_bits (from_bits bits) ≡ bits
unfolding from_bits
to_bits-from_bits bits h = ground (arith, to_bits_sum (from_bits bits))
