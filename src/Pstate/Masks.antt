-- ===== src/Pstate/Masks.antt =====
-- crates/core/src/pstate.rs: the interrupt masks, and their packed four-bit field.
use coracle.Prelude.{ℕ, ◌+◌, ◌*◌, ◌^◌, ◌<◌, ◌≡◌, refl, arith, Bool, true, false, bit_or, to_bit}
use coracle.Prelude.Bits.{is_set}

pub record Daif : Type 0 where
  pub d : Bool
  pub a : Bool
  pub i : Bool
  pub f : Bool

unfoldable pub from_bits : ℕ → Daif
from_bits bits = record {
  d = is_set bits 3;
  a = is_set bits 2;
  i = is_set bits 1;
  f = is_set bits 0;
}

unfoldable pub to_bits : Daif → ℕ
to_bits t =
    bit_or (bit_or (bit_or (to_bit t.d * 2 ^ 3) (to_bit t.a * 2 ^ 2)) (to_bit t.i * 2 ^ 1))
      (to_bit t.f)

-- The packed field as a sum.
pub to_bits_sum :
    (t : Daif) → to_bits t ≡ to_bit t.d * 8 + to_bit t.a * 4 + to_bit t.i * 2 + to_bit t.f
unfolding to_bits
to_bits_sum t = sums t.d t.a t.i t.f
  where
    sums :
        (p q r s : Bool)
        → bit_or
            (bit_or (bit_or (to_bit p * 2 ^ 3) (to_bit q * 2 ^ 2)) (to_bit r * 2 ^ 1))
            (to_bit s)
          ≡ to_bit p * 8 + to_bit q * 4 + to_bit r * 2 + to_bit s
    sums true true true true = refl
    sums true true true false = refl
    sums true true false true = refl
    sums true true false false = refl
    sums true false true true = refl
    sums true false true false = refl
    sums true false false true = refl
    sums true false false false = refl
    sums false true true true = refl
    sums false true true false = refl
    sums false true false true = refl
    sums false true false false = refl
    sums false false true true = refl
    sums false false true false = refl
    sums false false false true = refl
    sums false false false false = refl

pub to_bits-lt : (t : Daif) → to_bits t < 16
to_bits-lt t = ground (arith, to_bits_sum t)

-- Unpacking the packed field gives the flags back.
pub from_bits-to_bits : (t : Daif) → from_bits (to_bits t) ≡ t
unfolding from_bits
from_bits-to_bits t = rw (to_bits_sum t) (ground arith)

-- Packing an unpacked four-bit field gives the field back.
pub to_bits-from_bits : (bits : ℕ) → bits < 16 → to_bits (from_bits bits) ≡ bits
unfolding from_bits
to_bits-from_bits bits h = ground (arith, to_bits_sum (from_bits bits))
