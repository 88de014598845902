-- ===== src/Interp/Flags/Compare.antt =====
-- What the flags of an addition and of a comparison say.
use coracle.Prelude.{
  ℕ, ◌+◌, ◌*◌, ◌%◌, ◌^◌, ◌<◌, ◌≡◌, ◌≢◌, ap, ap₂, ◌∙◌, arith, Bool, true, not, min, ltb, leb, ◌==◌,
  bit_and, bit_xor, not64, to_bit,
}
use coracle.Prelude.Bits.{bit, bit_and-pow, bit-bit_and, bit-bit_xor}
use coracle.Pstate.Flags.{Nzcv}
use coracle.Decode.Operand.{RegWidth, Cond, invert, width_bits, mask}
use coracle.Interp.Flags.{add_with_carry, is_condition_met, sign_bit}

-- The overflow test, by the top bits of the operands and of the result.
overflow-bits :
    (k l r value : ℕ)
    → bit_and (bit_and (bit_xor l value) (bit_xor r value)) (2 ^ k)
      ≡ min ((bit l k + bit value k) % 2) ((bit r k + bit value k) % 2) * 2 ^ k
overflow-bits k l r value =
    bit_and-pow k (bit_and (bit_xor l value) (bit_xor r value))
    ∙ ap (λ b. b * 2 ^ k)
        (bit-bit_and k (bit_xor l value) (bit_xor r value)
          ∙ ap₂ min (bit-bit_xor k l value) (bit-bit_xor k r value))

-- A value as the distance from the least signed one: the order of these is the signed order.
abbrev pub biased : RegWidth → ℕ → ℕ
biased width value = mask width (value + sign_bit width)

-- The sum is the sum of the operands and the carry, modulo the width, with the carry flag as the bit
-- that the width loses; the zero flag tells a zero result, the negative flag its top bit, and the
-- overflow flag is set exactly where the signed sum is out of range.
pub add_with_carry-exact :
    (a b : ℕ) (carry : Bool) (width : RegWidth)
    → let result = add_with_carry a b carry width in
      let size = 2 ^ width_bits width in
      (result.value + to_bit result.flags.c * size ≡ mask width a + mask width b + to_bit carry)
      × (result.value < size)
      × (result.flags.z ≡ (result.value == 0))
      × (result.flags.n ≡ leb (sign_bit width) result.value)
      × (result.flags.v
          ≡ not (
              biased width result.value + sign_bit width
              == biased width a + biased width b + to_bit carry))
unfolding add_with_carry
add_with_carry-exact a b carry RegWidth.w32 =
    let l = mask RegWidth.w32 a in
    let r = mask RegWidth.w32 b in
    ground (
      arith,
      overflow-bits 31 l r ((l + r + to_bit carry) % 2 ^ 32),
      bit_and-pow 31 ((l + r + to_bit carry) % 2 ^ 32),
    )
add_with_carry-exact a b carry RegWidth.x64 =
    let l = mask RegWidth.x64 a in
    let r = mask RegWidth.x64 b in
    ground (
      arith,
      overflow-bits 63 l r ((l + r + to_bit carry) % 2 ^ 64),
      bit_and-pow 63 ((l + r + to_bit carry) % 2 ^ 64),
    )

-- After the subtraction that a compare of `a` with the 64-bit value `b` is, each condition decides the
-- order that it is named for: unsigned for CS, CC, HI and LS, signed for GE, LT, GT and LE.
pub compare-conditions :
    (a b : ℕ) (width : RegWidth)
    → b < 2 ^ 64
    → let f = (add_with_carry a (not64 b) true width).flags in
      let l = mask width a in
      let r = mask width b in
      (is_condition_met Cond.eq f ≡ (l == r))
      × (is_condition_met Cond.ne f ≡ not (l == r))
      × (is_condition_met Cond.cs f ≡ leb r l)
      × (is_condition_met Cond.cc f ≡ ltb l r)
      × (is_condition_met Cond.hi f ≡ ltb r l)
      × (is_condition_met Cond.ls f ≡ leb l r)
      × (is_condition_met Cond.ge f ≡ leb (biased width r) (biased width l))
      × (is_condition_met Cond.lt f ≡ ltb (biased width l) (biased width r))
      × (is_condition_met Cond.gt f ≡ ltb (biased width r) (biased width l))
      × (is_condition_met Cond.le f ≡ leb (biased width l) (biased width r))
unfolding add_with_carry is_condition_met
compare-conditions a b RegWidth.w32 h =
    let l = mask RegWidth.w32 a in
    let r = mask RegWidth.w32 (not64 b) in
    ground
      (arith, overflow-bits 31 l r ((l + r + 1) % 2 ^ 32), bit_and-pow 31 ((l + r + 1) % 2 ^ 32))
compare-conditions a b RegWidth.x64 h =
    let l = mask RegWidth.x64 a in
    let r = mask RegWidth.x64 (not64 b) in
    ground
      (arith, overflow-bits 63 l r ((l + r + 1) % 2 ^ 64), bit_and-pow 63 ((l + r + 1) % 2 ^ 64))

-- The inverse of a condition other than AL and NV holds exactly where the condition does not, and
-- inverting twice gives the condition back.
pub invert-is_condition_met :
    (c : Cond) (f : Nzcv)
    → c ≢ Cond.al
    → c ≢ Cond.nv
    → (is_condition_met (invert c) f ≡ not (is_condition_met c f)) × (invert (invert c) ≡ c)
unfolding invert is_condition_met
invert-is_condition_met c f h k = ground arith
