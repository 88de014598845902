-- ===== src/Fp/Softfloat/Arithmetic/SquareRoot.antt =====
-- The integer square root.
use coracle.Prelude.{
  ℕ, zero, suc, ◌+◌, ◌-◌, ◌*◌, ◌/◌, ◌%◌, ◌^◌, ◌≤◌, ◌<◌, ◌≡◌, refl, sym, subst, ap, ap₂, ◌∙◌, arith,
  ◌==◌, if◌then◌else◌,
}
use native.Mathlib.Nat.{pow-succ', mul-pos}
use native.Mathlib.Decide.{dec_le}
use coracle.Prelude.Signed.{leading_zeros128, bit_length}
use coracle.Fp.Softfloat.Arithmetic.{isqrt_from, isqrt_u128}

-- The square of a sum, as the loop compares it.
square_of_sum : (p q : ℕ) → (p + q) * (p + q) ≡ p * p + (p * (2 * q) + q * q)
square_of_sum p q = omega arith

-- A number is the root of `value` rounded down.
abbrev pub IsRoot : ℕ → ℕ → Type 0
IsRoot value root = (root * root ≤ value) × (value < (root + 1) * (root + 1))

last_pass : (fuel remainder root : ℕ) → isqrt_from fuel remainder root 0 ≡ root
unfolding isqrt_from
last_pass zero remainder root = refl
last_pass (suc fuel) remainder root = refl

-- A pass at a bit that is set in the root, and at one that is not.
pass_taken :
    (fuel remainder root bit r b n : ℕ)
    → 0 < bit
    → root + bit ≤ remainder
    → n ≡ remainder - (root + bit)
    → r ≡ root / 2 + bit
    → b ≡ bit / 4
    → isqrt_from (suc fuel) remainder root bit ≡ isqrt_from fuel n r b
unfolding isqrt_from
pass_taken fuel remainder root bit r b n h k e f g = rw (e, f, g) (ground arith)

pass_left :
    (fuel remainder root bit r b : ℕ)
    → 0 < bit
    → remainder < root + bit
    → r ≡ root / 2
    → b ≡ bit / 4
    → isqrt_from (suc fuel) remainder root bit ≡ isqrt_from fuel remainder r b
unfolding isqrt_from
pass_left fuel remainder root bit r b h k f g = rw (f, g) (ground arith)

base :
    (fuel p value : ℕ)
    → p * p ≤ value
    → value < (p + 2) * (p + 2)
    → IsRoot value (isqrt_from (suc fuel) (value - p * p) (p * 2) 1)
base fuel p value low high = elim (dec_le (p * 2 + 1) (value - p * p)) [
  | yes fits ↦
      subst (IsRoot value)
        (sym (
          pass_taken fuel (value - p * p) (p * 2) 1 (p + 1) 0 _ (omega arith) fits refl
            (omega arith) (omega arith)
          ∙ last_pass fuel _ (p + 1)))
        (omega (arith, fits), omega arith)
  | no small ↦
      subst (IsRoot value)
        (sym (
          pass_left fuel (value - p * p) (p * 2) 1 p 0 (omega arith) (omega (arith, small))
            (omega arith) (omega arith)
          ∙ last_pass fuel _ p))
        (omega arith, omega (arith, small))
]

step :
    (fuel p q value : ℕ)
    → 0 < q
    → p * p ≤ value
    → value < (p + 2 * (2 * q)) * (p + 2 * (2 * q))
    → ((r : ℕ)
        → r * r ≤ value
        → value < (r + 2 * q) * (r + 2 * q)
        → IsRoot value (isqrt_from fuel (value - r * r) (r * (2 * q)) (q * q)))
    → IsRoot value (isqrt_from (suc fuel) (value - p * p) (p * (2 * (2 * q))) ((2 * q) * (2 * q)))
step fuel p q value h low high more =
    elim (dec_le (p * (2 * (2 * q)) + (2 * q) * (2 * q)) (value - p * p)) [
      | yes fits ↦
          let r = p + 2 * q in
          subst (IsRoot value)
            (sym (
              pass_taken fuel (value - p * p) (p * (2 * (2 * q))) ((2 * q) * (2 * q)) (r * (2 * q))
                (q * q) (value - r * r)
                (mul-pos {m = 2 * q} {n = 2 * q} (omega arith) (omega arith)) fits (omega arith)
                (omega arith) (omega arith)))
            (more r (omega (arith, fits)) (omega arith))
      | no small ↦
          subst (IsRoot value)
            (sym (
              pass_left fuel (value - p * p) (p * (2 * (2 * q))) ((2 * q) * (2 * q)) (p * (2 * q))
                (q * q) (mul-pos {m = 2 * q} {n = 2 * q} (omega arith) (omega arith))
                (omega (arith, small)) (omega arith) (omega arith)))
            (more p low (omega (arith, small)))
    ]

pos_pow : (k : ℕ) → 0 < 2 ^ k
pos_pow zero = omega arith
pos_pow (suc k) = omega (arith, pow-succ' 2 k, pos_pow k)

-- The passes from the bit of weight `2 ^ k` on, where `p` is the root so far.
isqrt_from-IsRoot :
    (k fuel p value : ℕ)
    → k < fuel
    → p * p ≤ value
    → value < (p + 2 * 2 ^ k) * (p + 2 * 2 ^ k)
    → IsRoot value (isqrt_from fuel (value - p * p) (p * (2 * 2 ^ k)) (2 ^ k * 2 ^ k))
isqrt_from-IsRoot k zero p value h low high = absurd (omega arith)
isqrt_from-IsRoot zero (suc fuel) p value h low high = base fuel p value low high
isqrt_from-IsRoot (suc k) (suc fuel) p value h low high =
    let twice : 2 * 2 ^ k ≡ 2 ^ suc k = sym (pow-succ' 2 k) in
    subst (λ t. IsRoot value (isqrt_from (suc fuel) (value - p * p) (p * (2 * t)) (t * t))) twice
      (step fuel p (2 ^ k) value (pos_pow k) low
        (subst (λ t. value < (p + 2 * t) * (p + 2 * t)) (sym twice) high)
        (λ r a b. isqrt_from-IsRoot k fuel r value (omega (arith, h)) a b))

bit_length-lt : (width x : ℕ) → x < 2 ^ width → x < 2 ^ bit_length width x
bit_length-lt zero x h = h
bit_length-lt (suc width) zero h = omega arith
bit_length-lt (suc width) (suc n) h = omega (
  arith,
  bit_length-lt width (suc n / 2) (omega (arith, pow-succ' 2 width)),
  pow-succ' 2 (bit_length width (suc n / 2)),
)

bit_length-le : (width x : ℕ) → bit_length width x ≤ width
bit_length-le zero x = omega arith
bit_length-le (suc width) zero = omega arith
bit_length-le (suc width) (suc n) = omega (arith, bit_length-le width (suc n / 2))

bit_length-pos : (width x : ℕ) → 0 < x → 0 < bit_length (suc width) x
bit_length-pos width zero h = absurd (omega arith)
bit_length-pos width (suc n) h = omega arith

square_pow : (k : ℕ) → 2 ^ (2 * k) ≡ 2 ^ k * 2 ^ k
square_pow zero = refl
square_pow (suc k) =
    let shifted : 2 * suc k ≡ suc (suc (2 * k)) = omega arith in
    omega (
      arith,
      ap (λ (t : ℕ). 2 ^ t) shifted,
      pow-succ' 2 (suc (2 * k)),
      pow-succ' 2 (2 * k),
      square_pow k,
      ap₂ (λ (a b : ℕ). a * b) (pow-succ' 2 k) (pow-succ' 2 k),
    )

-- A word of `s + 1` bits is below the square of `2 * 2 ^ (s / 2)`.
below_square :
    (s value : ℕ) → value < 2 ^ suc s → value < (0 + 2 * 2 ^ (s / 2)) * (0 + 2 * 2 ^ (s / 2))
below_square s value h = elim (dec_le (s % 2) 0) [
  | yes even ↦
      let same : suc s ≡ suc (2 * (s / 2)) = omega (arith, even) in
      omega (arith, h, ap (λ (t : ℕ). 2 ^ t) same, pow-succ' 2 (2 * (s / 2)), square_pow (s / 2))
  | no odd ↦
      let same : suc s ≡ suc (suc (2 * (s / 2))) = omega (arith, odd) in
      omega (
        arith,
        h,
        ap (λ (t : ℕ). 2 ^ t) same,
        pow-succ' 2 (suc (2 * (s / 2))),
        pow-succ' 2 (2 * (s / 2)),
        square_pow (s / 2),
      )
]

top_bit-square : (s : ℕ) → 2 ^ (s - s % 2) ≡ 2 ^ (s / 2) * 2 ^ (s / 2)
top_bit-square s =
    let same : s - s % 2 ≡ 2 * (s / 2) = omega arith in
    ap (λ (t : ℕ). 2 ^ t) same ∙ square_pow (s / 2)

from_zero :
    (s value : ℕ)
    → s < 128
    → value < 2 ^ suc s
    → IsRoot value (isqrt_from 64 value 0 (2 ^ (s - s % 2)))
from_zero s value h below =
    let k = s / 2 in
    let whole : value - 0 * 0 ≡ value = omega arith in
    let none : 0 * (2 * 2 ^ k) ≡ 0 = omega arith in
    subst (λ t. IsRoot value (isqrt_from 64 value 0 t)) (sym (top_bit-square s))
      (subst (λ v. IsRoot value (isqrt_from 64 v 0 (2 ^ k * 2 ^ k))) whole
        (subst (λ r. IsRoot value (isqrt_from 64 (value - 0 * 0) r (2 ^ k * 2 ^ k))) none
          (isqrt_from-IsRoot k 64 0 value (omega arith) (omega arith)
            (below_square s value below))))

not_zero : (value a b : ℕ) → 0 < value → (if value == 0 then a else b) ≡ b
not_zero value a b h = ground arith

-- `isqrt_u128` is the square root rounded down, of every u128.
pub isqrt_u128-IsRoot : (value : ℕ) → value < 2 ^ 128 → IsRoot value (isqrt_u128 value)
unfolding isqrt_u128 leading_zeros128
isqrt_u128-IsRoot zero h = omega arith
isqrt_u128-IsRoot (suc n) h =
    let len = bit_length 128 (suc n) in
    let s = 127 - (128 - len) in
    let long = bit_length-pos 127 (suc n) (omega arith) in
    let short = bit_length-le 128 (suc n) in
    let whole : suc s ≡ len = omega (arith, long, short) in
    let below : suc n < 2 ^ suc s =
      subst (λ t. suc n < 2 ^ t) (sym whole) (bit_length-lt 128 (suc n) h) in
    subst (IsRoot (suc n))
      (sym (not_zero (suc n) 0 (isqrt_from 64 (suc n) 0 (2 ^ (s - s % 2))) (omega arith)))
      (from_zero s (suc n) (omega arith) below)
