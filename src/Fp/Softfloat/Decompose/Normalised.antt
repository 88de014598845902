-- ===== src/Fp/Softfloat/Decompose/Normalised.antt =====
-- What the loops of `normalise` reach.
use coracle.Prelude.{
  ℕ, zero, suc, ◌*◌, ◌/◌, ◌%◌, ◌^◌, ◌≤◌, ◌<◌, ◌≡◌, ap, arith, Bool, ◌&&◌, ◌||◌, not, ◌==◌, ltb, leb,
  Bool-cases, inl, inr, shl64,
}
use native.Mathlib.Nat.{pow-succ'}
use coracle.Prelude.Signed.{ℤ, ◌+ℤ◌, ◌-ℤ◌}
use coracle.Fp.Operand.{FpFormat}
use coracle.Fp.Softfloat.Decompose.{Unpacked, shift_down, shift_up, normalise, implicit_bit}

-- A significand whose leading bit is at the target.
abbrev pub IsAt : ℕ → ℕ → Type 0
IsAt target significand = (target ≤ significand) × (significand < 2 * target)

doubled : (target fuel : ℕ) → 2 * target * 2 ^ suc fuel ≡ 2 * (2 * target * 2 ^ fuel)
doubled target fuel = omega (arith, ap (λ (t : ℕ). 2 * target * t) (pow-succ' 2 fuel))

pub implicit_bit-range : (f : FpFormat) → (0 < implicit_bit f) × (implicit_bit f ≤ 2 ^ 62)
implicit_bit-range FpFormat.half = omega arith
implicit_bit-range FpFormat.single = omega arith
implicit_bit-range FpFormat.double = omega arith

shift_down-range :
    (fuel target : ℕ) (value : Unpacked) (sticky : Bool)
    → 0 < target
    → 0 < value.significand
    → value.significand < 2 * target * 2 ^ fuel
    → let out = (shift_down fuel target value sticky).0 in
      (out.significand < 2 * target)
      × (0 < out.significand)
      × (target ≤ value.significand → target ≤ out.significand)
unfolding shift_down
shift_down-range zero target value sticky h k b = omega (arith, h, k, b)
shift_down-range (suc fuel) target value sticky h k b =
    elim (Bool-cases (leb (2 * target) value.significand)) [
      | inr small ↦ rw (shift_down, small) (ground arith)
      | inl high ↦
          let large : 2 * target ≤ value.significand = ground (arith, high) in
          let next : Unpacked = record value {
            significand = value.significand / 2;
            exponent = value.exponent +ℤ ℤ.pos 1;
          } in
          let (a, p, c) =
            shift_down-range fuel target next (sticky || value.significand % 2 == 1) h
              (omega (arith, large, h)) (omega (arith, b, pow-succ' 2 fuel, doubled target fuel)) in
          rw (shift_down, high) (a, p, λ e. c (omega (arith, large)))
    ]

shift_up-range :
    (fuel target : ℕ) (value : Unpacked)
    → target ≤ 2 ^ 62
    → 0 < value.significand
    → value.significand < 2 * target
    → target ≤ value.significand * 2 ^ fuel
    → IsAt target (shift_up fuel target value).significand
unfolding shift_up
shift_up-range zero target value h k b c = ground arith
shift_up-range (suc fuel) target value h k b c =
    elim (Bool-cases (ltb value.significand target && not (value.significand == 0))) [
      | inr done ↦ rw (shift_up, done) (ground (arith, done))
      | inl low ↦
          let small : value.significand < target = ground (arith, low) in
          let twice : shl64 value.significand 1 ≡ value.significand * 2 = omega (arith, small, h) in
          let next : Unpacked = record value {
            significand = shl64 value.significand 1;
            exponent = value.exponent -ℤ ℤ.pos 1;
          } in
          rw (shift_up, low)
            (shift_up-range fuel target next h (omega (arith, twice, k))
              (omega (arith, twice, small))
              (omega (
                arith,
                c,
                ap (λ (t : ℕ). t * 2 ^ fuel) twice,
                ap (λ (t : ℕ). value.significand * t) (pow-succ' 2 fuel),
              )))
    ]

-- A significand of a u64 that is not zero is normalised: its leading bit ends at the implicit bit of the
-- format, so that the 64 passes of each loop are enough.
pub normalise-IsAt :
    (value : Unpacked) (sticky : Bool) (f : FpFormat)
    → 0 < value.significand
    → value.significand < 2 ^ 64
    → IsAt (implicit_bit f) (normalise value sticky f).0.significand
unfolding normalise
normalise-IsAt value sticky f h k =
    let down = (shift_down 64 (implicit_bit f) value sticky).0 in
    let (pos, room) = implicit_bit-range f in
    let (a, b, c) =
      shift_down-range 64 (implicit_bit f) value sticky pos h (omega (arith, k, pos)) in
    shift_up-range 64 (implicit_bit f) down room b a (omega (arith, b, room))
