-- ===== src/Fp/Softfloat/Convert/Saturation.antt =====
-- The integers that conversions give.
use coracle.Prelude.{
  ℕ, ◌-◌, ◌^◌, ◌<◌, ◌≡◌, ◌⊎◌, inl, inr, subst, sym, arith, Bool, true, false, ◌&&◌, leb,
  if◌then◌else◌,
}
use coracle.Prelude.Signed.{ℤ, sub_ℕ, ltb_ℤ}
use coracle.Fp.Control.{invalid, inexact, none_raised}
use coracle.Fp.Backend.{IntFormat}
use coracle.Fp.Softfloat.Convert.{encode_integer, saturate, magnitude_limit}

-- The integer that a word of the target stands for, and the least and the largest of them.
abbrev pub int_value : IntFormat → ℕ → ℤ
int_value target word =
    if target.is_signed && leb (2 ^ (target.bits - 1)) word
    then sub_ℕ word (2 ^ target.bits)
    else ℤ.pos word

abbrev pub least : IntFormat → ℤ
least target = if target.is_signed then sub_ℕ 0 (2 ^ (target.bits - 1)) else ℤ.pos 0

abbrev pub largest : IntFormat → ℤ
largest target =
    if target.is_signed then ℤ.pos (2 ^ (target.bits - 1) - 1) else ℤ.pos (2 ^ target.bits - 1)

-- The nearest integer that the target holds.
abbrev pub clamp : IntFormat → ℤ → ℤ
clamp target value =
    if ltb_ℤ value (least target)
    then least target
    else if ltb_ℤ (largest target) value
    then largest target
    else value

abbrev pub signed_of : Bool → ℕ → ℤ
signed_of negative magnitude = if negative then sub_ℕ 0 magnitude else ℤ.pos magnitude

-- What `encode_integer` gives for a target of some width.
pub IsClamped : ℕ → Bool → Bool → Bool → ℕ → Type 0
IsClamped magnitude negative is_inexact is_signed width =
    let target : IntFormat = record { bits = width; is_signed = is_signed } in
    let value = signed_of negative magnitude in
    let result = encode_integer magnitude negative is_inexact target in
    (result.bits < 2 ^ width)
    × (int_value target result.bits ≡ clamp target value)
    × (ltb_ℤ value (least target) ≡ true → result.raised ≡ invalid)
    × (ltb_ℤ (largest target) value ≡ true → result.raised ≡ invalid)
    × (clamp target value ≡ value
        → negative ≡ false
        → result.raised ≡ (if is_inexact then inexact else none_raised))

IsClamped-32 :
    (magnitude : ℕ) (negative is_inexact is_signed : Bool)
    → IsClamped magnitude negative is_inexact is_signed 32
unfolding IsClamped encode_integer saturate magnitude_limit
IsClamped-32 magnitude negative is_inexact is_signed = ground arith

IsClamped-64 :
    (magnitude : ℕ) (negative is_inexact is_signed : Bool)
    → IsClamped magnitude negative is_inexact is_signed 64
unfolding IsClamped encode_integer saturate magnitude_limit
IsClamped-64 magnitude negative is_inexact is_signed = ground arith

-- A magnitude and a sign are put into a 32-bit or a 64-bit integer as the nearest integer that it holds,
-- and the word fits the width; where that is not the value itself, invalid is raised, and where it is
-- and the value is not negative, only whether the conversion was inexact.
pub encode_integer-IsClamped :
    (magnitude width : ℕ) (negative is_inexact is_signed : Bool)
    → (width ≡ 32) ⊎ (width ≡ 64)
    → IsClamped magnitude negative is_inexact is_signed width
encode_integer-IsClamped magnitude width negative is_inexact is_signed (inl e) =
    subst (IsClamped magnitude negative is_inexact is_signed) (sym e)
      (IsClamped-32 magnitude negative is_inexact is_signed)
encode_integer-IsClamped magnitude width negative is_inexact is_signed (inr e) =
    subst (IsClamped magnitude negative is_inexact is_signed) (sym e)
      (IsClamped-64 magnitude negative is_inexact is_signed)
