-- ===== src/Interp/Memory/Bytes.antt =====
-- `to_le_bytes` and `from_le_bytes`.
use coracle.Prelude.{
  ℕ, zero, suc, ◌+◌, ◌*◌, ◌/◌, ◌%◌, ◌^◌, ◌<◌, ◌≡◌, refl, ap, arith, List, [], ◌∷◌, length,
}
use native.Mathlib.Nat.{pow-succ'}

-- The low `n` bytes, the lowest first.
unfoldable pub to_le : ℕ → ℕ → List ℕ
to_le zero value = []
to_le (suc n) value = (value % 256) ∷ to_le n (value / 256)

unfoldable pub from_le : List ℕ → ℕ
from_le [] = 0
from_le (b ∷ bytes) = b + 256 * from_le bytes

pub length-to_le : (n value : ℕ) → length (to_le n value) ≡ n
unfolding to_le
length-to_le zero value = refl
length-to_le (suc n) value = ap suc (length-to_le n (value / 256))

pub from_le-to_le : (n value : ℕ) → value < 256 ^ n → from_le (to_le n value) ≡ value
unfolding to_le from_le
from_le-to_le zero value h = omega arith
from_le-to_le (suc n) value h =
    let small : value / 256 < 256 ^ n = omega (arith, pow-succ' 256 n) in
    omega (arith, from_le-to_le n (value / 256) small)
