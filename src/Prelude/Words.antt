-- ===== src/Prelude/Words.antt =====
-- Machine words. A u64 is a number below 2 ^ 64; an i64 is its bit pattern, also below 2 ^ 64.
-- A mask of `k` low ones is written as the remainder by `2 ^ k`.
use Prim.Native.Nat.{ℕ, ◌+◌, ◌-◌, ◌*◌, ◌/◌, ◌%◌, ◌^◌}
use mathlib.Core.Bool.{Bool, true, false}
use coracle.Prelude.Tests.{ltb, if◌then◌else◌}

abbrev pub u64 : ℕ → ℕ
u64 n = n % 2 ^ 64

-- `wrapping_add` on u64.
abbrev pub wrapping_add : ℕ → ℕ → ℕ
wrapping_add a b = (a + b) % 2 ^ 64

-- `!x` on u64.
abbrev pub not64 : ℕ → ℕ
not64 x = 2 ^ 64 - 1 - x

-- `x << k` and `x >> k` on u64.
abbrev pub shl64 : ℕ → ℕ → ℕ
shl64 x k = x * 2 ^ k % 2 ^ 64

abbrev pub shr64 : ℕ → ℕ → ℕ
shr64 x k = x / 2 ^ k

-- `x >> k` on i64: the sign bit comes in from the top.
abbrev pub asr64 : ℕ → ℕ → ℕ
asr64 x k = if ltb x (2 ^ 63) then x / 2 ^ k else x / 2 ^ k + (2 ^ 64 - 2 ^ (64 - k))

-- `b as u64`.
abbrev pub to_bit : Bool → ℕ
to_bit true = 1
to_bit false = 0
