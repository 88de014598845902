-- ===== src/Decode/Group/Fields.antt =====
-- crates/core/src/decode/group/mod.rs: the bit fields of an encoding.
use coracle.Prelude.{ℕ, ◌+◌, ◌-◌, ◌*◌, ◌/◌, ◌%◌, ◌^◌, Bool, ◌==◌, shl64, asr64}

-- The field `hi..=lo`.
abbrev pub bits : ℕ → ℕ → ℕ → ℕ
bits encoding hi lo = encoding / 2 ^ lo % 2 ^ (hi - lo + 1)

-- `bits(encoding, k, k) == 1`.
abbrev pub flag : ℕ → ℕ → Bool
flag encoding k = bits encoding k k == 1

-- The i64, as its bit pattern, of the low `width` bits.
unfoldable pub sign_extend : ℕ → ℕ → ℕ
sign_extend value width = asr64 (shl64 value (64 - width)) (64 - width)

-- `value * factor` on i64.
abbrev pub scaled : ℕ → ℕ → ℕ
scaled value factor = value * factor % 2 ^ 64
