-- ===== src/Interp/Cache/Transparent.antt =====
-- What a lookup in the decode cache gives, and what it keeps.
use coracle.Prelude.{ℕ, ◌≡◌, refl, ◌≢◌, arith}
use coracle.Decode.{decode}
use coracle.Interp.Cache.{DecodeCache, new, slot, is_hit, decoded, empty_tag}

-- A slot that is not empty holds the decoded form of its tag.
abbrev pub IsCoherent : DecodeCache → Type 0
IsCoherent cache = (s : ℕ) → cache.tags s ≢ empty_tag → cache.entries s ≡ decode (cache.tags s)

pub new-IsCoherent : IsCoherent new
unfolding new
new-IsCoherent s h = absurd (h refl)

-- A lookup in a coherent cache gives the decoding of the word.
pub decoded-eq-decode :
    (cache : DecodeCache) (pc encoding : ℕ)
    → IsCoherent cache
    → (decoded cache pc encoding).0 ≡ decode encoding
unfolding decoded is_hit
decoded-eq-decode cache pc encoding h = ground (arith, h (slot pc))

pub decoded-IsCoherent :
    (cache : DecodeCache) (pc encoding : ℕ)
    → IsCoherent cache
    → IsCoherent (decoded cache pc encoding).1
unfolding decoded is_hit
decoded-IsCoherent cache pc encoding h s ne = ground (arith, h s)
