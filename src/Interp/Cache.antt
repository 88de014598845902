-- ===== src/Interp/Cache.antt =====
-- crates/core/src/interp/cache.rs: the direct-mapped cache of decoded instructions. Its arrays are
-- functions of the slot, which the mask keeps below the number of entries.
pub mod Transparent
use coracle.Prelude.{ℕ, ◌+◌, ◌/◌, ◌%◌, ◌^◌, Bool, not, ◌&&◌, ◌==◌, if◌then◌else◌}
use coracle.Decode.{decode}
use coracle.Decode.Instruction.{Instruction, unallocated}

abbrev pub decode_cache_entries : ℕ
decode_cache_entries = 4096

abbrev pub empty_tag : ℕ
empty_tag = 0

pub record DecodeCache : Type 0 where
  pub tags : ℕ → ℕ
  pub entries : ℕ → Instruction
  pub hits : ℕ
  pub misses : ℕ

unfoldable pub new : DecodeCache
new = record {
  tags = λ slot. empty_tag;
  entries = λ slot. unallocated empty_tag;
  hits = 0;
  misses = 0;
}

-- An array with one entry replaced.
abbrev pub update {ℓ} : {A : Type ℓ} → (ℕ → A) → ℕ → A → ℕ → A
update f i v j = if j == i then v else f j

-- `(pc >> 2) & (DECODE_CACHE_ENTRIES - 1)`.
unfoldable pub slot : ℕ → ℕ
slot pc = pc / 2 ^ 2 % decode_cache_entries

unfoldable pub is_hit : DecodeCache → ℕ → ℕ → Bool
is_hit cache pc encoding = (cache.tags (slot pc) == encoding) && not (encoding == empty_tag)

unfoldable pub decoded : DecodeCache → ℕ → ℕ → Instruction × DecodeCache
decoded cache pc encoding =
    if is_hit cache pc encoding
    then (cache.entries (slot pc), record cache { hits = cache.hits + 1 })
    else (
      decode encoding,
      record {
        tags = update cache.tags (slot pc) encoding;
        entries = update cache.entries (slot pc) (decode encoding);
        hits = cache.hits;
        misses = cache.misses + 1;
      },
    )
