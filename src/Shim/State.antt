-- ===== src/Shim/State.antt =====
-- `Shim` of crates/core/src/shim/mod.rs: the state of the shim, and the log of the calls that it does
-- not implement. The array of `unhandled_count` filled slots is the list of the filled ones.
pub mod Log
pub mod Layout
use coracle.Prelude.{
  ℕ, ◌/◌, wrapping_add, Bool, false, ◌||◌, List, [], ◌∷◌, ◌++◌, ◌==◌, ltb, length, if◌then◌else◌,
}
use coracle.Shim.MemoryMap
use coracle.Shim.MemoryMap.{ArenaLayout, MemoryMap}

abbrev pub unhandled_capacity : ℕ
unhandled_capacity = 32

pub record Shim (H : Type 0) : Type 0 where
  pub host : H
  pub map : MemoryMap
  pub unhandled : List ℕ

-- `self.unhandled().any(|seen| seen == number)`.
unfoldable pub is_seen : ℕ → List ℕ → Bool
is_seen number [] = false
is_seen number (seen ∷ rest) = seen == number || is_seen number rest

module _ {H : Type 0} where
  unfoldable pub new : H → ArenaLayout → Shim H
  new host layout = record { host = host; map = MemoryMap.new layout; unhandled = [] }

  unfoldable pub record_unhandled : Shim H → ℕ → Shim H
  record_unhandled shim number =
      if is_seen number shim.unhandled
      then shim
      else if ltb (length shim.unhandled) unhandled_capacity
      then record shim { unhandled = shim.unhandled ++ number ∷ [] }
      else shim

-- The sums are unchecked: they wrap around in a release build.
unfoldable pub default_layout : ℕ → ℕ → ArenaLayout
default_layout ram_base ram_bytes = record {
  heap_base = wrapping_add ram_base (ram_bytes / 4);
  heap_limit = wrapping_add ram_base (ram_bytes / 2);
  mmap_base = wrapping_add ram_base (ram_bytes / 2);
  mmap_limit = wrapping_add ram_base ram_bytes;
}
