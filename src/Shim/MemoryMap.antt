-- ===== src/Shim/MemoryMap.antt =====
-- crates/core/src/shim/memory_map.rs: the `brk` heap and the `mmap` arena, a bump allocator.
pub mod Arena
use coracle.Prelude.{
  ℕ, ◌+◌, ◌-◌, ◌*◌, ◌/◌, ◌^◌, Bool, ◌&&◌, Option, some, none, ◌==◌, ltb, leb, if◌then◌else◌,
}
use coracle.GuestMemory.{page_size}

-- `brk` returns `heap_limit` at most, and a mapping ends at `mmap_limit` at most.
pub record ArenaLayout : Type 0 where
  pub heap_base : ℕ
  pub heap_limit : ℕ
  pub mmap_base : ℕ
  pub mmap_limit : ℕ

pub record MemoryMap : Type 0 where
  pub layout : ArenaLayout
  pub brk : ℕ
  pub mmap_next : ℕ

unfoldable pub new : ArenaLayout → MemoryMap
new layout = record { layout = layout; brk = layout.heap_base; mmap_next = layout.mmap_base }

-- The break that `set_brk` reports is the one of the map after it.
pub set_brk : MemoryMap → ℕ → ℕ × MemoryMap
set_brk m requested =
    if leb m.layout.heap_base requested && leb requested m.layout.heap_limit
    then (requested, record m { brk = requested })
    else (m.brk, m)

-- `div_ceil`.
abbrev pub pages_of : ℕ → ℕ
pages_of length = (length + (page_size - 1)) / page_size

-- The product and the sum are checked: no value wraps at 2 ^ 64.
unfoldable pub map : MemoryMap → ℕ → Option ℕ × MemoryMap
map m length =
    let size = pages_of length * page_size in
    let end = m.mmap_next + size in
    if length == 0
    then (none, m)
    else if leb (2 ^ 64) size
    then (none, m)
    else if leb (2 ^ 64) end
    then (none, m)
    else if ltb m.layout.mmap_limit end
    then (none, m)
    else (some m.mmap_next, record m { mmap_next = end })
