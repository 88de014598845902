-- ===== src/Shim/State/Layout.antt =====
-- The windows of `default_layout`.
use coracle.Prelude.{ℕ, ◌+◌, ◌*◌, ◌/◌, ◌%◌, ◌^◌, ◌<◌, ◌≤◌, ◌≡◌, arith, List, some}
use mathlib.Core.List.{Memᴰ}
use coracle.GuestMemory.{page_size}
use coracle.Shim.MemoryMap.{MemoryMap, map}
use coracle.Shim.MemoryMap.Arena.{Reaches, map-fresh, set_brk-bounds}
use coracle.Shim.State.{default_layout}

-- In RAM that starts on a page boundary, has an even number of pages and ends below 2^64, with the
-- default layout, the break stays in the RAM below its middle, both ends included, and every mapping that
-- `mmap` hands out is page-aligned and lies in the upper half, apart from every mapping made before.
pub default_layout-apart :
    (ram_base ram_bytes : ℕ) (m : MemoryMap) (made : List (ℕ × ℕ)) (wanted fresh base length : ℕ)
    → ram_base + ram_bytes < 2 ^ 64
    → ram_base % page_size ≡ 0
    → ram_bytes % (2 * page_size) ≡ 0
    → Reaches (default_layout ram_base ram_bytes) m made
    → (map m wanted).0 ≡ some fresh
    → (ram_base ≤ m.brk)
      × (m.brk ≤ ram_base + ram_bytes / 2)
      × (ram_base + ram_bytes / 2 ≤ fresh)
      × (fresh + wanted ≤ ram_base + ram_bytes)
      × (fresh % page_size ≡ 0)
      × (Memᴰ (base, length) made → base + length ≤ fresh)
unfolding default_layout
default_layout-apart ram_base ram_bytes m made wanted fresh base length room aligned even r e =
    let layout = default_layout ram_base ram_bytes in
    let (a, b, c, d) =
      map-fresh layout m made wanted fresh base length (omega (arith, room, aligned, even)) r e in
    let (f, g, h) =
      set_brk-bounds layout m made 0 (omega (arith, room, aligned, even)) (omega (arith, room)) r in
    (
      omega (arith, room, f),
      omega (arith, room, g),
      omega (arith, room, b),
      omega (arith, room, c),
      a,
      d,
    )
