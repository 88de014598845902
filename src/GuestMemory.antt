-- ===== src/GuestMemory.antt =====
-- crates/core/src/guest_memory.rs: the placement of guest RAM in the linear memory of the wasm module.
-- A `usize` has 32 bits, as on wasm32, and its sums wrap around as in a release build.
pub mod Window
use coracle.Prelude.{
  ℕ, ◌+◌, ◌-◌, ◌*◌, ◌%◌, ◌^◌, Bool, Option, some, none, not, Result, ok, err, ◌==◌, ltb, leb,
  if◌then◌else◌,
}

abbrev pub ram_base : ℕ
ram_base = 2 ^ 30

-- `(4u64 << 30) - RAM_BASE`.
abbrev pub max_ram_bytes : ℕ
max_ram_bytes = 4 * 2 ^ 30 - ram_base

abbrev pub phys_ram_base : ℕ
phys_ram_base = 0x40000000

abbrev pub page_size : ℕ
page_size = 4096

pub data LayoutError : Type 0 where
  too_large : (requested max : ℕ) → LayoutError
  unaligned : (requested : ℕ) → LayoutError
  empty : LayoutError

unfoldable pub reserve : ℕ → Result LayoutError (ℕ × ℕ)
reserve ram_bytes =
    if ram_bytes == 0
    then err LayoutError.empty
    else if not (ram_bytes % page_size == 0)
    then err (LayoutError.unaligned ram_bytes)
    else if ltb max_ram_bytes ram_bytes
    then err (LayoutError.too_large ram_bytes max_ram_bytes)
    else ok (ram_base, (ram_base + ram_bytes) % 2 ^ 32)

unfoldable pub linear_offset : ℕ → ℕ → Option ℕ
linear_offset guest_physical ram_bytes =
    if ltb guest_physical phys_ram_base
    then none
    else if leb ram_bytes (guest_physical - phys_ram_base)
    then none
    else some ((ram_base + (guest_physical - phys_ram_base) % 2 ^ 32) % 2 ^ 32)
