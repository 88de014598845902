-- ===== src/Interp/Memory/Extent.antt =====
-- The end of a memory, as an interface over the `Memory` trait of crates/core/src/interp/memory.rs.
use coracle.Prelude.{ℕ, ◌+◌, ◌≤◌, ◌≡◌, List, ok}
use coracle.Interp.Memory.{Memory}

-- An end of the memory's addresses that no write moves and no read passes.
pub record Extent {M : Type 0} (mem : Memory M) : Type 0 where
  pub top : M → ℕ
  pub top_write : (m : M) (address : ℕ) (bytes : List ℕ) → top (mem.write m address bytes).1 ≡ top m
  pub top_read :
      (m : M) (address len : ℕ) (bytes : List ℕ)
      → mem.read m address len ≡ ok bytes
      → address + len ≤ top m
