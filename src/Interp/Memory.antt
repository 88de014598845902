-- ===== src/Interp/Memory.antt =====
-- The `Memory` trait of crates/core/src/interp/memory.rs: what the interpreter loads from and stores
-- to, as an interface with the law that the interpreter relies on, and its default methods.
pub mod Bytes
pub mod Flat
pub mod Extent
use coracle.Prelude.{ℕ, Bool, List, ◌≡◌, Result, ok, err, ◌>>=◌}
use Bytes.{from_le, to_le}

pub record AccessFault : Type 0 where
  pub address : ℕ
  pub is_write : Bool

-- `read m address len` gives `len` bytes; a write gives its result and the memory after it.
pub record Memory (M : Type 0) : Type 0 where
  pub read : M → ℕ → ℕ → Result AccessFault (List ℕ)
  pub write : M → ℕ → List ℕ → Result AccessFault (Unit {0}) × M
  pub write_fault :
      (m : M) (address : ℕ) (bytes : List ℕ) (fault : AccessFault)
      → (write m address bytes).0 ≡ err fault
      → (write m address bytes).1 ≡ m

module _ {M : Type 0} (mem : Memory M) where
  -- `width` is 1, 2, 4 or 8; the bytes beyond it are zero.
  unfoldable pub read_uint : M → ℕ → ℕ → Result AccessFault ℕ
  read_uint m address width = do bytes ← mem.read m address width; ok (from_le bytes)

  unfoldable pub write_uint : M → ℕ → ℕ → ℕ → Result AccessFault (Unit {0}) × M
  write_uint m address width value = mem.write m address (to_le width value)
