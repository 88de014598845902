-- ===== src/Interp/Memory/Flat.antt =====
-- `FlatMemory` of crates/core/src/interp/memory.rs: a flat span of guest RAM.
pub mod Splice
pub mod End
use coracle.Prelude.{
  ℕ, ◌+◌, ◌-◌, ◌^◌, Bool, true, false, List, ◌++◌, ◌≡◌, refl, arith, Result, ok, err, ◌>>=◌, ltb,
  leb, length, take, drop, replicate, if◌then◌else◌,
}
use coracle.Interp.Memory.{AccessFault, Memory}

pub record FlatMemory : Type 0 where
  pub base : ℕ
  pub bytes : List ℕ

-- `FlatMemory::at`.
unfoldable pub at : ℕ → ℕ → FlatMemory
at base size = record { base = base; bytes = replicate size 0 }

abbrev pub limit : FlatMemory → ℕ
limit m = m.base + length m.bytes

-- Where the access starts in `bytes`; the end is computed by `checked_add`.
unfoldable pub offset : FlatMemory → ℕ → ℕ → Bool → Result AccessFault ℕ
offset m address len is_write =
    let fault : AccessFault = record { address = address; is_write = is_write } in
    let start = address - m.base in
    if ltb address m.base
    then err fault
    else if leb (2 ^ 64) (start + len)
    then err fault
    else if ltb (length m.bytes) (start + len)
    then err fault
    else ok start

-- `FlatMemory::slice`.
unfoldable slice : FlatMemory → ℕ → ℕ → Result AccessFault (List ℕ)
slice m address len = do start ← offset m address len false; ok (take len (drop start m.bytes))

unfoldable pub read : FlatMemory → ℕ → ℕ → Result AccessFault (List ℕ)
read m address len = do start ← offset m address len false; ok (take len (drop start m.bytes))

-- `bytes[start..start + data.len()].copy_from_slice(data)`.
unfoldable pub splice : List ℕ → ℕ → List ℕ → List ℕ
splice bytes start written = take start bytes ++ (written ++ drop (start + length written) bytes)

unfoldable pub write : FlatMemory → ℕ → List ℕ → Result AccessFault (Unit {0}) × FlatMemory
unfolding splice
write m address written = elim (offset m address (length written) true) [
  | ok start ↦ (ok tt, record m { bytes = splice m.bytes start written })
  | err fault ↦ (err fault, m)
]

pub write_fault :
    (m : FlatMemory) (address : ℕ) (written : List ℕ) (fault : AccessFault)
    → (write m address written).0 ≡ err fault
    → (write m address written).1 ≡ m
unfolding write
write_fault m address written fault h = ground arith

abbrev pub flat : Memory FlatMemory
flat = record { read = read; write = write; write_fault = write_fault }
