-- ===== src/Interp/Memory/Flat/End.antt =====
-- The end of the flat memory: no store moves it, and no load passes it.
use coracle.Prelude.{
  ℕ, ◌+◌, ◌≤◌, ◌≡◌, refl, arith, Bool, true, false, List, ok, inl, inr, ok_or_err, length,
}
use coracle.Interp.Memory.Extent.{Extent}
use coracle.Interp.Memory.Flat.{FlatMemory, flat, read, write, offset, limit}
use coracle.Interp.Memory.Flat.Splice.{length-splice}

offset-fits :
    (m : FlatMemory) (address len start : ℕ) (is_write : Bool)
    → offset m address len is_write ≡ ok start
    → (start + m.base ≡ address) × (start + len ≤ length m.bytes)
unfolding offset
offset-fits m address len start is_write h = ground arith

pub limit-write :
    (m : FlatMemory) (address : ℕ) (written : List ℕ) → limit (write m address written).1 ≡ limit m
unfolding write
limit-write m address written = elim (ok_or_err (offset m address (length written) true)) [
  | inl (start, e) ↦
      rw (write, e)
        (omega (
          arith,
          length-splice m.bytes start written
              (offset-fits m address (length written) start true e).1,
        ))
  | inr (fault, e) ↦ rw (write, e) refl
]

pub limit-read :
    (m : FlatMemory) (address len : ℕ) (bytes : List ℕ)
    → read m address len ≡ ok bytes
    → address + len ≤ limit m
unfolding read
limit-read m address len bytes h = elim (ok_or_err (offset m address len false)) [
  | inl (start, e) ↦ omega (arith, offset-fits m address len start false e)
  | inr (fault, e) ↦ ground (arith, e)
]

abbrev pub flat_extent : Extent flat
flat_extent = record { top = limit; top_write = limit-write; top_read = limit-read }
