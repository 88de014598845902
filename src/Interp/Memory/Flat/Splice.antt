-- ===== src/Interp/Memory/Flat/Splice.antt =====
-- What a store to the flat memory changes, and what a load after it gives.
use coracle.Prelude.{
  ℕ, ◌+◌, ◌-◌, ◌^◌, ◌≤◌, ◌<◌, ◌≡◌, ◌↔◌, ◌⊎◌, inl, inr, refl, sym, ap, subst, ◌∙◌, arith, Bool,
  false, List, ◌++◌, ok, ◌>>=◌, ltb, Bool-cases, length, take, drop, drop-append, drop-drop,
  take-append, window-take, length-append, length-take, length-drop,
}
use coracle.Interp.Memory.{read_uint, write_uint}
use coracle.Interp.Memory.Bytes.{to_le, from_le, length-to_le, from_le-to_le}
use coracle.Interp.Memory.Flat.{FlatMemory, offset, read, write, splice, flat}

-- The bytes of an address and a length are in the memory, whose end is below 2 ^ 64.
abbrev pub IsInside : FlatMemory → ℕ → ℕ → Type 0
IsInside m address len = (m.base ≤ address) × (address + len ≤ m.base + length m.bytes)

offset-ok :
    (m : FlatMemory) (address len start : ℕ) (is_write : Bool)
    → length m.bytes < 2 ^ 64
    → offset m address len is_write ≡ ok start
      ↔ (IsInside m address len × (start ≡ address - m.base))
unfolding offset
offset-ok m address len start is_write = ground arith

module _ (bytes : List ℕ) (start : ℕ) (written : List ℕ)
    (fits : start + length written ≤ length bytes) where
  pub length-splice : length (splice bytes start written) ≡ length bytes
  unfolding splice
  length-splice = omega (
    arith,
    length-append (take start bytes) (written ++ drop (start + length written) bytes),
    length-append written (drop (start + length written) bytes),
    length-take start bytes (omega arith),
    length-drop (start + length written) bytes,
  )

  window_of_splice : take (length written) (drop start (splice bytes start written)) ≡ written
  unfolding splice
  window_of_splice =
      ap (take (length written)) (
        drop-append start 0 (take start bytes) _
          (omega (arith, length-take start bytes (omega arith))))
      ∙ take-append written (drop (start + length written) bytes)

  window_apart :
      (s len : ℕ)
      → (s + len ≤ start) ⊎ (start + length written ≤ s)
      → take len (drop s (splice bytes start written)) ≡ take len (drop s bytes)
  unfolding splice
  window_apart s len (inl below) = window-take start s len bytes _ below (omega arith)
  window_apart s len (inr above) = ap (take len) (
      drop-append s (s - start) (take start bytes) _
        (omega (arith, length-take start bytes (omega arith)))
      ∙ drop-append (s - start) (s - (start + length written)) written _ (omega arith)
      ∙ drop-drop (start + length written) (s - (start + length written)) s bytes (omega arith))

read_inside :
    (m : FlatMemory) (address len : ℕ)
    → length m.bytes < 2 ^ 64
    → IsInside m address len
    → read m address len ≡ ok (take len (drop (address - m.base) m.bytes))
unfolding read
read_inside m address len room h =
    ap (λ o. do start ← o; ok (take len (drop start m.bytes)))
      ((offset-ok m address len (address - m.base) false room).1 (h, refl))

-- Two memories at one base and of one length agree on a window that lies in both.
read_agree :
    (m n : FlatMemory) (address len : ℕ)
    → m.base ≡ n.base
    → length m.bytes ≡ length n.bytes
    → (m.base ≤ address
        → take len (drop (address - m.base) m.bytes) ≡ take len (drop (address - m.base) n.bytes))
    → read m address len ≡ read n address len
unfolding read offset
read_agree m n address len e f g = elim (Bool-cases (ltb address m.base)) [
  | inl t ↦ ground (arith, e, f, t)
  | inr inside ↦ ground (arith, e, f, inside, g (ground (arith, inside)))
]

write-IsInside :
    (m : FlatMemory) (address : ℕ) (written : List ℕ)
    → length m.bytes < 2 ^ 64
    → (write m address written).0 ≡ ok tt
    → IsInside m address (length written)
      × ((write m address written).1
          ≡ record m { bytes = splice m.bytes (address - m.base) written })
unfolding write offset
write-IsInside m address written room h = ground arith

shifted :
    (base address other size len : ℕ)
    → base ≤ address
    → base ≤ other
    → (other + len ≤ address) ⊎ (address + size ≤ other)
    → ((other - base) + len ≤ address - base) ⊎ ((address - base) + size ≤ other - base)
shifted base address other size len low low_other (inl below) = inl (omega arith)
shifted base address other size len low low_other (inr above) = inr (omega arith)

-- In a memory shorter than 2 ^ 64 bytes, a store that succeeds is seen by a load of the same bytes, and
-- by no load that its bytes do not overlap, whether that load succeeds or faults.
pub read-write :
    (m : FlatMemory) (address : ℕ) (written : List ℕ)
    → length m.bytes < 2 ^ 64
    → (write m address written).0 ≡ ok tt
    → (read (write m address written).1 address (length written) ≡ ok written)
      × ((other len : ℕ)
          → (other + len ≤ address) ⊎ (address + length written ≤ other)
          → read (write m address written).1 other len ≡ read m other len)
read-write m address written room h =
    let ((low, high), same) = write-IsInside m address written room h in
    let fits : (address - m.base) + length written ≤ length m.bytes = omega (arith, low, high) in
    let after : FlatMemory = record m { bytes = splice m.bytes (address - m.base) written } in
    let kept = length-splice m.bytes (address - m.base) written fits in
    subst
      (λ n.
        (read n address (length written) ≡ ok written)
        × ((other len : ℕ)
            → (other + len ≤ address) ⊎ (address + length written ≤ other)
            → read n other len ≡ read m other len))
      (sym same)
      (
        read_inside after address (length written) (omega (arith, kept, room))
              (low, omega (arith, kept, high))
            ∙ ap ok (window_of_splice m.bytes (address - m.base) written fits),
        λ other len apart. read_agree after m other len refl kept (λ low_other.
            window_apart m.bytes (address - m.base) written fits (other - m.base) len
              (shifted m.base address other (length written) len low low_other apart)),
      )

-- A value stored by `write_uint` is the value that `read_uint` loads, where it fits the width.
pub read_uint-write_uint :
    (m : FlatMemory) (address width value : ℕ)
    → length m.bytes < 2 ^ 64
    → value < 256 ^ width
    → (write_uint flat m address width value).0 ≡ ok tt
    → read_uint flat (write_uint flat m address width value).1 address width ≡ ok value
unfolding read_uint write_uint
read_uint-write_uint m address width value room small h =
    let stored = (read-write m address (to_le width value) room h).0 in
    let size = length-to_le width value in
    ap (λ bytes. do b ← bytes; ok (from_le b))
      (ap (λ n. read (write m address (to_le width value)).1 address n) (sym size) ∙ stored)
    ∙ ap ok (from_le-to_le width value small)

-- A store that succeeds lies in the memory and keeps its span.
pub write-shape :
    (m : FlatMemory) (address : ℕ) (written : List ℕ)
    → length m.bytes < 2 ^ 64
    → (write m address written).0 ≡ ok tt
    → IsInside m address (length written)
      × ((write m address written).1.base ≡ m.base)
      × (length (write m address written).1.bytes ≡ length m.bytes)
write-shape m address written room h =
    let ((low, high), same) = write-IsInside m address written room h in
    let fits : (address - m.base) + length written ≤ length m.bytes = omega (arith, low, high) in
    (
      (low, high),
      ap (λ n. n.base) same,
      ap (λ n. length n.bytes) same ∙ length-splice m.bytes (address - m.base) written fits,
    )

-- A load that a stored value does not overlap is as before the store.
pub read_uint-write_uint_apart :
    (m : FlatMemory) (address width value other len : ℕ)
    → length m.bytes < 2 ^ 64
    → (write_uint flat m address width value).0 ≡ ok tt
    → (other + len ≤ address) ⊎ (address + width ≤ other)
    → read_uint flat (write_uint flat m address width value).1 other len
      ≡ read_uint flat m other len
unfolding read_uint write_uint
read_uint-write_uint_apart m address width value other len room h apart =
    let size = length-to_le width value in
    ap (λ bytes. do b ← bytes; ok (from_le b))
      ((read-write m address (to_le width value) room h).1 other len
        (subst (λ w. (other + len ≤ address) ⊎ (address + w ≤ other)) (sym size) apart))
