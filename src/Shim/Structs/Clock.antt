-- ===== src/Shim/Structs/Clock.antt =====
-- What a guest reads back from the structures that the shim wrote.
use coracle.Prelude.{
  ℕ, ◌+◌, ◌/◌, ◌%◌, ◌^◌, ◌<◌, ◌≡◌, sym, subst, ◌∙◌, arith, ok, length, wrapping_add, result_cases,
  ◌≤◌, inl, inr,
}
use coracle.Interp.Memory.{read_uint, write_uint}
use coracle.Interp.Memory.Bytes.{to_le, length-to_le}
use coracle.Interp.Memory.Flat.{FlatMemory, flat}
use coracle.Interp.Memory.Flat.Splice.{
  read_uint-write_uint, read_uint-write_uint_apart, write-shape,
}
use coracle.Shim.Structs.{write_timespec}

-- The two stores of a `timespec`, where both succeed.
two_stores :
    (m : FlatMemory) (address next low high : ℕ)
    → length m.bytes < 2 ^ 64
    → low < 2 ^ 64
    → high < 2 ^ 64
    → address + 8 ≤ next
    → let first = write_uint flat m address 8 low in
      let second = write_uint flat first.1 next 8 high in
      first.0 ≡ ok tt
      → second.0 ≡ ok tt
      → (read_uint flat second.1 address 8 ≡ ok low) × (read_uint flat second.1 next 8 ≡ ok high)
unfolding write_uint
two_stores m address next low high room a b apart h k =
    let first = (write_uint flat m address 8 low).1 in
    let (inside, base, size) = write-shape m address (to_le 8 low) room h in
    let still : length first.bytes < 2 ^ 64 = omega (arith, size, room) in
    (
      read_uint-write_uint_apart first next 8 high address 8 still k (inl apart)
          ∙ read_uint-write_uint m address 8 low room (omega (arith, a)) h,
      read_uint-write_uint first next 8 high still (omega (arith, b)) k,
    )

first_fits :
    (m : FlatMemory) (address low : ℕ)
    → length m.bytes < 2 ^ 64
    → (write_uint flat m address 8 low).0 ≡ ok tt
    → address + 8 ≤ m.base + length m.bytes
unfolding write_uint
first_fits m address low room h =
    let ((a, b), c, d) = write-shape m address (to_le 8 low) room h in
    omega (arith, b, length-to_le 8 low)

-- Where `write_timespec` succeeds, so do its two stores.
write_timespec-ok :
    (m : FlatMemory) (address nanos : ℕ)
    → let first = write_uint flat m address 8 (nanos / 1000000000) in
      let second = write_uint flat first.1 (wrapping_add address 8) 8 (nanos % 1000000000) in
      (write_timespec flat m address nanos).0 ≡ ok 0
      → (first.0 ≡ ok tt)
        × (second.0 ≡ ok tt)
        × ((write_timespec flat m address nanos).1 ≡ second.1)
unfolding write_timespec
write_timespec-ok m address nanos h =
    let first = write_uint flat m address 8 (nanos / 1000000000) in
    elim (result_cases first.0) [
      | inr (fault, failed) ↦ ground (arith, failed)
      | inl stored ↦ ground (
        arith,
        stored,
        result_cases (write_uint flat first.1 (wrapping_add address 8) 8 (nanos % 1000000000)).0,
      )
    ]

-- A guest that reads back a `timespec` that was written reads the whole seconds and the rest of the
-- clock's reading, where the memory is shorter than 2^64 bytes and ends below 2^64.
pub write_timespec-read :
    (m : FlatMemory) (address nanos : ℕ)
    → m.base + length m.bytes < 2 ^ 64
    → nanos < 2 ^ 64
    → (write_timespec flat m address nanos).0 ≡ ok 0
    → let after = (write_timespec flat m address nanos).1 in
      (read_uint flat after address 8 ≡ ok (nanos / 1000000000))
      × (read_uint flat after (wrapping_add address 8) 8 ≡ ok (nanos % 1000000000))
write_timespec-read m address nanos room small h =
    let low = nanos / 1000000000 in
    let high = nanos % 1000000000 in
    let next = wrapping_add address 8 in
    let (a, b, c) = write_timespec-ok m address nanos h in
    let fits = first_fits m address low (omega (arith, room)) a in
    subst
      (λ after. (read_uint flat after address 8 ≡ ok low) × (read_uint flat after next 8 ≡ ok high))
      (sym c)
      (two_stores m address next low high (omega (arith, room)) (omega (arith, small)) (omega arith)
        (omega (arith, fits, room)) a b)
