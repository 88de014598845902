-- ===== src/Shim/Structs.antt =====
-- crates/core/src/shim/structs.rs: the structures of the kernel that the shim reads and writes. The
-- sums of addresses are unchecked, so they wrap in a release build.
pub mod Clock
use coracle.Prelude.{
  ℕ, ◌+◌, ◌*◌, ◌/◌, ◌%◌, Bool, List, [], ◌∷◌, Result, ok, err, map_err, ◌>>=◌, replicate,
  wrapping_add, if◌then◌else◌,
}
use coracle.Interp.Memory.{Memory, AccessFault, read_uint, write_uint}
use coracle.Interp.Memory.Bytes.{to_le}
use coracle.Interp.Memory.Flat.{splice}
use coracle.Shim.Host.{Errno, SysResult}

abbrev pub stat_bytes : ℕ
stat_bytes = 128

abbrev pub utsname_bytes : ℕ
utsname_bytes = 390

abbrev pub iovec_bytes : ℕ
iovec_bytes = 16

abbrev utsname_field_bytes : ℕ
utsname_field_bytes = 65

-- `0o020_666`.
abbrev pub mode_character_device : ℕ
mode_character_device = 8630

-- `0o100_644`.
abbrev pub mode_regular_file : ℕ
mode_regular_file = 33188

-- `|_| Errno::Fault`.
abbrev pub to_fault {ℓ} : {A : Type ℓ} → Result AccessFault A → Result Errno A
to_fault = map_err (λ fault. Errno.fault)

-- The buffer that `write_stat` fills.
unfoldable pub stat_buffer : Bool → ℕ → List ℕ
unfolding splice
stat_buffer is_terminal size =
    let mode = if is_terminal then mode_character_device else mode_regular_file in
    let with_mode = splice (replicate stat_bytes 0) 16 (to_le 4 mode) in
    let with_size = splice with_mode 48 (to_le 8 size) in
    let with_blksize = splice with_size 56 (to_le 4 4096) in
    splice with_blksize 64 (to_le 8 ((size + 511) / 512))

-- The fields of `struct utsname`, as bytes of text.
abbrev fields : List (List ℕ)
fields =
    (76 ∷ 105 ∷ 110 ∷ 117 ∷ 120 ∷ [])
    ∷ (99 ∷ 111 ∷ 114 ∷ 97 ∷ 99 ∷ 108 ∷ 101 ∷ [])
    ∷ (54 ∷ 46 ∷ 49 ∷ 50 ∷ 46 ∷ 48 ∷ [])
    ∷ (35 ∷ 49 ∷ 32 ∷ 83 ∷ 77 ∷ 80 ∷ 32 ∷ 99 ∷ 111 ∷ 114 ∷ 97 ∷ 99 ∷ 108 ∷ 101 ∷ [])
    ∷ (97 ∷ 97 ∷ 114 ∷ 99 ∷ 104 ∷ 54 ∷ 52 ∷ [])
    ∷ (40 ∷ 110 ∷ 111 ∷ 110 ∷ 101 ∷ 41 ∷ [])
    ∷ []

pub record IoVec : Type 0 where
  pub base : ℕ
  pub len : ℕ

module _ {M : Type 0} (mem : Memory M) where
  unfoldable pub write_stat : M → ℕ → Bool × ℕ → Result Errno (Unit {0}) × M
  unfolding stat_buffer
  write_stat memory address (is_terminal, size) =
      let written = mem.write memory address (stat_buffer is_terminal size) in
      (to_fault written.0, written.1)

  -- The loop over the fields from the one at `index` on.
  unfoldable pub write_fields : M → ℕ → ℕ → List (List ℕ) → Result AccessFault (Unit {0}) × M
  unfolding splice
  write_fields memory address index [] = (ok tt, memory)
  write_fields memory address index (field ∷ rest) =
      let padded = splice (replicate utsname_field_bytes 0) 0 field in
      let offset = wrapping_add address (index * utsname_field_bytes) in
      let written = mem.write memory offset padded in
      elim written.0 [
        | err fault ↦ (err fault, written.1)
        | ok done ↦ write_fields written.1 address (index + 1) rest
      ]

  unfoldable pub write_utsname : M → ℕ → Result Errno (Unit {0}) × M
  unfolding write_fields
  write_utsname memory address =
      let zeroed = mem.write memory address (replicate utsname_bytes 0) in
      elim zeroed.0 [
        | err fault ↦ (err Errno.fault, zeroed.1)
        | ok done ↦
            let written = write_fields zeroed.1 address 0 fields in (to_fault written.0, written.1)
      ]

  unfoldable pub read_iovec : M → ℕ → ℕ → Result Errno IoVec
  read_iovec memory address index =
      let entry = wrapping_add address (index * iovec_bytes) in
      do
        base ← to_fault (read_uint mem memory entry 8)
        len ← to_fault (read_uint mem memory (wrapping_add entry 8) 8)
        ok (record { base = base; len = len })

  unfoldable pub write_timespec : M → ℕ → ℕ → SysResult × M
  write_timespec memory address nanos =
      let seconds = write_uint mem memory address 8 (nanos / 1000000000) in
      elim seconds.0 [
        | err fault ↦ (err Errno.fault, seconds.1)
        | ok done ↦
            let rest = write_uint mem seconds.1 (wrapping_add address 8) 8 (nanos % 1000000000) in
            (map_err (λ fault. Errno.fault) (do done ← rest.0; ok 0), rest.1)
      ]
