-- ===== src/Shim/Dispatch.antt =====
-- crates/core/src/shim/dispatch.rs: the system calls. The sums of counts and addresses are unchecked, so
-- they wrap in a release build. A call takes the shim and the CPU, and gives both back.
pub mod Call
pub mod Strings
pub mod Output
use coracle.Prelude.{
  ℕ, zero, suc, ◌+◌, ◌%◌, ◌^◌, min, Bool, true, false, Option, none, some, List, [], ◌∷◌, ◌++◌,
  Result, ok, err, map_err, ◌>>=◌, ◌==◌, ltb, length, replicate, take, wrapping_add, if◌then◌else◌,
}
use coracle.Interp.Memory.{Memory, read_uint, write_uint}
use coracle.Interp.Cpu.{Cpu}
use coracle.Shim.Host.{Errno, SysResult, HostIo}
use coracle.Shim.State.{Shim}
use coracle.Shim.Structs.{to_fault, write_stat, read_iovec}

pub data Outcome : Type 0 where
  returned : (result : SysResult) → Outcome
  exited : (status : ℕ) → Outcome

-- `args: &[u64; 6]`.
pub record Args : Type 0 where
  pub a0 : ℕ
  pub a1 : ℕ
  pub a2 : ℕ
  pub a3 : ℕ
  pub a4 : ℕ
  pub a5 : ℕ

abbrev pub max_transfer : ℕ
max_transfer = 2 ^ 20

abbrev pub max_path : ℕ
max_path = 4096

-- `as i32`.
abbrev pub to_i32 : ℕ → ℕ
to_i32 value = value % 2 ^ 32

abbrev pub Called : Type 0 → Type 0 → Type 0 → Type 0
Called H M S = SysResult × Shim H × Cpu M S

-- `map(|()| 0)`.
abbrev pub zero_of : Result Errno (Unit {0}) → SysResult
zero_of r = do done ← r; ok 0

-- The loop of `read_c_string` from `offset` on, with `left` bytes that it may still read.
module _ {M : Type 0} (mem : Memory M) where
  unfoldable pub read_from : M → ℕ → ℕ → ℕ → List ℕ → Result Errno (List ℕ)
  read_from memory address zero offset bytes = err Errno.inval
  read_from memory address (suc left) offset bytes =
      elim (to_fault (read_uint mem memory (wrapping_add address offset) 1)) [
        | err e ↦ err e
        | ok zero ↦ ok bytes
        | ok (suc byte) ↦ read_from memory address left (offset + 1) (bytes ++ suc byte ∷ [])
      ]

  unfoldable pub read_c_string : M → ℕ → Result Errno (List ℕ)
  unfolding read_from
  read_c_string memory address = read_from memory address max_path 0 []

module _ {H M S : Type 0} (io : HostIo H) (mem : Memory M) where
  unfoldable pub transfer_out : Shim H → Cpu M S → ℕ → ℕ × ℕ → Called H M S
  transfer_out shim cpu fd (address, len) =
      elim (mem.read cpu.memory address (min len max_transfer)) [
        | err fault ↦ (err Errno.fault, shim, cpu)
        | ok bytes ↦
            let written = io.write shim.host fd bytes in
            (written.0, record shim { host = written.1 }, cpu)
      ]

  unfoldable pub write : Shim H → Cpu M S → Args → Called H M S
  unfolding transfer_out
  write shim cpu args = transfer_out shim cpu (to_i32 args.a0) (args.a1, args.a2)

  -- The loop of `writev` from `index` on, with `left` vectors to go and `written` bytes written.
  unfoldable pub writev_from : Shim H → Cpu M S → Args → (left index written : ℕ) → Called H M S
  unfolding transfer_out
  writev_from shim cpu args zero index written = (ok written, shim, cpu)
  writev_from shim cpu args (suc left) index written =
      elim (read_iovec mem cpu.memory args.a1 index) [
        | err e ↦ (err e, shim, cpu)
        | ok vector ↦ elim (vector.len == 0) [
          | true ↦ writev_from shim cpu args left (index + 1) written
          | false ↦
              let out = transfer_out shim cpu (to_i32 args.a0) (vector.base, vector.len) in
              elim out.0 [
                | err e ↦ (err e, out.1, out.2)
                | ok count ↦ elim (ltb count vector.len) [
                  | true ↦ (ok (wrapping_add written count), out.1, out.2)
                  | false ↦
                      writev_from out.1 out.2 args left (index + 1) (wrapping_add written count)
                ]
              ]
        ]
      ]

  unfoldable pub writev : Shim H → Cpu M S → Args → Called H M S
  unfolding writev_from
  writev shim cpu args = writev_from shim cpu args args.a2 0 0

  unfoldable pub transfer_in : Shim H → Cpu M S → ℕ → ℕ × ℕ → Called H M S
  transfer_in shim cpu fd (address, len) =
      let (result, bytes, host) = io.read shim.host fd (replicate (min len max_transfer) 0) in
      let after = record shim { host = host } in
      elim result [
        | err e ↦ (err e, after, cpu)
        | ok count ↦
            let written = mem.write cpu.memory address (take count bytes) in
            ((do done ← to_fault written.0; ok count), after, record cpu { memory = written.1 })
      ]

  unfoldable pub read : Shim H → Cpu M S → Args → Called H M S
  unfolding transfer_in
  read shim cpu args = transfer_in shim cpu (to_i32 args.a0) (args.a1, args.a2)

  unfoldable pub readv_from : Shim H → Cpu M S → Args → (left index total : ℕ) → Called H M S
  unfolding transfer_in
  readv_from shim cpu args zero index total = (ok total, shim, cpu)
  readv_from shim cpu args (suc left) index total = elim (read_iovec mem cpu.memory args.a1 index) [
    | err e ↦ (err e, shim, cpu)
    | ok vector ↦
        let out = transfer_in shim cpu (to_i32 args.a0) (vector.base, vector.len) in
        elim out.0 [
          | err e ↦ (err e, out.1, out.2)
          | ok count ↦ elim (ltb count vector.len) [
            | true ↦ (ok (wrapping_add total count), out.1, out.2)
            | false ↦ readv_from out.1 out.2 args left (index + 1) (wrapping_add total count)
          ]
        ]
  ]

  unfoldable pub readv : Shim H → Cpu M S → Args → Called H M S
  unfolding readv_from
  readv shim cpu args = readv_from shim cpu args args.a2 0 0

  unfoldable pub open_file : Shim H → Cpu M S → Args → Called H M S
  unfolding read_c_string
  open_file shim cpu args = elim (read_c_string mem cpu.memory args.a1) [
    | err e ↦ (err e, shim, cpu)
    | ok path ↦
        let opened = io.open_path shim.host path args.a2 in
        (opened.0, record shim { host = opened.1 }, cpu)
  ]

  unfoldable pub fstat : Shim H → Cpu M S → (fd address : ℕ) → Called H M S
  unfolding write_stat
  fstat shim cpu fd address =
      let (result, sized) = io.size_of shim.host fd in
      elim result [
        | err e ↦ (err e, record shim { host = sized }, cpu)
        | ok size ↦
            let (terminal, asked) = io.is_terminal sized fd in
            let written = write_stat mem cpu.memory address (terminal, size) in
            (zero_of written.0, record shim { host = asked }, record cpu { memory = written.1 })
      ]

  unfoldable pub getrandom : Shim H → Cpu M S → Args → Called H M S
  getrandom shim cpu args =
      let len = min args.a1 max_transfer in
      let (bytes, host) = io.random shim.host (replicate len 0) in
      let written = mem.write cpu.memory args.a0 bytes in
      (
        (do done ← to_fault written.0; ok len),
        record shim { host = host },
        record cpu { memory = written.1 },
      )

  unfoldable pub ioctl : Shim H → Cpu M S → Args → Called H M S
  ioctl shim cpu args =
      let (terminal, host) = io.is_terminal shim.host (to_i32 args.a0) in
      ((if terminal then ok 0 else err Errno.no_tty), record shim { host = host }, cpu)

  unfoldable pub affinity : Shim H → Cpu M S → Args → Called H M S
  affinity shim cpu args =
      let written = write_uint mem cpu.memory args.a2 8 1 in
      if ltb args.a1 8
      then (err Errno.inval, shim, cpu)
      else ((do done ← to_fault written.0; ok 8), shim, record cpu { memory = written.1 })
