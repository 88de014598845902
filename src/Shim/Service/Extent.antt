-- ===== src/Shim/Service/Extent.antt =====
-- That no system call moves the end of the memory.
use coracle.Prelude.{
  ℕ, zero, suc, ◌+◌, ◌≡◌, inl, inr, refl, ◌∙◌, arith, on_both, List, [], ◌∷◌, ok_or_err,
}
use coracle.Reg.{Gpr}
use coracle.RegFile.{read_x}
use coracle.Interp.Memory.{Memory, write_uint}
use coracle.Interp.Cpu.{Cpu}
use coracle.Interp.Memory.Extent.{Extent}
use coracle.Trace.{TraceSink}
use coracle.Shim.Host.{HostIo}
use coracle.Shim.State.{Shim}
use coracle.Shim.Structs.{write_fields, write_utsname, write_timespec, write_stat}
use coracle.Shim.Dispatch.{
  Outcome, Args, Called, to_i32, transfer_out, write, writev_from, writev, transfer_in, read,
  readv_from, readv, ioctl, open_file, read_c_string, fstat, getrandom, affinity,
}
use coracle.Shim.Dispatch.Call.{call, other, answered, brk, mmap, close, uname, clock_gettime}
use coracle.Shim.Service.{service, serviced, args_of}

module _ {H M S : Type 0} (io : HostIo H) (mem : Memory M) (tr : TraceSink S)
    (ext : Extent mem) where
  abbrev Kept : Cpu M S → Cpu M S → Type 0
  Kept cpu after = ext.top after.memory ≡ ext.top cpu.memory

  write_fields-top :
      (m : M) (address index : ℕ) (fields : List (List ℕ))
      → ext.top (write_fields mem m address index fields).1 ≡ ext.top m
  unfolding write_fields
  write_fields-top m address index [] = refl
  write_fields-top m address index (field ∷ fields) =
      go λ next. write_fields-top next address (index + 1) fields
    where
      go :
          ((next : M) → ext.top (write_fields mem next address (index + 1) fields).1 ≡ ext.top next)
          → ext.top (write_fields mem m address index (field ∷ fields)).1 ≡ ext.top m
      go more = grind (arith, ext.top_write, more, write_fields)

  uname-top :
      (shim : Shim H) (cpu : Cpu M S) (args : Args) → Kept cpu (uname io mem shim cpu args).2
  unfolding uname write_utsname
  uname-top shim cpu args = grind (arith, ext.top_write, write_fields-top)

  clock_gettime-top :
      (shim : Shim H) (cpu : Cpu M S) (args : Args)
      → Kept cpu (clock_gettime io mem shim cpu args).2
  unfolding clock_gettime write_timespec write_uint
  clock_gettime-top shim cpu args = grind (arith, ext.top_write)

  fstat-top :
      (shim : Shim H) (cpu : Cpu M S) (fd address : ℕ)
      → Kept cpu (fstat io mem shim cpu fd address).2
  unfolding fstat write_stat
  fstat-top shim cpu fd address = grind (arith, ext.top_write)

  affinity-top :
      (shim : Shim H) (cpu : Cpu M S) (args : Args) → Kept cpu (affinity io mem shim cpu args).2
  unfolding affinity write_uint
  affinity-top shim cpu args = grind (arith, ext.top_write)

  open_file-top :
      (shim : Shim H) (cpu : Cpu M S) (args : Args) → Kept cpu (open_file io mem shim cpu args).2
  unfolding open_file
  open_file-top shim cpu args = elim (ok_or_err (read_c_string mem cpu.memory args.a1)) [
    | inr (e, eq) ↦ rw (open_file, eq) refl
    | inl (path, eq) ↦ rw (open_file, eq) refl
  ]

  transfer_out-top :
      (shim : Shim H) (cpu : Cpu M S) (fd : ℕ) (buffer : ℕ × ℕ)
      → Kept cpu (transfer_out io mem shim cpu fd buffer).2
  unfolding transfer_out
  transfer_out-top shim cpu fd (address, len) = ground arith

  transfer_in-top :
      (shim : Shim H) (cpu : Cpu M S) (fd : ℕ) (buffer : ℕ × ℕ)
      → Kept cpu (transfer_in io mem shim cpu fd buffer).2
  unfolding transfer_in
  transfer_in-top shim cpu fd (address, len) = grind (arith, ext.top_write)

  writev_from-top :
      (shim : Shim H) (cpu : Cpu M S) (args : Args) (left index written : ℕ)
      → Kept cpu (writev_from io mem shim cpu args left index written).2
  unfolding writev_from
  writev_from-top shim cpu args zero index written = refl
  writev_from-top shim cpu args (suc left) index written =
      go λ s c i n. writev_from-top s c args left i n
    where
      go :
          ((s : Shim H) (c : Cpu M S) (i n : ℕ) → Kept c (writev_from io mem s c args left i n).2)
          → Kept cpu (writev_from io mem shim cpu args (suc left) index written).2
      go more = grind (arith, transfer_out-top, more, writev_from)

  readv_from-top :
      (shim : Shim H) (cpu : Cpu M S) (args : Args) (left index total : ℕ)
      → Kept cpu (readv_from io mem shim cpu args left index total).2
  unfolding readv_from
  readv_from-top shim cpu args zero index total = refl
  readv_from-top shim cpu args (suc left) index total =
      go λ s c i n. readv_from-top s c args left i n
    where
      go :
          ((s : Shim H) (c : Cpu M S) (i n : ℕ) → Kept c (readv_from io mem s c args left i n).2)
          → Kept cpu (readv_from io mem shim cpu args (suc left) index total).2
      go more = grind (arith, transfer_in-top, more, readv_from)

  answered-top :
      (shim : Shim H) (cpu : Cpu M S) (number : ℕ) (args : Args)
      → Kept cpu (answered io mem shim cpu number args).2
  unfolding answered
  answered-top shim cpu number args = on_both P _ refl (
      on_both P _ refl (
        on_both P _ refl (
          on_both P _ refl (
            on_both P _ refl (
              on_both P _ refl (
                on_both P _ refl (
                  on_both P _ (affinity-top shim cpu args)
                    (on_both P _ refl (on_both P _ refl refl)))))))))
    where
      P : Called H M S → Type 0
      P out = Kept cpu out.2

  other-top :
      (shim : Shim H) (cpu : Cpu M S) (number : ℕ) (args : Args)
      → Kept cpu (other io mem shim cpu number args).2
  unfolding other brk mmap close ioctl getrandom
  other-top shim cpu number args = on_both P _ refl (
      on_both P _ refl (
        on_both P _ refl (
          on_both P _ (open_file-top shim cpu args) (
            on_both P _ refl (
              on_both P _ (fstat-top shim cpu (to_i32 args.a0) args.a1) (
                on_both P _ (fstat-top shim cpu (to_i32 args.a0) args.a2) (
                  on_both P _ (uname-top shim cpu args) (
                    on_both P _ (clock_gettime-top shim cpu args) (
                      on_both P _ (ext.top_write cpu.memory args.a0 _)
                        (on_both P _ refl (answered-top shim cpu number args)))))))))))
    where
      P : Called H M S → Type 0
      P out = Kept cpu out.2

  call-top :
      (shim : Shim H) (cpu : Cpu M S) (number : ℕ) (args : Args)
      → Kept cpu (call io mem shim cpu number args).2
  unfolding call write writev read readv
  call-top shim cpu number args = on_both P _ refl (
      on_both P _ (transfer_out-top shim cpu (to_i32 args.a0) (args.a1, args.a2)) (
        on_both P _ (writev_from-top shim cpu args args.a2 0 0) (
          on_both P _ (transfer_in-top shim cpu (to_i32 args.a0) (args.a1, args.a2)) (
            on_both P _ (readv_from-top shim cpu args args.a2 0 0)
              (other-top shim cpu number args)))))
    where
      P : Outcome × Shim H × Cpu M S → Type 0
      P out = Kept cpu out.2

  serviced-top :
      (out : Outcome × Shim H × Cpu M S)
      → ext.top (serviced io mem tr out).2.memory ≡ ext.top out.2.memory
  unfolding serviced
  serviced-top (Outcome.returned result, shim, cpu) = refl
  serviced-top (Outcome.exited status, shim, cpu) = refl

  pub service-top :
      (shim : Shim H) (cpu : Cpu M S)
      → ext.top (service io mem tr shim cpu).2.memory ≡ ext.top cpu.memory
  unfolding service
  service-top shim cpu =
      serviced-top (call io mem shim cpu (read_x cpu.regs (Gpr.x 8)) (args_of io mem tr cpu))
      ∙ call-top shim cpu (read_x cpu.regs (Gpr.x 8)) (args_of io mem tr cpu)
