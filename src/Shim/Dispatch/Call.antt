-- ===== src/Shim/Dispatch/Call.antt =====
-- `call` and `other` of crates/core/src/shim/dispatch.rs: the match over the number of the system call,
-- its arms in the order of the source.
use coracle.Prelude.{ℕ, ◌||◌, none, some, ok, err, ◌==◌, on◌then◌else◌}
use coracle.Interp.Memory.{Memory}
use coracle.Interp.Cpu.{Cpu}
use coracle.Shim.MemoryMap
use coracle.Shim.Host.{Errno, HostIo}
use coracle.Shim.Number
use coracle.Shim.State.{Shim, record_unhandled}
use coracle.Shim.Structs.{write_utsname, write_timespec}
use coracle.Shim.Dispatch.{
  Outcome, Args, Called, to_i32, zero_of, write, writev, read, readv, open_file, fstat, getrandom,
  ioctl, affinity,
}

module _ {H M S : Type 0} (io : HostIo H) (mem : Memory M) where
  -- `Ok(shim.map.set_brk(args[0]))`.
  unfoldable pub brk : Shim H → Cpu M S → Args → Called H M S
  brk shim cpu args =
      let (value, map) = MemoryMap.set_brk shim.map args.a0 in
      (ok value, record shim { map = map }, cpu)

  -- `shim.map.map(args[1]).ok_or(Errno::NoMem)`.
  unfoldable pub mmap : Shim H → Cpu M S → Args → Called H M S
  mmap shim cpu args =
      let (base, map) = MemoryMap.map shim.map args.a1 in
      (
        elim base [ none ↦ err Errno.no_mem | some address ↦ ok address ],
        record shim { map = map },
        cpu,
      )

  unfoldable pub close : Shim H → Cpu M S → Args → Called H M S
  close shim cpu args =
      let (result, host) = io.close shim.host (to_i32 args.a0) in
      (result, record shim { host = host }, cpu)

  unfoldable pub uname : Shim H → Cpu M S → Args → Called H M S
  unfolding write_utsname
  uname shim cpu args =
      let (result, memory) = write_utsname mem cpu.memory args.a0 in
      (zero_of result, shim, record cpu { memory = memory })

  unfoldable pub clock_gettime : Shim H → Cpu M S → Args → Called H M S
  unfolding write_timespec
  clock_gettime shim cpu args =
      let (nanos, host) = io.monotonic_nanos shim.host in
      let (result, memory) = write_timespec mem cpu.memory args.a1 nanos in
      (result, record shim { host = host }, record cpu { memory = memory })

  -- The arms of `other` from `LSEEK` on, which touch no guest memory but for the affinity mask.
  unfoldable pub answered : Shim H → Cpu M S → ℕ → Args → Called H M S
  unfolding affinity record_unhandled
  answered shim cpu number args =
      on number == Number.lseek
      then (ok 0, shim, cpu)
      else on number == Number.faccessat || number == Number.readlinkat || number == Number.getcwd
      then (err Errno.no_ent, shim, cpu)
      else on number == Number.set_tid_address || number == Number.gettid || number == Number.getpid
      then (ok 1, shim, cpu)
      else on number == Number.set_robust_list
          || number == Number.rseq
          || number == Number.prlimit64
      then (ok 0, shim, cpu)
      else on number == Number.rt_sigaction
          || number == Number.rt_sigprocmask
          || number == Number.fcntl
      then (ok 0, shim, cpu)
      else on number == Number.getppid
      then (ok 0, shim, cpu)
      else on number == Number.getuid
          || number == Number.geteuid
          || number == Number.getgid
          || number == Number.getegid
      then (ok 0, shim, cpu)
      else on number == Number.sched_getaffinity
      then affinity io mem shim cpu args
      else on number == Number.clone || number == Number.futex
      then (err Errno.no_sys, shim, cpu)
      else on number == Number.execve || number == Number.wait4 || number == Number.tgkill
      then (err Errno.no_sys, shim, cpu)
      else (err Errno.no_sys, record_unhandled shim number, cpu)

  unfoldable pub other : Shim H → Cpu M S → ℕ → Args → Called H M S
  unfolding answered brk mmap open_file close fstat uname clock_gettime getrandom ioctl
  other shim cpu number args =
      on number == Number.brk
      then brk shim cpu args
      else on number == Number.mmap
      then mmap shim cpu args
      else on number == Number.munmap || number == Number.mprotect || number == Number.madvise
      then (ok 0, shim, cpu)
      else on number == Number.openat
      then open_file io mem shim cpu args
      else on number == Number.close
      then close shim cpu args
      else on number == Number.fstat
      then fstat io mem shim cpu (to_i32 args.a0) args.a1
      else on number == Number.newfstatat
      then fstat io mem shim cpu (to_i32 args.a0) args.a2
      else on number == Number.uname
      then uname shim cpu args
      else on number == Number.clock_gettime
      then clock_gettime shim cpu args
      else on number == Number.getrandom
      then getrandom io mem shim cpu args
      else on number == Number.ioctl
      then ioctl io mem shim cpu args
      else answered shim cpu number args

  abbrev pub returning : Called H M S → Outcome × Shim H × Cpu M S
  returning (result, shim, cpu) = (Outcome.returned result, shim, cpu)

  unfoldable pub call : Shim H → Cpu M S → ℕ → Args → Outcome × Shim H × Cpu M S
  unfolding write writev read readv other
  call shim cpu number args =
      on number == Number.exit || number == Number.exit_group
      then (Outcome.exited (to_i32 args.a0), shim, cpu)
      else on number == Number.write
      then returning (write io mem shim cpu args)
      else on number == Number.writev
      then returning (writev io mem shim cpu args)
      else on number == Number.read
      then returning (read io mem shim cpu args)
      else on number == Number.readv
      then returning (readv io mem shim cpu args)
      else returning (other shim cpu number args)
