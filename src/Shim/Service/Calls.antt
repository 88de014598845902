-- ===== src/Shim/Service/Calls.antt =====
-- What each system call leaves as it was.
use coracle.Prelude.{
  ℕ, ◌≡◌, refl, ap, on_intro, on_both, ==_iff, ◌⊎◌, inl, inr, ◌==◌, true, ok, err,
}
use coracle.Interp.Memory.{Memory}
use coracle.Interp.Cpu.{Cpu}
use coracle.Shim.Host.{HostIo, Errno, SysResult}
use coracle.Shim.Number
use coracle.Shim.State.{Shim, record_unhandled}
use coracle.Shim.State.Log.{record_unhandled-map}
use coracle.Shim.Dispatch.{Args, to_i32}
use coracle.Shim.Dispatch.Call.{brk, mmap, answered, other}
use coracle.Shim.Service.Frame.{
  IsFramed, open_file-IsFramed, fstat-IsFramed, close-IsFramed, uname-IsFramed,
  clock_gettime-IsFramed, getrandom-IsFramed, ioctl-IsFramed, affinity-IsFramed,
}

-- What a call leaves as it was: of the CPU, all but the memory; of the shim, the map unless it is `brk`
-- or `mmap`, and the log unless the number is refused and logged.
unfoldable pub IsCall :
    {H M S : Type 0} → ℕ → Shim H → Cpu M S → SysResult × Shim H × Cpu M S → Type 0
IsCall number shim cpu (result, served, after) =
    (after ≡ record cpu { memory = after.memory })
    × ((served.map ≡ shim.map) ⊎ ((number ≡ Number.brk) ⊎ (number ≡ Number.mmap)))
    × ((served.unhandled ≡ shim.unhandled)
        ⊎ ((result ≡ err Errno.no_sys) × (served ≡ record_unhandled shim number) × (after ≡ cpu)))

module _ {H M S : Type 0} (io : HostIo H) (mem : Memory M) where
  pub IsFramed-IsCall :
      (number : ℕ) (shim : Shim H) (cpu : Cpu M S) (out : SysResult × Shim H × Cpu M S)
      → IsFramed shim cpu out
      → IsCall number shim cpu out
  unfolding IsFramed IsCall
  IsFramed-IsCall number shim cpu (result, served, after) (a, b) =
      (a, inl (ap (λ s. s.map) b), inl (ap (λ s. s.unhandled) b))

  same-IsCall :
      (number : ℕ) (shim : Shim H) (cpu : Cpu M S) (result : SysResult)
      → IsCall number shim cpu (result, shim, cpu)
  unfolding IsCall
  same-IsCall number shim cpu result = (refl, inl refl, inl refl)

  unnamed-IsCall :
      (number : ℕ) (shim : Shim H) (cpu : Cpu M S)
      → IsCall number shim cpu (err Errno.no_sys, record_unhandled shim number, cpu)
  unfolding IsCall
  unnamed-IsCall number shim cpu =
      (refl, inl (record_unhandled-map shim number), inr (refl, refl, refl))

  answered-IsCall :
      (shim : Shim H) (cpu : Cpu M S) (number : ℕ) (args : Args)
      → IsCall number shim cpu (answered io mem shim cpu number args)
  unfolding answered
  answered-IsCall shim cpu number args = on_both P _ (same (ok 0)) (
      on_both P _ (same (err Errno.no_ent)) (
        on_both P _ (same (ok 1)) (
          on_both P _ (same (ok 0)) (
            on_both P _ (same (ok 0)) (
              on_both P _ (same (ok 0)) (
                on_both P _ (same (ok 0)) (
                  on_both P _
                    (IsFramed-IsCall number shim cpu _ (affinity-IsFramed io mem shim cpu args))
                    (on_both P _ (same (err Errno.no_sys)) (
                      on_both P _ (same (err Errno.no_sys))
                        (unnamed-IsCall number shim cpu))))))))))
    where
      P : SysResult × Shim H × Cpu M S → Type 0
      P = IsCall number shim cpu

      same : (result : SysResult) → IsCall number shim cpu (result, shim, cpu)
      same = same-IsCall number shim cpu

  brk-IsCall :
      (shim : Shim H) (cpu : Cpu M S) (number : ℕ) (args : Args)
      → number == Number.brk ≡ true
      → IsCall number shim cpu (brk io mem shim cpu args)
  unfolding IsCall brk
  brk-IsCall shim cpu number args e = (refl, inr (inl ((==_iff _ _).0 e)), inl refl)

  mmap-IsCall :
      (shim : Shim H) (cpu : Cpu M S) (number : ℕ) (args : Args)
      → number == Number.mmap ≡ true
      → IsCall number shim cpu (mmap io mem shim cpu args)
  unfolding IsCall mmap
  mmap-IsCall shim cpu number args e = (refl, inr (inr ((==_iff _ _).0 e)), inl refl)

  pub other-IsCall :
      (shim : Shim H) (cpu : Cpu M S) (number : ℕ) (args : Args)
      → IsCall number shim cpu (other io mem shim cpu number args)
  unfolding other
  other-IsCall shim cpu number args = on_intro P _ (brk-IsCall shim cpu number args) λ not_brk.
      on_intro P _ (mmap-IsCall shim cpu number args) λ not_mmap.
        on_both P _ (same-IsCall number shim cpu (ok 0)) (
          on_both P _ (framed _ (open_file-IsFramed io mem shim cpu args)) (
            on_both P _ (framed _ (close-IsFramed io mem shim cpu args)) (
              on_both P _ (framed _ (fstat-IsFramed io mem shim cpu (to_i32 args.a0) args.a1)) (
                on_both P _ (framed _ (fstat-IsFramed io mem shim cpu (to_i32 args.a0) args.a2)) (
                  on_both P _ (framed _ (uname-IsFramed io mem shim cpu args)) (
                    on_both P _ (framed _ (clock_gettime-IsFramed io mem shim cpu args)) (
                      on_both P _ (framed _ (getrandom-IsFramed io mem shim cpu args)) (
                        on_both P _ (framed _ (ioctl-IsFramed io mem shim cpu args))
                          (answered-IsCall shim cpu number args)))))))))
    where
      P : SysResult × Shim H × Cpu M S → Type 0
      P = IsCall number shim cpu

      framed :
          (out : SysResult × Shim H × Cpu M S) → IsFramed shim cpu out → IsCall number shim cpu out
      framed = IsFramed-IsCall number shim cpu
