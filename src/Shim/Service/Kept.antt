-- ===== src/Shim/Service/Kept.antt =====
-- What `service` leaves as it was, and when it ends the guest.
use coracle.Prelude.{
  ℕ, ◌≡◌, ◌≢◌, ◌⊎◌, inl, inr, refl, sym, ap, ◌∙◌, arith, on_intro, on_both, Option, none, some,
}
use coracle.Reg.{Gpr}
use coracle.RegFile.{read_x, write_x}
use coracle.RegFile.Access.{read_x-write_x_ne}
use coracle.Interp.Memory.{Memory}
use coracle.Interp.Cpu.{Cpu}
use coracle.Trace.{TraceSink}
use coracle.Shim.Host.{HostIo, SysResult}
use coracle.Shim.Number
use coracle.Shim.State.{Shim, record_unhandled}
use coracle.Shim.Dispatch.{Outcome, Args, to_i32, write, writev, read, readv}
use coracle.Shim.Dispatch.Call.{call, returning}
use coracle.Shim.Service.{service, serviced, args_of, value_of}
use coracle.Shim.Service.Frame.{
  IsFramed, transfer_out-IsFramed, writev_from-IsFramed, transfer_in-IsFramed, readv_from-IsFramed,
}
use coracle.Shim.Service.Calls.{IsCall, IsFramed-IsCall, other-IsCall}

-- What `service` leaves as it was, where the number of the call is `number`.
unfoldable pub IsServed :
    {H M S : Type 0} → ℕ → Shim H → Cpu M S → Option ℕ × Shim H × Cpu M S → Type 0
IsServed number shim cpu (status, served, after) =
    (after ≡ record cpu { regs = after.regs; memory = after.memory })
    × (after.regs.pc ≡ cpu.regs.pc)
    × ((g : Gpr) → g ≢ Gpr.x 0 → read_x after.regs g ≡ read_x cpu.regs g)
    × ((served.map ≡ shim.map) ⊎ ((number ≡ Number.brk) ⊎ (number ≡ Number.mmap)))
    × ((served.unhandled ≡ shim.unhandled)
        ⊎ (served.unhandled ≡ (record_unhandled shim number).unhandled))
    × ((status ≡ none)
        ⊎ ((number ≡ Number.exit) ⊎ (number ≡ Number.exit_group))
          × (status ≡ some (to_i32 (read_x cpu.regs (Gpr.x 0))))
          × (after ≡ cpu))

module _ {H M S : Type 0} (io : HostIo H) (mem : Memory M) (tr : TraceSink S) where
  returned-IsServed :
      (number : ℕ) (shim : Shim H) (cpu : Cpu M S) (out : SysResult × Shim H × Cpu M S)
      → IsCall number shim cpu out
      → IsServed number shim cpu (serviced io mem tr (returning io mem out))
  unfolding IsCall IsServed serviced write_x
  returned-IsServed number shim cpu (result, served, after) (a, b, c) = (
    ap {A = Cpu M S} (λ k. record k { regs = write_x after.regs (Gpr.x 0) (value_of result) }) a,
    ap (λ k. k.regs.pc) a,
    λ g ne.
        read_x-write_x_ne after.regs (Gpr.x 0) g (value_of result) (λ e. ne (sym e))
        ∙ ap (λ k. read_x k.regs g) a,
    b,
    elim c [ inl same ↦ inl same | inr (_, logged, _) ↦ inr (ap (λ s. s.unhandled) logged) ],
    inl refl,
  )

  exited-IsServed :
      (number : ℕ) (shim : Shim H) (cpu : Cpu M S)
      → (number ≡ Number.exit) ⊎ (number ≡ Number.exit_group)
      → IsServed number shim cpu
          (serviced io mem tr (Outcome.exited (to_i32 (read_x cpu.regs (Gpr.x 0))), shim, cpu))
  unfolding IsServed serviced
  exited-IsServed number shim cpu h =
      (refl, refl, λ g ne. refl, inl refl, inl refl, inr (h, refl, refl))

  call-IsServed :
      (shim : Shim H) (cpu : Cpu M S) (number : ℕ)
      → IsServed number shim cpu
          (serviced io mem tr (call io mem shim cpu number (args_of io mem tr cpu)))
  unfolding call write writev read readv
  call-IsServed shim cpu number =
      on_intro P _ (λ e. exited-IsServed number shim cpu (grind arith))
        λ not_exit.
          on_both P _
            (framed (write io mem shim cpu args)
              (transfer_out-IsFramed io mem shim cpu (to_i32 args.a0) (args.a1, args.a2)))
            (on_both P _
              (framed (writev io mem shim cpu args)
                (writev_from-IsFramed io mem shim cpu args args.a2 0 0))
              (on_both P _
                (framed (read io mem shim cpu args)
                  (transfer_in-IsFramed io mem shim cpu (to_i32 args.a0) (args.a1, args.a2)))
                (on_both P _
                  (framed (readv io mem shim cpu args)
                    (readv_from-IsFramed io mem shim cpu args args.a2 0 0))
                  (returned-IsServed number shim cpu _
                    (other-IsCall io mem shim cpu number args)))))
    where
      args : Args
      args = args_of io mem tr cpu

      P : Outcome × Shim H × Cpu M S → Type 0
      P out = IsServed number shim cpu (serviced io mem tr out)

      framed :
          (out : SysResult × Shim H × Cpu M S)
          → IsFramed shim cpu out
          → IsServed number shim cpu (serviced io mem tr (returning io mem out))
      framed out h =
          returned-IsServed number shim cpu out (IsFramed-IsCall io mem number shim cpu out h)

  -- Serving a system call leaves the CPU as it was but for its registers and its memory, and of the
  -- registers all but X0, the PC included; it leaves the memory map as it was unless the call is `brk`
  -- or `mmap`, and the log unless it logs that number; and it ends the guest only for `exit` and
  -- `exit_group`, with the status from X0 and the CPU untouched.
  pub service-kept :
      (shim : Shim H) (cpu : Cpu M S)
      → IsServed (read_x cpu.regs (Gpr.x 8)) shim cpu (service io mem tr shim cpu)
  unfolding service
  service-kept shim cpu = call-IsServed shim cpu (read_x cpu.regs (Gpr.x 8))
