-- ===== src/Shim/Service/Frame.antt =====
-- What a system call leaves as it was.
use coracle.Prelude.{
  ℕ, zero, suc, ◌+◌, ◌≡◌, refl, ap, ◌∙◌, arith, ok_or_err, Bool-cases, inl, inr, ◌==◌, ltb,
  wrapping_add,
}
use coracle.Interp.Memory.{Memory}
use coracle.Interp.Cpu.{Cpu}
use coracle.Shim.Host.{HostIo}
use coracle.Shim.State.{Shim}
use coracle.Shim.Structs.{read_iovec}
use coracle.Shim.Dispatch.{
  Args, to_i32, transfer_out, writev_from, transfer_in, readv_from, open_file, fstat, getrandom,
  ioctl, affinity, read_c_string,
}
use coracle.Shim.Dispatch.Call.{close, uname, clock_gettime}

-- The CPU after is the one before but for its memory, and the shim but for its host.
unfoldable pub IsFramed : {R H M S : Type 0} → Shim H → Cpu M S → R × Shim H × Cpu M S → Type 0
IsFramed shim cpu (result, served, after) =
    (after ≡ record cpu { memory = after.memory }) × (served ≡ record shim { host = served.host })

IsFramed-trans :
    {R Q H M S : Type 0} (shim : Shim H) (cpu : Cpu M S) (first : R × Shim H × Cpu M S)
    (out : Q × Shim H × Cpu M S)
    → IsFramed shim cpu first
    → IsFramed first.1 first.2 out
    → IsFramed shim cpu out
unfolding IsFramed
IsFramed-trans shim cpu (r, s, c) (q, t, d) (a, b) (e, f) = (
  e ∙ ap {A = Cpu _ _} (λ x. record x { memory = d.memory }) a,
  f ∙ ap {A = Shim _} (λ x. record x { host = t.host }) b,
)

module _ {H M S : Type 0} (io : HostIo H) (mem : Memory M) where
  pub transfer_out-IsFramed :
      (shim : Shim H) (cpu : Cpu M S) (fd : ℕ) (buffer : ℕ × ℕ)
      → IsFramed shim cpu (transfer_out io mem shim cpu fd buffer)
  unfolding transfer_out IsFramed
  transfer_out-IsFramed shim cpu fd (address, len) = ground arith

  pub transfer_in-IsFramed :
      (shim : Shim H) (cpu : Cpu M S) (fd : ℕ) (buffer : ℕ × ℕ)
      → IsFramed shim cpu (transfer_in io mem shim cpu fd buffer)
  unfolding transfer_in IsFramed
  transfer_in-IsFramed shim cpu fd (address, len) = ground arith

  -- The two loops go on from where a transfer ended.
  pub writev_from-IsFramed :
      (shim : Shim H) (cpu : Cpu M S) (args : Args) (left index written : ℕ)
      → IsFramed shim cpu (writev_from io mem shim cpu args left index written)
  unfolding writev_from IsFramed
  writev_from-IsFramed shim cpu args zero index written = (refl, refl)
  writev_from-IsFramed shim cpu args (suc left) index written =
      elim (ok_or_err (read_iovec mem cpu.memory args.a1 index)) [
        | inr (e, eq) ↦ rw (writev_from, eq) (refl, refl)
        | inl (vector, eq) ↦
            let out = transfer_out io mem shim cpu (to_i32 args.a0) (vector.base, vector.len) in
            let moved = transfer_out-IsFramed shim cpu (to_i32 args.a0) (vector.base, vector.len) in
            rw (writev_from, eq)
              (elim (Bool-cases (vector.len == 0)) [
                | inl empty ↦ rw empty (writev_from-IsFramed shim cpu args left (index + 1) written)
                | inr some_bytes ↦ rw some_bytes (elim (ok_or_err out.0) [
                  | inr (e, failed) ↦ rw failed moved
                  | inl (count, done) ↦ rw done (elim (Bool-cases (ltb count vector.len)) [
                    | inl short ↦ rw short moved
                    | inr full ↦
                        let after = wrapping_add written count in
                        let rest = writev_from io mem out.1 out.2 args left (index + 1) after in
                        rw full (
                          IsFramed-trans shim cpu out rest moved
                            (writev_from-IsFramed out.1 out.2 args left (index + 1) after))
                  ])
                ])
              ])
      ]

  pub readv_from-IsFramed :
      (shim : Shim H) (cpu : Cpu M S) (args : Args) (left index total : ℕ)
      → IsFramed shim cpu (readv_from io mem shim cpu args left index total)
  unfolding readv_from IsFramed
  readv_from-IsFramed shim cpu args zero index total = (refl, refl)
  readv_from-IsFramed shim cpu args (suc left) index total =
      elim (ok_or_err (read_iovec mem cpu.memory args.a1 index)) [
        | inr (e, eq) ↦ rw (readv_from, eq) (refl, refl)
        | inl (vector, eq) ↦
            let out = transfer_in io mem shim cpu (to_i32 args.a0) (vector.base, vector.len) in
            let moved = transfer_in-IsFramed shim cpu (to_i32 args.a0) (vector.base, vector.len) in
            rw (readv_from, eq)
              (elim (ok_or_err out.0) [
                | inr (e, failed) ↦ rw failed moved
                | inl (count, done) ↦ rw done (elim (Bool-cases (ltb count vector.len)) [
                  | inl short ↦ rw short moved
                  | inr full ↦
                      let after = wrapping_add total count in
                      let rest = readv_from io mem out.1 out.2 args left (index + 1) after in
                      rw full (
                        IsFramed-trans shim cpu out rest moved
                          (readv_from-IsFramed out.1 out.2 args left (index + 1) after))
                ])
              ])
      ]

  pub open_file-IsFramed :
      (shim : Shim H) (cpu : Cpu M S) (args : Args)
      → IsFramed shim cpu (open_file io mem shim cpu args)
  unfolding open_file IsFramed
  open_file-IsFramed shim cpu args = elim (ok_or_err (read_c_string mem cpu.memory args.a1)) [
    | inr (e, eq) ↦ rw (open_file, eq) (refl, refl)
    | inl (path, eq) ↦ rw (open_file, eq) (refl, refl)
  ]

  pub fstat-IsFramed :
      (shim : Shim H) (cpu : Cpu M S) (fd address : ℕ)
      → IsFramed shim cpu (fstat io mem shim cpu fd address)
  unfolding fstat IsFramed
  fstat-IsFramed shim cpu fd address = ground arith

  pub close-IsFramed :
      (shim : Shim H) (cpu : Cpu M S) (args : Args) → IsFramed shim cpu (close io mem shim cpu args)
  unfolding close IsFramed
  close-IsFramed shim cpu args = (refl, refl)

  pub uname-IsFramed :
      (shim : Shim H) (cpu : Cpu M S) (args : Args) → IsFramed shim cpu (uname io mem shim cpu args)
  unfolding uname IsFramed
  uname-IsFramed shim cpu args = (refl, refl)

  pub clock_gettime-IsFramed :
      (shim : Shim H) (cpu : Cpu M S) (args : Args)
      → IsFramed shim cpu (clock_gettime io mem shim cpu args)
  unfolding clock_gettime IsFramed
  clock_gettime-IsFramed shim cpu args = (refl, refl)

  pub getrandom-IsFramed :
      (shim : Shim H) (cpu : Cpu M S) (args : Args)
      → IsFramed shim cpu (getrandom io mem shim cpu args)
  unfolding getrandom IsFramed
  getrandom-IsFramed shim cpu args = (refl, refl)

  pub ioctl-IsFramed :
      (shim : Shim H) (cpu : Cpu M S) (args : Args) → IsFramed shim cpu (ioctl io mem shim cpu args)
  unfolding ioctl IsFramed
  ioctl-IsFramed shim cpu args = (refl, refl)

  pub affinity-IsFramed :
      (shim : Shim H) (cpu : Cpu M S) (args : Args)
      → IsFramed shim cpu (affinity io mem shim cpu args)
  unfolding affinity IsFramed
  affinity-IsFramed shim cpu args = ground arith
