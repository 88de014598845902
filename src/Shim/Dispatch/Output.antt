-- ===== src/Shim/Dispatch/Output.antt =====
-- What a guest prints to the host that captures its output.
use coracle.Prelude.{
  ℕ, zero, suc, ◌+◌, ◌%◌, ◌^◌, ◌≡◌, refl, sym, subst, ap, ◌∙◌, arith, List, [], ◌++◌, ok, err,
  append_nil, append_assoc, length, length-append, wrapping_add, inl, inr, ok_or_err, Bool-cases,
  ltb, ◌==◌, min,
}
use coracle.Interp.Memory.{Memory}
use coracle.Interp.Cpu.{Cpu}
use coracle.Shim.Host.Capturing.{CapturingHost, capturing, write}
use coracle.Shim.Host.{Errno, SysResult}
use coracle.Shim.State.{Shim}
use coracle.Shim.Structs.{read_iovec}
use coracle.Shim.Dispatch.{Args, Called, to_i32, max_transfer, transfer_out, writev_from, writev}

-- Bytes that are read from a memory, one span of it after another.
pub data IsCopied {M : Type 0} (mem : Memory M) (m : M) : List ℕ → Type 0 where
  nothing : IsCopied mem m []
  span :
      (address len : ℕ) (bytes rest : List ℕ)
      → mem.read m address len ≡ ok bytes
      → IsCopied mem m rest
      → IsCopied mem m (bytes ++ rest)

IsCopied-append :
    {M : Type 0} (mem : Memory M) (m : M) (xs ys : List ℕ)
    → IsCopied mem m xs
    → IsCopied mem m ys
    → IsCopied mem m (xs ++ ys)
IsCopied-append mem m _ ys nothing h = h
IsCopied-append mem m _ ys (span address len bytes rest e more) h =
    subst (IsCopied mem m) (sym (append_assoc bytes rest ys))
      (span address len bytes (rest ++ ys) e (IsCopied-append mem m rest ys more h))

module _ {M S : Type 0} (mem : Memory M) where
  -- The call adds bytes of the guest's memory to the standard output and none to the standard error, and
  -- leaves the CPU as it was; where it succeeds, its result counts them, past the bytes that were
  -- `written` before, as a u64.
  unfoldable pub IsOutput : ℕ → Shim CapturingHost → Cpu M S → Called CapturingHost M S → Type 0
  IsOutput written shim cpu (result, served, after) =
      (more : List ℕ) × (served.host.stdout ≡ shim.host.stdout ++ more)
      × IsCopied mem cpu.memory more
      × (served.host.stderr ≡ shim.host.stderr)
      × (after ≡ cpu)
      × ((total : ℕ) → result ≡ ok total → total % 2 ^ 64 ≡ (written + length more) % 2 ^ 64)

  IsOutput-none :
      (written : ℕ) (shim : Shim CapturingHost) (cpu : Cpu M S) (result : SysResult)
      → ((total : ℕ) → result ≡ ok total → total ≡ written)
      → IsOutput written shim cpu (result, shim, cpu)
  unfolding IsOutput
  IsOutput-none written shim cpu result h = (
    [],
    sym (append_nil shim.host.stdout),
    IsCopied.nothing,
    refl,
    refl,
    λ total e. omega (arith, h total e),
  )

  IsOutput-trans :
      (written : ℕ) (shim : Shim CapturingHost) (cpu : Cpu M S)
      (first out : Called CapturingHost M S) (count : ℕ)
      → first.0 ≡ ok count
      → IsOutput 0 shim cpu first
      → IsOutput (wrapping_add written count) first.1 first.2 out
      → IsOutput written shim cpu out
  unfolding IsOutput
  IsOutput-trans written shim cpu first out count e (xs, a, p, b, i, c) (ys, d, q, f, j, g) = (
    xs ++ ys,
    d ∙ ap (λ l. l ++ ys) a ∙ append_assoc shim.host.stdout xs ys,
    IsCopied-append mem cpu.memory xs ys p (subst (λ k. IsCopied mem k.memory ys) i q),
    f ∙ b,
    j ∙ i,
    λ total h. omega (arith, g total h, c count e, length-append xs ys),
  )

  -- An error counts nothing.
  IsOutput-err :
      (written : ℕ) (shim : Shim CapturingHost) (cpu : Cpu M S) (out : Called CapturingHost M S)
      (e : Errno)
      → IsOutput 0 shim cpu out
      → IsOutput written shim cpu (err e, out.1, out.2)
  unfolding IsOutput
  IsOutput-err written shim cpu out e (xs, a, p, b, i, c) =
      (xs, a, p, b, i, λ total h. ground arith)

  transfer_out-IsOutput :
      (shim : Shim CapturingHost) (cpu : Cpu M S) (buffer : ℕ × ℕ)
      → IsOutput 0 shim cpu (transfer_out capturing mem shim cpu 1 buffer)
  unfolding transfer_out write IsOutput
  transfer_out-IsOutput shim cpu (address, len) =
      let size = min len max_transfer in
      elim (ok_or_err (mem.read cpu.memory address size)) [
        | inr (fault, e) ↦
            rw (transfer_out, e)
              (
                [],
                sym (append_nil shim.host.stdout),
                IsCopied.nothing,
                refl,
                refl,
                λ total h. ground arith,
              )
        | inl (bytes, e) ↦
            let copied =
              subst (IsCopied mem cpu.memory) (append_nil bytes)
                (IsCopied.span address size bytes [] e IsCopied.nothing) in
            rw (transfer_out, e) (bytes, refl, copied, refl, refl, λ total h. ground arith)
      ]

  writev_from-IsOutput :
      (shim : Shim CapturingHost) (cpu : Cpu M S) (args : Args) (left index written : ℕ)
      → to_i32 args.a0 ≡ 1
      → IsOutput written shim cpu (writev_from capturing mem shim cpu args left index written)
  unfolding writev_from
  writev_from-IsOutput shim cpu args zero index written h =
      IsOutput-none written shim cpu (ok written) (λ total e. ground arith)
  writev_from-IsOutput shim cpu args (suc left) index written h =
      elim (ok_or_err (read_iovec mem cpu.memory args.a1 index)) [
        | inr (e, eq) ↦
            rw (writev_from, eq) (IsOutput-none written shim cpu (err e) (λ total f. ground arith))
        | inl (vector, eq) ↦
            let out =
              transfer_out capturing mem shim cpu (to_i32 args.a0) (vector.base, vector.len) in
            let sent : IsOutput 0 shim cpu out =
              subst
                (λ fd.
                  IsOutput 0 shim cpu
                    (transfer_out capturing mem shim cpu fd (vector.base, vector.len)))
                (sym h) (transfer_out-IsOutput shim cpu (vector.base, vector.len)) in
            rw (writev_from, eq)
              (elim (Bool-cases (vector.len == 0)) [
                | inl empty ↦
                    rw empty (writev_from-IsOutput shim cpu args left (index + 1) written h)
                | inr some_bytes ↦ rw some_bytes (elim (ok_or_err out.0) [
                  | inr (e, failed) ↦ rw failed (IsOutput-err written shim cpu out e sent)
                  | inl (count, done) ↦
                      let after = wrapping_add written count in
                      rw done (elim (Bool-cases (ltb count vector.len)) [
                        | inl short ↦ rw short (
                            IsOutput-trans written shim cpu out (ok after, out.1, out.2) count done
                              sent
                              (IsOutput-none after out.1 out.2 (ok after)
                                (λ total e. ground arith)))
                        | inr full ↦
                            let rest =
                              writev_from capturing mem out.1 out.2 args left (index + 1) after in
                            rw full (
                              IsOutput-trans written shim cpu out rest count done sent
                                (writev_from-IsOutput out.1 out.2 args left (index + 1) after h))
                      ])
                ])
              ])
      ]

  -- A `writev` to the standard output of the host that captures adds bytes to it that are spans of the
  -- guest's memory, touches neither the standard error nor the CPU, whether it succeeds or fails, and
  -- when it succeeds returns how many bytes it added, as a u64.
  pub writev-IsOutput :
      (shim : Shim CapturingHost) (cpu : Cpu M S) (args : Args)
      → to_i32 args.a0 ≡ 1
      → IsOutput 0 shim cpu (writev capturing mem shim cpu args)
  unfolding writev
  writev-IsOutput shim cpu args = writev_from-IsOutput shim cpu args args.a2 0 0
