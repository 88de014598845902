-- ===== src/Trace/Deltas/Counts.antt =====
-- How many deltas a block record gets.
use coracle.Prelude.{
  ℕ, zero, suc, ◌+◌, ◌-◌, ◌*◌, ◌/◌, ◌%◌, ◌^◌, ◌≤◌, subst, if◌then◌else◌, ◌≡◌, refl, arith, Option,
  List, [], ◌∷◌, length, length-append,
}
use mathlib.Core.Option
use coracle.Pstate.{to_trace_word}
use coracle.Reg.{num_gpr, vec_count}
use coracle.Reg.TraceRegId
use coracle.RegFile.{RegFile, x_at, read_v}
use coracle.Trace.{RegDelta}
use coracle.Trace.Deltas.{
  max_deltas_per_block, push, push_changed, is_some_of, push_gpr_deltas, push_vec_deltas,
  deltas_between,
}

-- How a list of deltas grew: by `most` where no state is known, not at all where nothing changed, and
-- by `most` at most.
abbrev IsGrown : Option RegFile → RegFile → ℕ → List RegDelta → List RegDelta → Type 0
IsGrown previous current most before after =
    (length before ≤ length after)
    × (length after ≤ length before + most)
    × (previous ≡ Option.none → length after ≡ length before + most)
    × (previous ≡ Option.some current → length after ≡ length before)

length-push :
    (out : List RegDelta) (delta : RegDelta)
    → suc (length out) ≤ max_deltas_per_block
    → length (push out delta) ≡ suc (length out)
unfolding push
length-push out delta h = ground (arith, length-append out (delta ∷ []))

-- One register, read from the state by `get`.
push_changed-IsGrown :
    (get : RegFile → ℕ) (reg_id : ℕ) (previous : Option RegFile) (current : RegFile)
    (out : List RegDelta)
    → suc (length out) ≤ max_deltas_per_block
    → IsGrown previous current 1 out
        (push_changed out reg_id (get current) (Option.map get previous))
unfolding push_changed
push_changed-IsGrown get reg_id Option.none current out h =
    ground (arith, length-push out (record { reg_id = reg_id; value = get current }) h)
push_changed-IsGrown get reg_id (Option.some old) current out h =
    ground (arith, length-push out (record { reg_id = reg_id; value = get current }) h)

-- Two parts of a list that grow one after the other.
trans :
    (previous : Option RegFile) (current : RegFile) (m n : ℕ) (a b c : List RegDelta)
    → IsGrown previous current m a b
    → IsGrown previous current n b c
    → IsGrown previous current (m + n) a c
trans previous current m n a b c (e, f, g, h) (i, j, k, l) = (
  omega (arith, e, i),
  omega (arith, f, j),
  λ p. omega (arith, g p, k p),
  λ p. omega (arith, h p, l p),
)

amount :
    (previous : Option RegFile) (current : RegFile) (m n : ℕ) (a b : List RegDelta)
    → m ≡ n
    → IsGrown previous current m a b
    → IsGrown previous current n a b
amount previous current m n a b e = subst (λ k. IsGrown previous current k a b) e

push_gpr_deltas-IsGrown :
    (left : ℕ) (previous : Option RegFile) (current : RegFile) (out : List RegDelta)
    → length out + left ≤ max_deltas_per_block
    → IsGrown previous current left out (push_gpr_deltas left previous current out)
unfolding push_gpr_deltas
push_gpr_deltas-IsGrown zero previous current out h =
    (omega arith, omega arith, λ p. omega arith, λ p. refl)
push_gpr_deltas-IsGrown (suc left) previous current out h =
    let index = num_gpr - suc left in
    let one =
      push_changed-IsGrown (λ regs. x_at regs index) (TraceRegId.gpr index) previous current out
        (omega (arith, h)) in
    let after =
      push_changed out (TraceRegId.gpr index) (x_at current index)
        (Option.map (λ regs. x_at regs index) previous) in
    let rest = push_gpr_deltas-IsGrown left previous current after (omega (arith, h, one.1)) in
    amount previous current (1 + left) (suc left) out _ (omega arith)
      (trans previous current 1 left out after _ one rest)

-- Both halves of a vector register.
vec_halves-IsGrown :
    (get : RegFile → ℕ) (low high : RegDelta) (previous : Option RegFile) (current : RegFile)
    (out : List RegDelta)
    → length out + 2 ≤ max_deltas_per_block
    → IsGrown previous current 2 out (
        if is_some_of (Option.map get previous) (get current)
        then out
        else push (push out low) high)
vec_halves-IsGrown get low high Option.none current out h =
    let first = length-push out low (omega (arith, h)) in
    ground (arith, first, length-push (push out low) high (omega (arith, h, first)))
vec_halves-IsGrown get low high (Option.some old) current out h =
    let first = length-push out low (omega (arith, h)) in
    ground (arith, first, length-push (push out low) high (omega (arith, h, first)))

push_vec_deltas-IsGrown :
    (left : ℕ) (previous : Option RegFile) (current : RegFile) (out : List RegDelta)
    → length out + 2 * left ≤ max_deltas_per_block
    → IsGrown previous current (2 * left) out (push_vec_deltas left previous current out)
unfolding push_vec_deltas
push_vec_deltas-IsGrown zero previous current out h =
    (omega arith, omega arith, λ p. omega arith, λ p. refl)
push_vec_deltas-IsGrown (suc left) previous current out h =
    let index = vec_count - suc left in
    let value = read_v current (record { index = index }) in
    let low : RegDelta = record { reg_id = TraceRegId.vec_lo index; value = value % 2 ^ 64 } in
    let high : RegDelta = record { reg_id = TraceRegId.vec_hi index; value = value / 2 ^ 64 } in
    let old = Option.map (λ regs. read_v regs (record { index = index })) previous in
    let after = if is_some_of old value then out else push (push out low) high in
    let one =
      vec_halves-IsGrown (λ regs. read_v regs (record { index = index })) low high previous current
        out (omega (arith, h)) in
    let rest = push_vec_deltas-IsGrown left previous current after (omega (arith, h, one.1)) in
    amount previous current (2 + 2 * left) (2 * suc left) out _ (omega arith)
      (trans previous current 2 (2 * left) out after _ one rest)

-- A block record has at most 100 deltas, so the buffer of 255 drops none; exactly 100 where no earlier
-- state is known, and none where nothing changed.
pub length-deltas_between :
    (previous : Option RegFile) (current : RegFile)
    → (length (deltas_between previous current) ≤ 100)
      × (previous ≡ Option.none → length (deltas_between previous current) ≡ 100)
      × (previous ≡ Option.some current → length (deltas_between previous current) ≡ 0)
unfolding deltas_between
length-deltas_between previous current =
    let gprs = push_gpr_deltas-IsGrown num_gpr previous current [] (omega arith) in
    let sp =
      push_changed-IsGrown (λ regs. regs.sp) TraceRegId.sp_id previous current _
        (omega (arith, gprs.1)) in
    let pc =
      push_changed-IsGrown (λ regs. regs.pc) TraceRegId.pc_id previous current _
        (omega (arith, gprs.1, sp.1)) in
    let pstate =
      push_changed-IsGrown (λ regs. to_trace_word regs.pstate) TraceRegId.pstate_id previous current
        _ (omega (arith, gprs.1, sp.1, pc.1)) in
    let fpcr =
      push_changed-IsGrown (λ regs. regs.fpcr) TraceRegId.fpcr_id previous current _
        (omega (arith, gprs.1, sp.1, pc.1, pstate.1)) in
    let fpsr =
      push_changed-IsGrown (λ regs. regs.fpsr) TraceRegId.fpsr_id previous current _
        (omega (arith, gprs.1, sp.1, pc.1, pstate.1, fpcr.1)) in
    let vecs =
      push_vec_deltas-IsGrown vec_count previous current _
        (omega (arith, gprs.1, sp.1, pc.1, pstate.1, fpcr.1, fpsr.1)) in
    let through =
      trans previous current 36 64 [] _ _
        (trans previous current 35 1 [] _ _
          (trans previous current 34 1 [] _ _
            (trans previous current 33 1 [] _ _
              (trans previous current 32 1 [] _ _ (trans previous current 31 1 [] _ _ gprs sp) pc)
              pstate)
            fpcr)
          fpsr)
        vecs in
    (through.1, through.2, through.3)
