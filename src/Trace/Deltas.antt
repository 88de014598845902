-- ===== src/Trace/Deltas.antt =====
-- `deltas_between` of crates/core/src/trace/sink.rs.
pub mod Counts
use coracle.Prelude.{
  ℕ, zero, suc, ◌-◌, ◌%◌, ◌/◌, ◌^◌, Bool, false, Option, List, [], ◌∷◌, ◌++◌, ◌==◌, ltb, length,
  if◌then◌else◌,
}
use mathlib.Core.Option
use coracle.Pstate.{to_trace_word}
use coracle.Reg.{num_gpr, vec_count}
use coracle.Reg.TraceRegId
use coracle.RegFile.{RegFile, x_at, read_v}
use coracle.Trace.{RegDelta}

-- `u8::MAX`, the most that a block record counts.
abbrev pub max_deltas_per_block : ℕ
max_deltas_per_block = 255

-- The buffer holds its first `max_deltas_per_block` deltas.
pub push : List RegDelta → RegDelta → List RegDelta
push out delta = if ltb (length out) max_deltas_per_block then out ++ delta ∷ [] else out

-- `old == Some(value)`.
abbrev pub is_some_of : Option ℕ → ℕ → Bool
is_some_of Option.none value = false
is_some_of (Option.some old) value = old == value

pub push_changed : List RegDelta → ℕ → ℕ → Option ℕ → List RegDelta
unfolding push
push_changed out reg_id value old =
    if is_some_of old value then out else push out (record { reg_id = reg_id; value = value })

-- The loop over the general-purpose registers, with `left` rounds to go.
pub push_gpr_deltas : ℕ → Option RegFile → RegFile → List RegDelta → List RegDelta
unfolding push_changed x_at
push_gpr_deltas zero previous current out = out
push_gpr_deltas (suc left) previous current out =
    let index = num_gpr - suc left in
    push_gpr_deltas left previous current (
      push_changed out (TraceRegId.gpr index) (x_at current index)
        (Option.map (λ regs. x_at regs index) previous))

-- The loop over the vector registers: both halves of a register that changed.
pub push_vec_deltas : ℕ → Option RegFile → RegFile → List RegDelta → List RegDelta
unfolding push read_v
push_vec_deltas zero previous current out = out
push_vec_deltas (suc left) previous current out =
    let index = vec_count - suc left in
    let value = read_v current (record { index = index }) in
    let old = Option.map (λ regs. read_v regs (record { index = index })) previous in
    let low : RegDelta = record { reg_id = TraceRegId.vec_lo index; value = value % 2 ^ 64 } in
    let high : RegDelta = record { reg_id = TraceRegId.vec_hi index; value = value / 2 ^ 64 } in
    push_vec_deltas left previous current
      (if is_some_of old value then out else push (push out low) high)

pub deltas_between : Option RegFile → RegFile → List RegDelta
unfolding push_gpr_deltas push_vec_deltas
deltas_between previous current =
    let gprs = push_gpr_deltas num_gpr previous current [] in
    let with_sp =
      push_changed gprs TraceRegId.sp_id current.sp (Option.map (λ regs. regs.sp) previous) in
    let with_pc =
      push_changed with_sp TraceRegId.pc_id current.pc (Option.map (λ regs. regs.pc) previous) in
    let with_pstate =
      push_changed with_pc TraceRegId.pstate_id (to_trace_word current.pstate)
        (Option.map (λ regs. to_trace_word regs.pstate) previous) in
    let with_fpcr =
      push_changed with_pstate TraceRegId.fpcr_id current.fpcr
        (Option.map (λ regs. regs.fpcr) previous) in
    let with_fpsr =
      push_changed with_fpcr TraceRegId.fpsr_id current.fpsr
        (Option.map (λ regs. regs.fpsr) previous) in
    push_vec_deltas vec_count previous current with_fpsr
