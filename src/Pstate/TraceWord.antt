-- ===== src/Pstate/TraceWord.antt =====
-- The trace word as a sum of its fields.
use coracle.Prelude.{◌+◌, ◌*◌, ◌<◌, ◌≡◌, arith}
use coracle.Prelude.Bits.{bit_or-shl}
use coracle.Pstate.{Pstate, ExceptionLevel, StackPointerSelect, el_bits, sp_sel_bits, to_trace_word}
use coracle.Pstate.Flags
use coracle.Pstate.Masks
use coracle.Pstate.Flags.{to_bits-lt as nzcv-lt, from_bits-to_bits as nzcv_back}
use coracle.Pstate.Masks.{to_bits-lt as daif-lt, from_bits-to_bits as daif_back}

el_bits-lt : (e : ExceptionLevel) → el_bits e < 2
el_bits-lt e = ground arith

sp_sel_bits-lt : (s : StackPointerSelect) → sp_sel_bits s < 2
sp_sel_bits-lt s = ground arith

-- The word is NZCV at bit 28, DAIF at bit 6, the level at bit 2 and SPSel at bit 0, and no other
-- bit is set.
pub to_trace_word_sum :
    (p : Pstate)
    → to_trace_word p
      ≡ Flags.to_bits p.nzcv * 268435456
        + Masks.to_bits p.daif * 64
        + el_bits p.el * 4
        + sp_sel_bits p.sp_sel
unfolding to_trace_word
to_trace_word_sum p = ground (
  arith,
  daif-lt p.daif,
  el_bits-lt p.el,
  sp_sel_bits-lt p.sp_sel,
  bit_or-shl 28 (Flags.to_bits p.nzcv) (Masks.to_bits p.daif * 64),
  bit_or-shl 6 (Flags.to_bits p.nzcv * 4194304 + Masks.to_bits p.daif) (el_bits p.el * 4),
  bit_or-shl 2 (Flags.to_bits p.nzcv * 67108864 + Masks.to_bits p.daif * 16 + el_bits p.el)
      (sp_sel_bits p.sp_sel),
)

el_bits-injective : (e f : ExceptionLevel) → el_bits e ≡ el_bits f → e ≡ f
el_bits-injective e f h = ground arith

sp_sel_bits-injective : (s t : StackPointerSelect) → sp_sel_bits s ≡ sp_sel_bits t → s ≡ t
sp_sel_bits-injective s t h = ground arith

-- Two processor states with the same trace word are the same state.
pub to_trace_word-injective : (p q : Pstate) → to_trace_word p ≡ to_trace_word q → p ≡ q
to_trace_word-injective p q h = ground (
  arith,
  to_trace_word_sum p,
  to_trace_word_sum q,
  nzcv-lt p.nzcv,
  nzcv-lt q.nzcv,
  daif-lt p.daif,
  daif-lt q.daif,
  el_bits-lt p.el,
  el_bits-lt q.el,
  sp_sel_bits-lt p.sp_sel,
  sp_sel_bits-lt q.sp_sel,
  nzcv_back p.nzcv,
  nzcv_back q.nzcv,
  daif_back p.daif,
  daif_back q.daif,
  el_bits-injective p.el q.el,
  sp_sel_bits-injective p.sp_sel q.sp_sel,
)
