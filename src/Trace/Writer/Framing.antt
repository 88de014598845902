-- ===== src/Trace/Writer/Framing.antt =====
-- Every record that is written says how long it is, and the lengths lead from record to record.
use coracle.Prelude.{
  ℕ, zero, suc, ◌+◌, ◌*◌, ◌/◌, ◌%◌, ◌^◌, ◌≡◌, refl, sym, ap, ◌∙◌, arith, List, [], ◌∷◌, ◌++◌,
  length, length-append, length-replicate, append_assoc, append_nil, replicate,
}
use coracle.Trace.{RegDelta}
use coracle.RegFile.{RegFile, x_at, read_v}
use coracle.Reg.{num_gpr}
use coracle.Pstate.{to_trace_word}
use coracle.Interp.Memory.Bytes.{to_le, length-to_le}
use coracle.Trace.Writer.{
  CdtWriter, extend, num_sysreg, write_words, write_deltas, write_gprs, write_vregs,
  write_full_state,
}

-- The second writer is the first one with `n` bytes more.
unfoldable pub IsAppended : ℕ → CdtWriter → CdtWriter → Type 0
IsAppended n w after = (bytes : List ℕ) × (after.buffer ≡ w.buffer ++ bytes) × (length bytes ≡ n)

pub IsAppended-trans :
    (n m k : ℕ) (w middle after : CdtWriter)
    → IsAppended n w middle
    → IsAppended m middle after
    → k ≡ n + m
    → IsAppended k w after
unfolding IsAppended
IsAppended-trans n m k w middle after (xs, a, b) (ys, c, d) e = (
  xs ++ ys,
  c ∙ ap (λ l. l ++ ys) a ∙ append_assoc w.buffer xs ys,
  omega (arith, length-append xs ys, b, d, e),
)

pub extend-IsAppended :
    (w : CdtWriter) (bytes : List ℕ) (n : ℕ) → length bytes ≡ n → IsAppended n w (extend w bytes)
unfolding IsAppended
extend-IsAppended w bytes n h = (bytes, refl, h)

pub write_words-IsAppended :
    (w : CdtWriter) (words : List ℕ) → IsAppended (length words * 8) w (write_words w words)
unfolding write_words IsAppended
write_words-IsAppended w [] = ([], sym (append_nil w.buffer), omega arith)
write_words-IsAppended w (word ∷ words) =
    IsAppended-trans 8 (length words * 8) _ w (extend w (to_le 8 word)) _
      (extend-IsAppended w (to_le 8 word) 8 (length-to_le 8 word))
      (write_words-IsAppended (extend w (to_le 8 word)) words) (omega arith)

-- Two pieces, one after the other.
pub two_pieces :
    (w : CdtWriter) (xs ys : List ℕ) (n m k : ℕ)
    → length xs ≡ n
    → length ys ≡ m
    → k ≡ n + m
    → IsAppended k w (extend (extend w xs) ys)
two_pieces w xs ys n m k h l e =
    IsAppended-trans n m k w (extend w xs) _ (extend-IsAppended w xs n h)
      (extend-IsAppended (extend w xs) ys m l) e

pub write_deltas-IsAppended :
    (w : CdtWriter) (deltas : List RegDelta)
    → IsAppended (length deltas * 16) w (write_deltas w deltas)
unfolding write_deltas IsAppended
write_deltas-IsAppended w [] = ([], sym (append_nil w.buffer), omega arith)
write_deltas-IsAppended w (delta ∷ deltas) =
    let named = extend (extend w (to_le 2 delta.reg_id)) (replicate 6 0) in
    let one = extend named (to_le 8 delta.value) in
    let padded : IsAppended 8 w named =
      two_pieces w (to_le 2 delta.reg_id) (replicate 6 0) 2 6 8 (length-to_le 2 delta.reg_id) refl
        (omega arith) in
    IsAppended-trans 16 (length deltas * 16) _ w one _
      (IsAppended-trans 8 8 16 w named one padded
        (extend-IsAppended named (to_le 8 delta.value) 8 (length-to_le 8 delta.value))
        (omega arith))
      (write_deltas-IsAppended one deltas) (omega arith)

write_gprs-IsAppended :
    (left index : ℕ) (w : CdtWriter) (regs : RegFile)
    → IsAppended (left * 8) w (write_gprs left index w regs)
unfolding write_gprs IsAppended
write_gprs-IsAppended zero index w regs = ([], sym (append_nil w.buffer), omega arith)
write_gprs-IsAppended (suc left) index w regs =
    let one = extend w (to_le 8 (x_at regs index)) in
    IsAppended-trans 8 (left * 8) _ w one _
      (extend-IsAppended w (to_le 8 (x_at regs index)) 8 (length-to_le 8 (x_at regs index)))
      (write_gprs-IsAppended left (index + 1) one regs) (omega arith)

write_vregs-IsAppended :
    (left index : ℕ) (w : CdtWriter) (regs : RegFile)
    → IsAppended (left * 16) w (write_vregs left index w regs)
unfolding write_vregs IsAppended
write_vregs-IsAppended zero index w regs = ([], sym (append_nil w.buffer), omega arith)
write_vregs-IsAppended (suc left) index w regs =
    let value = read_v regs (record { index = index }) in
    let low = to_le 8 (value % 2 ^ 64) in
    let high = to_le 8 (value / 2 ^ 64 % 2 ^ 64) in
    let one = extend (extend w low) high in
    IsAppended-trans 16 (left * 16) _ w one _
      (two_pieces w low high 8 8 16 (length-to_le 8 (value % 2 ^ 64))
        (length-to_le 8 (value / 2 ^ 64 % 2 ^ 64)) (omega arith))
      (write_vregs-IsAppended left (index + 1) one regs) (omega arith)

pub write_full_state-IsAppended :
    (w : CdtWriter) (regs : RegFile) → IsAppended 960 w (write_full_state w regs)
unfolding write_full_state
write_full_state-IsAppended w regs =
    let gprs = write_gprs num_gpr 0 w regs in
    let words = regs.sp ∷ regs.pc ∷ to_trace_word regs.pstate ∷ [] in
    let special = write_words gprs words in
    let zeros = replicate (num_sysreg * 8) 0 in
    let sysregs = extend special zeros in
    let fp = write_words sysregs (regs.fpcr ∷ regs.fpsr ∷ []) in
    let a =
      IsAppended-trans 248 24 272 w gprs special (write_gprs-IsAppended 31 0 w regs)
        (write_words-IsAppended gprs words) refl in
    let b =
      IsAppended-trans 272 160 432 w special sysregs a
        (extend-IsAppended special zeros 160 (length-replicate {A = ℕ} 160 0)) refl in
    let c =
      IsAppended-trans 432 16 448 w sysregs fp b
        (write_words-IsAppended sysregs (regs.fpcr ∷ regs.fpsr ∷ [])) refl in
    IsAppended-trans 448 512 960 w fp _ c (write_vregs-IsAppended 32 0 fp regs) refl
