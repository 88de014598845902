-- ===== src/Trace/Writer.antt =====
-- crates/core/src/trace/writer.rs: the sink that writes CDT records into a buffer of bytes.
pub mod Framing
pub mod Records
use coracle.Prelude.{
  ℕ, zero, suc, ◌+◌, ◌-◌, ◌*◌, ◌/◌, ◌%◌, ◌^◌, min, bit_or, Bool, true, List, [], ◌∷◌, ◌++◌, length,
  take, replicate, if◌then◌else◌,
}
use coracle.Reg.{num_gpr, vec_count, Vec}
use coracle.RegFile.{RegFile, x_at, read_v}
use coracle.Trace.{MarkerKind, EndReason, RegDelta, ExceptionEvent, TraceSink}
use coracle.Trace.Deltas.{max_deltas_per_block}
use coracle.Trace.Format
use coracle.Pstate.{to_trace_word}
use coracle.Trace.Format.{
  record_header_bytes, reg_delta_bytes, block_prefix_bytes, producer_name_bytes, marker_code,
  reason_code, discon_code, cpu_feature_id,
}
use coracle.Interp.Memory.Bytes.{to_le}
use coracle.Interp.Memory.Flat.{splice}

abbrev pub num_sysreg : ℕ
num_sysreg = 20

abbrev pub m1_insns_per_block : ℕ
m1_insns_per_block = 1

pub data FpMode : Type 0 where
  precise native : FpMode

pub record CdtWriter : Type 0 where
  pub buffer : List ℕ

-- `self.buffer.extend_from_slice`.
abbrev pub extend : CdtWriter → List ℕ → CdtWriter
extend w bytes = record w { buffer = w.buffer ++ bytes }

unfoldable pub write_record_header : CdtWriter → (tag flags length : ℕ) → CdtWriter
unfolding to_le
write_record_header w tag flags len =
    let tagged = extend w (tag ∷ []) in
    let flagged = extend tagged (flags ∷ []) in
    let sized = extend flagged (to_le 2 len) in extend sized (to_le 4 0)

unfoldable pub write_words : CdtWriter → List ℕ → CdtWriter
unfolding to_le
write_words w [] = w
write_words w (word ∷ words) = write_words (extend w (to_le 8 word)) words

-- `producer_name` as the bytes of the text.
unfoldable pub write_file_header : CdtWriter → List ℕ → FpMode → CdtWriter
unfolding to_le cpu_feature_id splice
write_file_header w producer_name fp_mode =
    let base = bit_or Format.block_deltas Format.has_vregs in
    let flags : ℕ = elim fp_mode [
      | FpMode.precise ↦ bit_or base Format.precise_fp
      | FpMode.native ↦ base
    ] in
    let len = min (length producer_name) producer_name_bytes in
    let name = splice (replicate producer_name_bytes 0) 0 (take len producer_name) in
    let a = extend w Format.magic in
    let b = extend a (to_le 4 Format.format_version) in
    let c = extend b (to_le 4 Format.producer_coracle) in
    let d = extend c (to_le 8 flags) in
    let e = extend d (to_le 8 cpu_feature_id) in extend (extend e name) (replicate 16 0)

unfoldable pub new : List ℕ → FpMode → CdtWriter
unfolding write_file_header
new producer_name fp_mode = write_file_header (record { buffer = [] }) producer_name fp_mode

-- `CdtWriter::take`: the bytes, and the writer without them.
abbrev pub take_bytes : CdtWriter → List ℕ × CdtWriter
take_bytes w = (w.buffer, record w { buffer = [] })

unfoldable pub on_marker : CdtWriter → MarkerKind → (icount value : ℕ) → CdtWriter
unfolding write_record_header write_words marker_code
on_marker w kind icount value =
    write_words (write_record_header w Format.marker 0 (record_header_bytes + 24))
      (icount ∷ marker_code kind ∷ value ∷ [])

unfoldable pub write_deltas : CdtWriter → List RegDelta → CdtWriter
unfolding to_le
write_deltas w [] = w
write_deltas w (delta ∷ deltas) =
    let named = extend w (to_le 2 delta.reg_id) in
    let padded = extend named (replicate 6 0) in
    write_deltas (extend padded (to_le 8 delta.value)) deltas

-- The assertion on the number of deltas is a debug one.
unfoldable pub on_block : CdtWriter → (pc icount : ℕ) → List RegDelta → CdtWriter
unfolding write_record_header write_words write_deltas to_le
on_block w pc icount all =
    let deltas = take (min (length all) max_deltas_per_block) all in
    let len = block_prefix_bytes + length deltas * reg_delta_bytes in
    let header = write_record_header w Format.block (length deltas % 256) len in
    let words = write_words header (pc ∷ icount ∷ []) in
    let counted = extend words (to_le 2 m1_insns_per_block) in
    write_deltas (extend counted (replicate 6 0)) deltas

-- The general registers from `index` on, `left` of them.
unfoldable pub write_gprs : (left index : ℕ) → CdtWriter → RegFile → CdtWriter
unfolding to_le x_at
write_gprs zero index w regs = w
write_gprs (suc left) index w regs =
    write_gprs left (index + 1) (extend w (to_le 8 (x_at regs index))) regs

unfoldable pub write_vregs : (left index : ℕ) → CdtWriter → RegFile → CdtWriter
unfolding to_le read_v
write_vregs zero index w regs = w
write_vregs (suc left) index w regs =
    let value = read_v regs (record { index = index }) in
    let low = extend w (to_le 8 (value % 2 ^ 64)) in
    write_vregs left (index + 1) (extend low (to_le 8 (value / 2 ^ 64 % 2 ^ 64))) regs

unfoldable pub write_full_state : CdtWriter → RegFile → CdtWriter
unfolding write_gprs write_vregs to_le to_trace_word
write_full_state w regs =
    let gprs = write_gprs num_gpr 0 w regs in
    let special = write_words gprs (regs.sp ∷ regs.pc ∷ to_trace_word regs.pstate ∷ []) in
    let sysregs = extend special (replicate (num_sysreg * 8) 0) in
    let fp = write_words sysregs (regs.fpcr ∷ regs.fpsr ∷ []) in write_vregs vec_count 0 fp regs

unfoldable pub on_exception : CdtWriter → ExceptionEvent → CdtWriter
unfolding write_record_header write_words write_full_state discon_code to_le
on_exception w event =
    let len = record_header_bytes + 32 + (32 + 2 + num_sysreg + 2 + 64) * 8 in
    let header = write_record_header w Format.exception 0 len in
    let words = write_words header (event.icount ∷ event.from_pc ∷ event.to_pc ∷ []) in
    let discon = extend words (to_le 4 (discon_code event.discon)) in
    write_full_state (extend discon (to_le 4 0)) event.regs

unfoldable pub finish : CdtWriter → EndReason → ℕ → CdtWriter
unfolding write_record_header write_words reason_code
finish w reason icount =
    write_words (write_record_header w Format.end 0 (record_header_bytes + 16))
      (icount ∷ reason_code reason ∷ [])

abbrev pub cdt_sink : TraceSink CdtWriter
cdt_sink = record {
  enabled = true;
  on_marker = on_marker;
  on_block = on_block;
  on_exception = on_exception;
  finish = finish;
}
