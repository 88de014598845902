-- ===== src/Trace/Writer/Records.antt =====
-- The stream read back by the lengths in its headers.
use coracle.Prelude.{
  ℕ, zero, suc, ◌+◌, ◌-◌, ◌*◌, ◌/◌, ◌%◌, ◌≤◌, ◌<◌, ◌≡◌, refl, sym, ap, ◌∙◌, arith, min, List, [],
  ◌∷◌, ◌++◌, map, length, length-append, length-take, append_assoc, append_nil, drop, drop-append,
  take, replicate,
}
use coracle.Trace.{MarkerKind, EndReason, RegDelta, ExceptionEvent}
use coracle.Trace.Deltas.{max_deltas_per_block}
use coracle.Trace.Format
use coracle.Trace.Format.{marker_code, reason_code, discon_code}
use coracle.Interp.Memory.Bytes.{to_le, length-to_le}
use coracle.Trace.Writer.{
  CdtWriter, extend, m1_insns_per_block, write_record_header, write_words, on_marker, on_block,
  on_exception, finish,
}
use coracle.Trace.Writer.Framing.{
  IsAppended, IsAppended-trans, two_pieces, write_words-IsAppended, write_deltas-IsAppended,
  write_full_state-IsAppended,
}

-- The calls of the sink.
pub data Event : Type 0 where
  marker : MarkerKind → (icount value : ℕ) → Event
  block : (pc icount : ℕ) → List RegDelta → Event
  exception : ExceptionEvent → Event
  end : EndReason → (icount : ℕ) → Event

pub write_event : CdtWriter → Event → CdtWriter
write_event w (Event.marker kind icount value) = on_marker w kind icount value
write_event w (Event.block pc icount deltas) = on_block w pc icount deltas
write_event w (Event.exception event) = on_exception w event
write_event w (Event.end reason icount) = finish w reason icount

pub write_events : CdtWriter → List Event → CdtWriter
write_events w [] = w
write_events w (event ∷ events) = write_events (write_event w event) events

abbrev pub tag_of : Event → ℕ
tag_of (Event.marker kind icount value) = Format.marker
tag_of (Event.block pc icount deltas) = Format.block
tag_of (Event.exception event) = Format.exception
tag_of (Event.end reason icount) = Format.end

-- A reader that knows only the header: the tag of a record, and its length as a u16. A stream that is
-- cut inside a header has no further record.
pub tags : (fuel : ℕ) → List ℕ → List ℕ
tags zero bytes = []
tags (suc fuel) (tag ∷ flags ∷ low ∷ high ∷ body) =
    tag ∷ tags fuel (drop (low + 256 * high - 4) body)
tags (suc fuel) _ = []

-- One record more, whose length is a multiple of 8 and is what its header says.
IsRecord : ℕ → CdtWriter → CdtWriter → Type 0
IsRecord tag w after =
    (flags : ℕ) × (low : ℕ) × (high : ℕ) × (body : List ℕ) × (after.buffer
      ≡ w.buffer ++ (tag ∷ flags ∷ low ∷ high ∷ body))
    × (low + 256 * high ≡ length body + 4)
    × ((length body + 4) % 8 ≡ 0)

five :
    (a b c d e f : List ℕ) → ((((a ++ b) ++ c) ++ d) ++ e) ++ f ≡ a ++ (b ++ (c ++ (d ++ (e ++ f))))
five a b c d e f =
    append_assoc (((a ++ b) ++ c) ++ d) e f
    ∙ append_assoc ((a ++ b) ++ c) d (e ++ f)
    ∙ append_assoc (a ++ b) c (d ++ (e ++ f))
    ∙ append_assoc a b (c ++ (d ++ (e ++ f)))

header-IsRecord :
    (w after : CdtWriter) (tag flags len n : ℕ)
    → IsAppended n (write_record_header w tag flags len) after
    → len ≡ n + 8
    → len < 65536
    → len % 8 ≡ 0
    → IsRecord tag w after
unfolding IsRecord IsAppended write_record_header to_le
header-IsRecord w after tag flags len n (bytes, same, size) e small whole = (
  flags,
  len % 256,
  len / 256 % 256,
  0 ∷ 0 ∷ 0 ∷ 0 ∷ bytes,
  same
      ∙ five w.buffer (tag ∷ []) (flags ∷ []) (len % 256 ∷ len / 256 % 256 ∷ [])
          (0 ∷ 0 ∷ 0 ∷ 0 ∷ []) bytes,
  omega (arith, size, e, small),
  omega (arith, size, e, whole),
)

write_event-IsRecord :
    (w : CdtWriter) (event : Event) → IsRecord (tag_of event) w (write_event w event)
unfolding write_event on_marker on_block on_exception finish
write_event-IsRecord w (Event.marker kind icount value) =
    let header = write_record_header w 3 0 32 in
    header-IsRecord w _ 3 0 32 24
      (write_words-IsAppended header (icount ∷ marker_code kind ∷ value ∷ [])) refl (omega arith)
      refl
write_event-IsRecord w (Event.block pc icount all) =
    let deltas = take (min (length all) max_deltas_per_block) all in
    let n = length deltas in
    let few : n ≤ 255 = omega (arith, length-take (min (length all) 255) all (omega arith)) in
    let len = 32 + n * 16 in
    let header = write_record_header w 1 (n % 256) len in
    let words = write_words header (pc ∷ icount ∷ []) in
    let counted = extend (extend words (to_le 2 m1_insns_per_block)) (replicate 6 0) in
    let prefix =
      IsAppended-trans 16 8 24 header words counted
        (write_words-IsAppended header (pc ∷ icount ∷ []))
        (two_pieces words (to_le 2 1) (replicate 6 0) 2 6 8 (length-to_le 2 1) refl refl) refl in
    header-IsRecord w _ 1 (n % 256) len (24 + n * 16)
      (IsAppended-trans 24 (n * 16) (24 + n * 16) header counted _ prefix
        (write_deltas-IsAppended counted deltas) refl)
      (omega arith) (omega (arith, few)) (omega arith)
write_event-IsRecord w (Event.exception event) =
    let header = write_record_header w 2 0 1000 in
    let times = event.icount ∷ event.from_pc ∷ event.to_pc ∷ [] in
    let words = write_words header times in
    let code = discon_code event.discon in
    let discon = extend (extend words (to_le 4 code)) (to_le 4 0) in
    let prefix =
      IsAppended-trans 24 8 32 header words discon (write_words-IsAppended header times)
        (two_pieces words (to_le 4 code) (to_le 4 0) 4 4 8 (length-to_le 4 code) (length-to_le 4 0)
          refl)
        refl in
    header-IsRecord w _ 2 0 1000 992
      (IsAppended-trans 32 960 992 header discon _ prefix
        (write_full_state-IsAppended discon event.regs) refl)
      refl (omega arith) refl
write_event-IsRecord w (Event.end reason icount) =
    let header = write_record_header w 4 0 24 in
    header-IsRecord w _ 4 0 24 16 (write_words-IsAppended header (icount ∷ reason_code reason ∷ []))
      refl (omega arith) refl

-- Whatever calls a writer gets, what it adds to its buffer is a multiple of 8 bytes, and a reader that
-- goes by the lengths in the headers finds one record for each call, in order, with the call's tag.
pub write_events-tags :
    (w : CdtWriter) (events : List Event)
    → (bytes : List ℕ) × ((write_events w events).buffer ≡ w.buffer ++ bytes)
      × (length bytes % 8 ≡ 0)
      × (tags (length events) bytes ≡ map tag_of events)
unfolding write_events tags IsRecord
write_events-tags w [] = ([], sym (append_nil w.buffer), omega arith, refl)
write_events-tags w (event ∷ events) =
    framed (write_event-IsRecord w event) (write_events-tags next events)
  where
    next : CdtWriter
    next = write_event w event

    Tagged : CdtWriter → List ℕ → ℕ → List ℕ → Type 0
    Tagged from more n read =
        (bytes : List ℕ) × (more ≡ from.buffer ++ bytes)
        × (length bytes % 8 ≡ 0)
        × (tags n bytes ≡ read)

    framed :
        IsRecord (tag_of event) w next
        → Tagged next (write_events next events).buffer (length events) (map tag_of events)
        → Tagged w
            (write_events next events).buffer
            (suc (length events))
            (tag_of event ∷ map tag_of events)
    framed (flags, low, high, body, same, size, whole) (rest, more, even, read) =
        let first = tag_of event ∷ flags ∷ low ∷ high ∷ body in
        (
          first ++ rest,
          more ∙ ap (λ b. b ++ rest) same ∙ append_assoc w.buffer first rest,
          omega (arith, length-append body rest, whole, even),
          ap (λ b. tag_of event ∷ tags (length events) b)
                (drop-append (low + 256 * high - 4) 0 body rest (omega (arith, size)))
              ∙ ap (λ t. tag_of event ∷ t) read,
        )
