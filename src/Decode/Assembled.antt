-- ===== src/Decode/Assembled.antt =====
-- Words assembled from their fields, and what they decode to.
use coracle.Prelude.{ℕ, ◌+◌, ◌*◌, ◌^◌, ◌<◌, ◌≡◌, ap, ◌∙◌, arith, Bool, to_bit, if◌then◌else◌}
use coracle.Reg.{from_index_zr, from_index_sp}
use coracle.Decode.{EncodingGroup, group_of, decode_in, decode}
use coracle.Decode.Op.{Op}
use coracle.Decode.Operand.{RegWidth, RoundMode, from_sf}
use coracle.Decode.Instruction.{Form, new, with_width, setting_flags}
use coracle.Decode.Group.Fields.{bits}
use coracle.Decode.Group.DpImmediate.{data_processing_immediate, add_sub_immediate}

to_bit-lt : (b : Bool) → to_bit b < 2
to_bit-lt b = ground arith

-- The word of ADD, ADDS, SUB and SUBS (immediate).
pub add_sub_word : (sf is_sub sets_flags sh : Bool) (imm12 rn rd : ℕ) → ℕ
add_sub_word sf is_sub sets_flags sh imm12 rn rd =
    to_bit sf * 2 ^ 31
    + to_bit is_sub * 2 ^ 30
    + to_bit sets_flags * 2 ^ 29
    + 0x11 * 2 ^ 24
    + to_bit sh * 2 ^ 22
    + imm12 * 2 ^ 10
    + rn * 2 ^ 5
    + rd

add_sub_word-bits :
    (sf is_sub sets_flags sh : Bool) (imm12 rn rd : ℕ)
    → imm12 < 2 ^ 12
    → rn < 2 ^ 5
    → rd < 2 ^ 5
    → let word = add_sub_word sf is_sub sets_flags sh imm12 rn rd in
      (bits word 28 25 ≡ 8)
      × (bits word 25 23 ≡ 2)
      × (bits word 31 31 ≡ to_bit sf)
      × (bits word 30 30 ≡ to_bit is_sub)
      × (bits word 29 29 ≡ to_bit sets_flags)
      × (bits word 23 22 ≡ to_bit sh)
      × (bits word 21 10 ≡ imm12)
      × (bits word 9 5 ≡ rn)
      × (bits word 4 0 ≡ rd)
unfolding add_sub_word
add_sub_word-bits sf is_sub sets_flags sh imm12 rn rd h k l =
    let a = to_bit-lt sf in
    let b = to_bit-lt is_sub in
    let c = to_bit-lt sets_flags in let d = to_bit-lt sh in omega (arith, a, b, c, d, h, k, l)

group_of-immediate :
    (word : ℕ) → bits word 28 25 ≡ 8 → group_of word ≡ EncodingGroup.data_processing_immediate
unfolding group_of
group_of-immediate word h = ground (arith, h)

decode-immediate : (word : ℕ) → bits word 28 25 ≡ 8 → decode word ≡ data_processing_immediate word
unfolding decode decode_in
decode-immediate word h = ap (λ group. decode_in group word) (group_of-immediate word h)

data_processing_immediate-add_sub :
    (word : ℕ) → bits word 25 23 ≡ 2 → data_processing_immediate word ≡ add_sub_immediate word
unfolding data_processing_immediate
data_processing_immediate-add_sub word h = ground (arith, h)

add_sub_immediate-fields :
    (word : ℕ) (sf is_sub sets_flags sh : Bool) (imm12 rn rd : ℕ)
    → bits word 31 31 ≡ to_bit sf
    → bits word 30 30 ≡ to_bit is_sub
    → bits word 29 29 ≡ to_bit sets_flags
    → bits word 23 22 ≡ to_bit sh
    → bits word 21 10 ≡ imm12
    → bits word 9 5 ≡ rn
    → bits word 4 0 ≡ rd
    → add_sub_immediate word ≡ record {
      op = if is_sub then Op.sub else Op.add;
      form =
          Form.reg_imm
            (if sets_flags then from_index_zr rd else from_index_sp rd)
            (from_index_sp rn)
            (if sh then imm12 * 2 ^ 12 else imm12);
      width = if sf then RegWidth.x64 else RegWidth.w32;
      round = RoundMode.current;
      sets_flags = sets_flags;
      encoding = word;
    }
unfolding add_sub_immediate new with_width setting_flags from_sf
add_sub_immediate-fields word sf is_sub sets_flags sh imm12 rn rd e f g h i j k = ground arith

-- An add or a subtract of an immediate decodes to its fields: slot 31 is SP as the source, and as the
-- destination unless the flags are set, and the shifted immediate is expanded.
pub decode-add_sub_word :
    (sf is_sub sets_flags sh : Bool) (imm12 rn rd : ℕ)
    → imm12 < 2 ^ 12
    → rn < 2 ^ 5
    → rd < 2 ^ 5
    → let word = add_sub_word sf is_sub sets_flags sh imm12 rn rd in
      decode word ≡ record {
        op = if is_sub then Op.sub else Op.add;
        form =
            Form.reg_imm
              (if sets_flags then from_index_zr rd else from_index_sp rd)
              (from_index_sp rn)
              (if sh then imm12 * 2 ^ 12 else imm12);
        width = if sf then RegWidth.x64 else RegWidth.w32;
        round = RoundMode.current;
        sets_flags = sets_flags;
        encoding = word;
      }
decode-add_sub_word sf is_sub sets_flags sh imm12 rn rd h k l =
    let word = add_sub_word sf is_sub sets_flags sh imm12 rn rd in
    let (a, b, c, d, e, f, g, i, j) = add_sub_word-bits sf is_sub sets_flags sh imm12 rn rd h k l in
    decode-immediate word a
    ∙ data_processing_immediate-add_sub word b
    ∙ add_sub_immediate-fields word sf is_sub sets_flags sh imm12 rn rd c d e f g i j
