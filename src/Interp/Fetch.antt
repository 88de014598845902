-- ===== src/Interp/Fetch.antt =====
-- crates/core/src/interp/fetch.rs: reading operands out of the register file. A shift
-- by the operand width or more panics in the code; `Decode.Ranges` is about the amounts decoded.
use coracle.Prelude.{
  ℕ, ◌-◌, ◌%◌, Option, ◌||◌, ◌==◌, leb, if◌then◌else◌, bit_or, shl64, shr64, asr64, wrapping_add,
  ◌^◌,
}
use coracle.Reg.{Gpr}
use coracle.RegFile.{RegFile, read_x}
use coracle.Decode.Operand.{
  RegWidth, ShiftKind, ShiftedReg, ExtendedReg, width_bits, mask, source_bits, is_signed,
}
use coracle.Decode.Address.{AddrMode, WriteBack}

unfoldable pub read_gpr : RegFile → Gpr → RegWidth → ℕ
read_gpr regs reg width = mask width (read_x regs reg)

unfoldable mask_to : ℕ → ℕ → ℕ
mask_to value bits = if leb 64 bits then value else value % 2 ^ bits

pub sign_extend_to_64 : ℕ → ℕ → ℕ
sign_extend_to_64 value bits =
    if leb 64 bits then value else asr64 (shl64 value (64 - bits)) (64 - bits)

unfoldable rotate_carry : ℕ → ℕ → ℕ → ℕ
rotate_carry value amount bits =
    if leb 64 bits || amount == 0 then 0 else shl64 value (bits - amount % bits)

-- `u64::rotate_right` by less than 64.
abbrev rotate_right : ℕ → ℕ → ℕ
rotate_right value amount = bit_or (shr64 value amount) (shl64 value (64 - amount))

abbrev shift_by : ShiftKind → ℕ → ℕ → ℕ → ℕ
shift_by ShiftKind.lsl value amount bits = shl64 value amount
shift_by ShiftKind.lsr value amount bits = shr64 value amount
shift_by ShiftKind.asr value amount bits = asr64 (sign_extend_to_64 value bits) amount
shift_by ShiftKind.ror value amount bits =
    bit_or (rotate_right value amount) (rotate_carry value amount bits)

unfoldable pub read_shifted : RegFile → ShiftedReg → RegWidth → ℕ
unfolding sign_extend_to_64 rotate_carry
read_shifted regs operand width =
    let value = read_gpr regs operand.reg width in
    mask width (shift_by operand.kind value operand.amount (width_bits width))

unfoldable pub read_extended : RegFile → ExtendedReg → ℕ
unfolding sign_extend_to_64 mask_to
read_extended regs operand =
    let raw = read_x regs operand.reg in
    let bits = source_bits operand.kind in
    let extended =
      if is_signed operand.kind then sign_extend_to_64 raw bits else mask_to raw bits in
    shl64 extended operand.amount

pub record EffectiveAddress : Type 0 where
  pub address : ℕ
  pub writeback : Option (Gpr × ℕ)

abbrev access_address : WriteBack → ℕ → ℕ → ℕ
access_address WriteBack.post base_value updated = base_value
access_address WriteBack.pre base_value updated = updated
access_address WriteBack.none base_value updated = updated

abbrev owed : WriteBack → Gpr → ℕ → Option (Gpr × ℕ)
owed WriteBack.none base updated = Option.none
owed WriteBack.pre base updated = Option.some (base, updated)
owed WriteBack.post base updated = Option.some (base, updated)

-- The address of a mode that has a base register.
unfoldable pub based_address : RegFile → Gpr → ℕ → WriteBack → EffectiveAddress
based_address regs base offset writeback =
    let base_value = read_x regs base in
    let updated = wrapping_add base_value offset in
    record {
      address = access_address writeback base_value updated;
      writeback = owed writeback base updated;
    }

unfoldable pub effective_address : RegFile → AddrMode → ℕ → EffectiveAddress
effective_address regs (AddrMode.immediate base offset writeback) pc =
    based_address regs base offset writeback
effective_address regs (AddrMode.register base index writeback) pc =
    based_address regs base (read_extended regs index) writeback
effective_address regs (AddrMode.base_only base) pc = based_address regs base 0 WriteBack.none
effective_address regs (AddrMode.pc_relative offset) pc = record {
  address = wrapping_add pc offset;
  writeback = Option.none;
}
