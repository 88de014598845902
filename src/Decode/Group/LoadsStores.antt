-- ===== src/Decode/Group/LoadsStores.antt =====
-- crates/core/src/decode/group/loads_stores.rs: the general-purpose loads and stores.
use coracle.Prelude.{
  ℕ, ◌*◌, ◌^◌, Bool, true, false, not, ◌&&◌, ◌||◌, Option, ◌==◌, ltb, if◌then◌else◌,
}
use mathlib.Core.Option
use coracle.Prelude.Bits.{is_set}
use coracle.Reg.{Gpr, from_index_zr, from_index_sp}
use coracle.Decode.Op.{Op}
use coracle.Decode.Operand.{RegWidth, ExtendedReg, from_sf, from_option}
use coracle.Decode.Address.{
  AddrMode, AccessSize, Ordering, WriteBack, size_w, size_x, plain, has_writeback,
}
use coracle.Decode.Instruction.{Form, Instruction, new, with_width, unallocated}
use coracle.Decode.Group.Fields.{bits, flag, sign_extend, scaled}

abbrev transferred : ℕ → Gpr
transferred encoding = from_index_zr (bits encoding 4 0)

abbrev base : ℕ → Gpr
base encoding = from_index_sp (bits encoding 9 5)

-- The form of a plain single-register transfer.
abbrev transfer : ℕ → AddrMode → AccessSize → Form
transfer encoding addr size =
    Form.load_store (transferred encoding) Option.none Option.none addr size plain

pub record SingleRegister : Type 0 where
  pub is_load : Bool
  pub size : AccessSize
  pub width : RegWidth

-- `SingleRegister::decode`.
unfoldable pub decode : ℕ → ℕ → Option SingleRegister
decode size_field opc =
    let is_sign_extending = is_set opc 1 in
    let has_signed_form = ltb size_field 3 && not (size_field == 2 && opc == 3) in
    let is_load = if is_sign_extending then true else is_set opc 0 in
    let width =
      if is_sign_extending then from_sf (not (is_set opc 0)) else from_sf (size_field == 3) in
    let size : AccessSize = record { bytes = 2 ^ size_field; is_signed = is_sign_extending } in
    if is_sign_extending && not has_signed_form
    then Option.none
    else Option.some (record { is_load = is_load; size = size; width = width })

abbrev is_prefetch : ℕ → ℕ → Bool
is_prefetch size_field opc = size_field == 3 && opc == 2

-- Bits 11..10 of the unscaled forms; 10 is the unprivileged family.
unfoldable pub index_writeback : ℕ → Option WriteBack
index_writeback field =
    if field == 0
    then Option.some WriteBack.none
    else if field == 1
    then Option.some WriteBack.post
    else if field == 3
    then Option.some WriteBack.pre
    else Option.none

unfoldable pub register_offset : ℕ → ℕ → Option AddrMode
register_offset encoding size_field =
    let option = bits encoding 15 13 in
    let index : ExtendedReg = record {
      reg = from_index_zr (bits encoding 20 16);
      kind = from_option option;
      amount = if flag encoding 12 then size_field else 0;
    } in
    if is_set option 1
    then Option.some (AddrMode.register (base encoding) index WriteBack.none)
    else Option.none

unfoldable pub single_register_address : ℕ → ℕ → Option AddrMode
unfolding register_offset index_writeback
single_register_address encoding size_field =
    if flag encoding 24
    then Option.some
        (AddrMode.immediate (base encoding) (bits encoding 21 10 * 2 ^ size_field) WriteBack.none)
    else if flag encoding 21
    then (if bits encoding 11 10 == 2 then register_offset encoding size_field else Option.none)
    else Option.map (AddrMode.immediate (base encoding) (sign_extend (bits encoding 20 12) 9))
        (index_writeback (bits encoding 11 10))

-- The instruction at an address that the encoding names.
unfoldable pub single_register_at : ℕ → ℕ → ℕ → AddrMode → Instruction
single_register_at encoding size_field opc addr =
    if is_prefetch size_field opc
    then if has_writeback addr
      then unallocated encoding
      else new encoding Op.prfm (Form.prefetch (bits encoding 4 0) addr)
    else elim (decode size_field opc) [
      | Option.none ↦ unallocated encoding
      | Option.some t ↦
          with_width
            (new encoding (if t.is_load then Op.ldr else Op.str) (transfer encoding addr t.size))
            t.width
    ]

unfoldable pub single_register : ℕ → Instruction
unfolding single_register_at
single_register encoding =
    let size_field = bits encoding 31 30 in
    let opc = bits encoding 23 22 in
    elim (single_register_address encoding size_field) [
      | Option.none ↦ unallocated encoding
      | Option.some addr ↦ single_register_at encoding size_field opc addr
    ]

abbrev signed_word : AccessSize
signed_word = record { bytes = 4; is_signed = true }

unfoldable pub literal : ℕ → Instruction
literal encoding =
    let addr = AddrMode.pc_relative (scaled (sign_extend (bits encoding 23 5) 19) 4) in
    let opc = bits encoding 31 30 in
    if opc == 0
    then with_width (new encoding Op.ldr (transfer encoding addr size_w)) RegWidth.w32
    else if opc == 1
    then with_width (new encoding Op.ldr (transfer encoding addr size_x)) RegWidth.x64
    else if opc == 2
    then with_width (new encoding Op.ldr (transfer encoding addr signed_word)) RegWidth.x64
    else new encoding Op.prfm (Form.prefetch (bits encoding 4 0) addr)

pub pair_writeback : ℕ → WriteBack
pair_writeback encoding =
    let mode = bits encoding 24 23 in
    if mode == 0 || mode == 2
    then WriteBack.none
    else if mode == 1
    then WriteBack.post
    else WriteBack.pre

-- A pair of one size; there is no non-temporal signed pair.
unfoldable pub pair_of : ℕ → AccessSize → RegWidth → Instruction
unfolding pair_writeback
pair_of encoding size width =
    let is_non_temporal = bits encoding 24 23 == 0 in
    let addr =
      AddrMode.immediate (base encoding) (scaled (sign_extend (bits encoding 21 15) 7) size.bytes)
        (pair_writeback encoding) in
    let form =
      Form.load_store (transferred encoding) (Option.some (from_index_zr (bits encoding 14 10)))
        Option.none addr size plain in
    let op = if flag encoding 22 then Op.ldp else Op.stp in
    if is_non_temporal && size.is_signed
    then unallocated encoding
    else with_width (new encoding op form) width

unfoldable pub pair : ℕ → Instruction
unfolding pair_of
pair encoding =
    let opc = bits encoding 31 30 in
    if opc == 0
    then pair_of encoding size_w RegWidth.w32
    else if opc == 1 && flag encoding 22
    then pair_of encoding signed_word RegWidth.x64
    else if opc == 2
    then pair_of encoding size_x RegWidth.x64
    else unallocated encoding

unfoldable pub exclusive_size : ℕ → Bool → Option AccessSize
exclusive_size size_field is_pair =
    if not is_pair
    then Option.some (record { bytes = 2 ^ size_field; is_signed = false })
    else if size_field == 2
    then Option.some size_w
    else if size_field == 3
    then Option.some size_x
    else Option.none

-- `c.then(|| r)`.
abbrev then_some : Bool → Gpr → Option Gpr
then_some c r = if c then Option.some r else Option.none

unfoldable pub exclusive_of : ℕ → AccessSize → Instruction
exclusive_of encoding size =
    let is_load = flag encoding 22 in
    let is_exclusive = not (flag encoding 23) in
    let is_pair = flag encoding 21 in
    let is_ordered = flag encoding 15 in
    let ordering : Ordering = record {
      is_acquire = is_load && is_ordered;
      is_release = not is_load && is_ordered;
      is_exclusive = is_exclusive;
    } in
    let rs = then_some (is_exclusive && not is_load) (from_index_zr (bits encoding 20 16)) in
    let rt2 = then_some is_pair (from_index_zr (bits encoding 14 10)) in
    let form =
      Form.load_store (transferred encoding) rt2 rs (AddrMode.base_only (base encoding)) size
        ordering in
    if (is_pair && not is_exclusive) || (not is_exclusive && not is_ordered)
    then unallocated encoding
    else with_width (new encoding (if is_load then Op.ldar else Op.stlr) form)
        (from_sf (bits encoding 31 30 == 3))

unfoldable pub exclusive : ℕ → Instruction
unfolding exclusive_of
exclusive encoding = elim (exclusive_size (bits encoding 31 30) (flag encoding 21)) [
  | Option.none ↦ unallocated encoding
  | Option.some size ↦ exclusive_of encoding size
]

unfoldable pub loads_and_stores : ℕ → Instruction
loads_and_stores encoding =
    let family = bits encoding 29 28 in
    if flag encoding 26
    then unallocated encoding
    else if ltb family 2 && flag encoding 24
    then unallocated encoding
    else if family == 0
    then exclusive encoding
    else if family == 1
    then literal encoding
    else if family == 2
    then pair encoding
    else single_register encoding
