-- ===== src/Decode/SimdFp/VecLoadsStores.antt =====
-- crates/core/src/decode/group/simd_fp/loads_stores.rs: the SIMD/FP loads and stores.
use coracle.Prelude.{ℕ, ◌*◌, ◌/◌, ◌^◌, Bool, not, ◌&&◌, Option, ◌==◌, if◌then◌else◌, shl64}
use mathlib.Core.Option
use coracle.Reg.{Gpr, from_index_zr, from_index_sp}
use coracle.Decode.Op.{Op}
use coracle.Decode.Operand.{ElemSize, ExtendKind, elem_bits, from_option, from_size}
use coracle.Decode.Address.{AddrMode, WriteBack, plain}
use coracle.Decode.Instruction.{Form, Instruction, new, unallocated}
use coracle.Decode.Group.Fields.{bits, flag, sign_extend, scaled}
use coracle.Decode.SimdFp.Lanes.{rd, rm, scalar, vector, lanes, is_quad, is_d64}
use coracle.Decode.Group.LoadsStores.{index_writeback}

abbrev base : ℕ → Gpr
base encoding = from_index_sp (bits encoding 9 5)

unfoldable pub single_size : ℕ → Option ElemSize
single_size encoding =
    let size = bits encoding 31 30 in
    let is_wide = flag encoding 23 in
    if is_wide
    then (if size == 0 then Option.some ElemSize.q128 else Option.none)
    else if size == 0
    then Option.some ElemSize.b8
    else if size == 1
    then Option.some ElemSize.h16
    else if size == 2
    then Option.some ElemSize.s32
    else Option.some ElemSize.d64

-- `size.bits().trailing_zeros() - 3`.
abbrev pub scale_of : ElemSize → ℕ
scale_of ElemSize.b8 = 0
scale_of ElemSize.h16 = 1
scale_of ElemSize.s32 = 2
scale_of ElemSize.d64 = 3
scale_of ElemSize.q128 = 4

unfoldable pub register_offset : ℕ → ElemSize → AddrMode
register_offset encoding size =
    AddrMode.register (base encoding)
      (record {
        reg = from_index_zr (rm encoding);
        kind = from_option (bits encoding 15 13);
        amount = if flag encoding 12 then scale_of size else 0;
      })
      WriteBack.none

unfoldable pub single_register_address : ℕ → ElemSize → Option AddrMode
unfolding register_offset
single_register_address encoding size =
    let field = bits encoding 11 10 in
    if flag encoding 24
    then Option.some (
        AddrMode.immediate (base encoding) (bits encoding 21 10 * 2 ^ scale_of size) WriteBack.none)
    else if flag encoding 21
    then (if field == 2 then Option.some (register_offset encoding size) else Option.none)
    else Option.map (AddrMode.immediate (base encoding) (sign_extend (bits encoding 20 12) 9))
        (index_writeback field)

unfoldable single_register_of : ℕ → ElemSize → Instruction
single_register_of encoding size = elim (single_register_address encoding size) [
  | Option.none ↦ unallocated encoding
  | Option.some addr ↦
      new encoding (if flag encoding 22 then Op.ldr else Op.str)
        (Form.load_store_vec (scalar (rd encoding) size) 1 addr plain)
]

unfoldable pub single_register : ℕ → Instruction
unfolding single_register_of
single_register encoding = elim (single_size encoding) [
  | Option.none ↦ unallocated encoding
  | Option.some size ↦ single_register_of encoding size
]

-- The sizes of the literal and the pair forms.
unfoldable pub wide_size : ℕ → Option ElemSize
wide_size opc =
    if opc == 0
    then Option.some ElemSize.s32
    else if opc == 1
    then Option.some ElemSize.d64
    else if opc == 2
    then Option.some ElemSize.q128
    else Option.none

unfoldable pub literal : ℕ → Instruction
literal encoding = elim (wide_size (bits encoding 31 30)) [
  | Option.none ↦ unallocated encoding
  | Option.some size ↦ new encoding Op.ldr (
      Form.load_store_vec (scalar (rd encoding) size) 1
        (AddrMode.pc_relative (scaled (sign_extend (bits encoding 23 5) 19) 4)) plain)
]

unfoldable pub pair_writeback : ℕ → Option WriteBack
pair_writeback encoding =
    let mode = bits encoding 24 23 in
    if mode == 1
    then Option.some WriteBack.post
    else if mode == 2
    then Option.some WriteBack.none
    else if mode == 3
    then Option.some WriteBack.pre
    else Option.none

unfoldable pub pair_of : ℕ → ElemSize → Instruction
pair_of encoding size = elim (pair_writeback encoding) [
  | Option.none ↦ unallocated encoding
  | Option.some writeback ↦ new encoding (if flag encoding 22 then Op.ldp else Op.stp) (
      Form.load_store_vec (scalar (rd encoding) size) 2
        (AddrMode.immediate (base encoding)
          (shl64 (sign_extend (bits encoding 21 15) 7) (scale_of size)) writeback)
        plain)
]

unfoldable pub pair : ℕ → Instruction
unfolding pair_of
pair encoding = elim (wide_size (bits encoding 31 30)) [
  | Option.none ↦ unallocated encoding
  | Option.some size ↦ pair_of encoding size
]

pub record Structure : Type 0 where
  pub op_load : Op
  pub op_store : Op
  pub count : ℕ

abbrev kind : Op → Op → ℕ → Option Structure
kind op_load op_store count =
    Option.some (record { op_load = op_load; op_store = op_store; count = count })

unfoldable pub structure_kind : ℕ → Option Structure
structure_kind opcode =
    if opcode == 0
    then kind Op.ld4 Op.st4 4
    else if opcode == 2
    then kind Op.ld1 Op.st1 4
    else if opcode == 4
    then kind Op.ld3 Op.st3 3
    else if opcode == 6
    then kind Op.ld1 Op.st1 3
    else if opcode == 7
    then kind Op.ld1 Op.st1 1
    else if opcode == 8
    then kind Op.ld2 Op.st2 2
    else if opcode == 10
    then kind Op.ld1 Op.st1 2
    else Option.none

unfoldable pub structure_address : ℕ → Bool → ℕ → ℕ → AddrMode
structure_address encoding is_post_indexed count bytes_per_register =
    if not is_post_indexed
    then AddrMode.base_only (base encoding)
    else if rm encoding == 31
    then AddrMode.immediate (base encoding) (count * bytes_per_register) WriteBack.post
    else AddrMode.register (base encoding)
        (record { reg = from_index_zr (rm encoding); kind = ExtendKind.uxtx; amount = 0 })
        WriteBack.post

-- A structure form of an allocated kind.
unfoldable structure_of : ℕ → Structure → Instruction
structure_of encoding k =
    let quad = is_quad encoding in
    let elem = from_size (bits encoding 11 10) in
    let addr =
      structure_address encoding (flag encoding 23) k.count
        (lanes elem quad * elem_bits elem / 8) in
    if is_d64 elem && not quad
    then unallocated encoding
    else new encoding (if flag encoding 22 then k.op_load else k.op_store)
        (Form.load_store_vec (vector (rd encoding) elem quad) k.count addr plain)

unfoldable pub structure : ℕ → Instruction
unfolding structure_of
structure encoding =
    let found : Instruction = elim (structure_kind (bits encoding 15 12)) [
      | Option.none ↦ unallocated encoding
      | Option.some k ↦ structure_of encoding k
    ] in
    if not (flag encoding 23) && not (bits encoding 21 16 == 0) then unallocated encoding else found

unfoldable pub loads_and_stores_vec : ℕ → Instruction
loads_and_stores_vec encoding =
    let family = bits encoding 29 28 in
    if family == 0
    then structure encoding
    else if family == 1
    then literal encoding
    else if family == 2
    then pair encoding
    else single_register encoding
