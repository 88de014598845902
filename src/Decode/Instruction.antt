-- ===== src/Decode/Instruction.antt =====
-- crates/core/src/decode/instruction.rs: the decoded instruction, an opcode and an operand form.
use coracle.Prelude.{ℕ, Bool, true, false, Option}
use coracle.Reg.{Gpr, Vec}
use coracle.Decode.Op.{Op}
use coracle.Decode.Operand.{RegWidth, ShiftedReg, ExtendedReg, Cond, RoundMode, VecOperand}
use coracle.Decode.Address.{AddrMode, AccessSize, Ordering}

pub data Form : Type 0 where
  none : Form
  reg_imm : (rd rn : Gpr) (imm : ℕ) → Form
  move_wide : (rd : Gpr) (imm16 hw : ℕ) → Form
  pc_rel_addr : (rd : Gpr) (offset : ℕ) → Form
  reg_shifted : (rd rn : Gpr) (rm : ShiftedReg) → Form
  reg_extended : (rd rn : Gpr) (rm : ExtendedReg) → Form
  three_source : (rd rn rm ra : Gpr) → Form
  bitfield : (rd rn rm : Gpr) (immr imms : ℕ) → Form
  cond_select : (rd rn rm : Gpr) (cond : Cond) → Form
  cond_compare : (rn : Gpr) (imm nzcv : ℕ) (cond : Cond) → Form
  branch : (offset : ℕ) → Form
  branch_cond : (offset : ℕ) (cond : Cond) → Form
  branch_reg : (rt : Gpr) (offset bit : ℕ) → Form
  branch_indirect : (rn : Gpr) → Form
  load_store :
      (rt : Gpr) (rt2 rs : Option Gpr) (addr : AddrMode) (size : AccessSize) (ordering : Ordering)
      → Form
  prefetch : (prfop : ℕ) (addr : AddrMode) → Form
  load_store_vec : (vt : VecOperand) (count : ℕ) (addr : AddrMode) (ordering : Ordering) → Form
  vec_data : (vd vn : VecOperand) (vm va : Option VecOperand) → Form
  vec_imm : (vd vn : VecOperand) (imm : ℕ) → Form
  vec_cond : (vd vn vm : VecOperand) (cond : Cond) → Form
  vec_cond_compare : (vn vm : VecOperand) (nzcv : ℕ) (cond : Cond) → Form
  vec_compare : (vn : VecOperand) (vm : Option VecOperand) → Form
  table_lookup : (vd : VecOperand) (table : Vec) (table_len : ℕ) (vm : VecOperand) → Form
  vec_gpr_move : (gpr : Gpr) (vec : VecOperand) → Form
  imm : (imm : ℕ) → Form
  system : (rt : Gpr) (sysreg : ℕ) → Form

pub record Instruction : Type 0 where
  pub op : Op
  pub form : Form
  pub width : RegWidth
  pub round : RoundMode
  pub sets_flags : Bool
  pub encoding : ℕ

unfoldable pub new : ℕ → Op → Form → Instruction
new encoding op form = record {
  op = op;
  form = form;
  width = RegWidth.x64;
  round = RoundMode.current;
  sets_flags = false;
  encoding = encoding;
}

unfoldable pub with_width : Instruction → RegWidth → Instruction
with_width insn width = record insn { width = width }

unfoldable pub with_round : Instruction → RoundMode → Instruction
with_round insn round = record insn { round = round }

unfoldable pub setting_flags : Instruction → Instruction
setting_flags insn = record insn { sets_flags = true }

unfoldable pub unallocated : ℕ → Instruction
unfolding new
unallocated encoding = new encoding Op.unallocated Form.none
