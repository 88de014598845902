-- ===== src/Decode/Ranges.antt =====
-- The ranges of decoded operands that the interpreter relies on: register slots that exist, and shift
-- amounts below the operand width, past which a shift of a 64-bit value would panic.
pub mod DpImmediate
pub mod DpRegister
pub mod BranchSystem
pub mod LoadsStores
pub mod Groups
use coracle.Prelude.{
  ℕ, ◌+◌, ◌*◌, ◌^◌, ◌<◌, ◌≤◌, ◌≡◌, Option, refl, arith, Bool, true, false, if_intro, if_split,
  if◌then◌else◌,
}
use coracle.Reg.{Gpr, IsGpr, from_index_zr, from_index_sp, from_index_zr-IsGpr, from_index_sp-IsGpr}
use coracle.Decode.Operand.{RegWidth, width_bits}
use coracle.Decode.Address.{AddrMode}
use coracle.Decode.Instruction.{Instruction, Form, unallocated, new, with_width, setting_flags}
use coracle.Decode.Group.Fields.{bits}

-- An address whose registers exist, with an index shifted by the access size at most.
abbrev pub IsAddress : AddrMode → Type 0
IsAddress (AddrMode.immediate base offset writeback) = IsGpr base
IsAddress (AddrMode.register base index writeback) =
    IsGpr base × IsGpr index.reg × (index.amount ≤ 3)
IsAddress (AddrMode.base_only base) = IsGpr base
IsAddress (AddrMode.pc_relative offset) = Unit {0}

-- Where an operand is named, it exists.
abbrev pub IsOptional : Option Gpr → Type 0
IsOptional Option.none = Unit {0}
IsOptional (Option.some reg) = IsGpr reg

-- Operands in range, at a width; the forms with vector operands have none.
abbrev pub IsForm : RegWidth → Form → Type 0
IsForm width Form.none = Unit {0}
IsForm width (Form.reg_imm rd rn imm) = IsGpr rd × IsGpr rn
IsForm width (Form.move_wide rd imm16 hw) =
    IsGpr rd × (imm16 < 2 ^ 16) × (16 * hw < width_bits width)
IsForm width (Form.pc_rel_addr rd offset) = IsGpr rd
IsForm width (Form.reg_shifted rd rn rm) =
    IsGpr rd × IsGpr rn × IsGpr rm.reg × (rm.amount < width_bits width)
IsForm width (Form.reg_extended rd rn rm) = IsGpr rd × IsGpr rn × IsGpr rm.reg × (rm.amount ≤ 4)
IsForm width (Form.three_source rd rn rm ra) = IsGpr rd × IsGpr rn × IsGpr rm × IsGpr ra
IsForm width (Form.bitfield rd rn rm immr imms) =
    IsGpr rd × IsGpr rn × IsGpr rm × (immr < width_bits width) × (imms < width_bits width)
IsForm width (Form.cond_select rd rn rm cond) = IsGpr rd × IsGpr rn × IsGpr rm
IsForm width (Form.cond_compare rn imm nzcv cond) = IsGpr rn × (imm < 32) × (nzcv < 16)
IsForm width (Form.branch offset) = Unit {0}
IsForm width (Form.branch_cond offset cond) = Unit {0}
IsForm width (Form.branch_reg rt offset bit) = IsGpr rt × (bit < width_bits width)
IsForm width (Form.branch_indirect rn) = IsGpr rn
IsForm width (Form.load_store rt rt2 rs addr size ordering) =
    IsGpr rt × IsOptional rt2 × IsOptional rs × IsAddress addr × (1 ≤ size.bytes) × (size.bytes ≤ 8)
IsForm width (Form.prefetch prfop addr) = (prfop < 32) × IsAddress addr
IsForm width (Form.imm imm) = imm < 2 ^ 16
IsForm width (Form.system rt sysreg) = IsGpr rt × (sysreg < 2 ^ 16)
IsForm width _ = ⊥

-- An instruction that carries its own word and operands in range.
pub IsDecoded : ℕ → Instruction → Type 0
IsDecoded encoding insn = (insn.encoding ≡ encoding) × IsForm insn.width insn.form

-- The registers that the five-bit fields of a word name.
abbrev pub Fields : ℕ → Type 0
Fields encoding =
    IsGpr (from_index_zr (bits encoding 4 0))
    × IsGpr (from_index_zr (bits encoding 9 5))
    × IsGpr (from_index_zr (bits encoding 20 16))
    × IsGpr (from_index_zr (bits encoding 14 10))
    × IsGpr (from_index_sp (bits encoding 4 0))
    × IsGpr (from_index_sp (bits encoding 9 5))

pub fields : (encoding : ℕ) → Fields encoding
fields encoding = (
  from_index_zr-IsGpr (bits encoding 4 0) (omega arith),
  from_index_zr-IsGpr (bits encoding 9 5) (omega arith),
  from_index_zr-IsGpr (bits encoding 20 16) (omega arith),
  from_index_zr-IsGpr (bits encoding 14 10) (omega arith),
  from_index_sp-IsGpr (bits encoding 4 0) (omega arith),
  from_index_sp-IsGpr (bits encoding 9 5) (omega arith),
)

pub unallocated-IsDecoded : (encoding : ℕ) → IsDecoded encoding (unallocated encoding)
unfolding IsDecoded unallocated new
unallocated-IsDecoded encoding = (refl, tt)
