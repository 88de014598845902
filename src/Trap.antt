-- ===== src/Trap.antt =====
-- crates/core/src/trap.rs: the traps, and the log of the encodings that this build does not implement.
-- The array of `used` filled slots is the list of the filled ones, in the same order. The counters are
-- u64, and their increments wrap around.
pub mod Log
use coracle.Prelude.{
  ℕ, wrapping_add, Bool, true, false, ◌&&◌, Option, none, some, List, [], ◌∷◌, ◌++◌, ◌==◌, length,
  if◌then◌else◌,
}
use coracle.Decode.{EncodingGroup, group_of}
use coracle.Decode.Instruction.{Instruction}
use coracle.Decode.Op.{is_unallocated}

pub data Trap : Type 0 where
  undefined_instruction : (pc encoding : ℕ) → Trap
  supervisor_call : (pc imm : ℕ) → Trap
  breakpoint : (pc imm : ℕ) → Trap
  data_abort : (pc address : ℕ) (is_write : Bool) → Trap
  instruction_abort : (pc : ℕ) → Trap

abbrev pub undefined : ℕ → Instruction → Trap
undefined pc insn = Trap.undefined_instruction pc insn.encoding

abbrev pub trap_log_capacity : ℕ
trap_log_capacity = 256

pub record TrapLogEntry : Type 0 where
  pub encoding : ℕ
  pub group : EncodingGroup
  pub count : ℕ

pub record TrapLog : Type 0 where
  pub entries : List TrapLogEntry
  pub dropped : ℕ
  pub total : ℕ

unfoldable pub new : TrapLog
new = record { entries = []; dropped = 0; total = 0 }

-- `find_mut`, and the increment of the count that it finds; `none` where no entry matches.
pub bump : ℕ → List TrapLogEntry → Option (List TrapLogEntry)
bump encoding [] = none
bump encoding (entry ∷ entries) =
    if entry.encoding == encoding
    then some (record entry { count = wrapping_add entry.count 1 } ∷ entries)
    else elim (bump encoding entries) [ none ↦ none | some rest ↦ some (entry ∷ rest) ]

pub record_encoding : TrapLog → ℕ → TrapLog
record_encoding log encoding = elim (bump encoding log.entries) [
  | some entries ↦ record log { entries = entries; total = wrapping_add log.total 1 }
  | none ↦
      if length log.entries == trap_log_capacity
      then record log { dropped = wrapping_add log.dropped 1; total = wrapping_add log.total 1 }
      else record log {
        entries =
            log.entries
            ++ record { encoding = encoding; group = group_of encoding; count = 1 } ∷ [];
        total = wrapping_add log.total 1;
      }
]

unfoldable pub record_trap : TrapLog → Trap → TrapLog
record_trap log (Trap.undefined_instruction pc encoding) = record_encoding log encoding
record_trap log _ = log

unfoldable is_empty : TrapLog → Bool
is_empty log = length log.entries == 0 && log.dropped == 0

unfoldable is_unimplemented : Instruction → Bool
is_unimplemented insn = is_unallocated insn.op
