-- ===== src/Tests/Parts.antt =====
-- The theorems on the parts of the machine, at concrete inputs.
use coracle.Prelude.{
  if◌then◌else◌, ℕ, ◌+◌, ◌-◌, ◌*◌, ◌%◌, ◌^◌, ◌<◌, ◌≤◌, ◌≡◌, ◌⊎◌, refl, arith, true, false, not, ltb,
  leb, ◌==◌, [], ◌∷◌, Option, ok, not64, to_bit, length,
}
use mathlib.Core.List.{Memᴰ}
use coracle.Pstate.TraceWord.{to_trace_word-injective}
use coracle.Reg.{Gpr, from_index_zr, from_index_sp}
use coracle.RegFile
use coracle.RegFile.{IsRegFile, read_x, write_x}
use coracle.RegFile.Access.{read_x-write_x_self, read_x-write_x_ne, new-IsRegFile}
use coracle.Decode.{decode}
use coracle.Decode.Operand.{RegWidth, RoundMode, Cond, invert, width_bits, mask}
use coracle.Decode.Op.{Op}
use coracle.Decode.Instruction.{Form}
use coracle.Decode.Assembled.{add_sub_word, decode-add_sub_word}
use coracle.Trace.Deltas.{deltas_between}
use coracle.Trace.Deltas.Counts.{length-deltas_between}
use coracle.Trap
use coracle.Trap.{record_encoding}
use coracle.Trap.Log.{IsTrapLog, count_of}
use coracle.Trap.Log.Counts.{record_all, times, record_all-exact}
use coracle.Interp.Flags.{add_with_carry, is_condition_met, sign_bit}
use coracle.Interp.Flags.Compare.{
  biased, add_with_carry-exact, compare-conditions, invert-is_condition_met,
}
use coracle.Interp.Memory.{read_uint, write_uint}
use coracle.Interp.Memory.Bytes.{to_le}
use coracle.Interp.Memory.Flat
use coracle.Interp.Memory.Flat.{FlatMemory, read, write, flat}
use coracle.Interp.Memory.Flat.Splice.{read-write, read_uint-write_uint}
use coracle.GuestMemory.{page_size}
use coracle.Shim.MemoryMap
use coracle.Shim.MemoryMap.{ArenaLayout, set_brk, map}
use coracle.Shim.MemoryMap.Arena.{Reaches, map-fresh, set_brk-bounds}

abbrev regs : RegFile.RegFile
regs = RegFile.new

read_x-write_x_self_example : read_x (write_x regs (Gpr.x 3) 7) (Gpr.x 3) ≡ 7
read_x-write_x_self_example =
    read_x-write_x_self regs (Gpr.x 3) 7 new-IsRegFile (omega arith) (λ e. ground arith)

read_x-write_x_ne_example : read_x (write_x regs (Gpr.x 3) 7) (Gpr.x 4) ≡ read_x regs (Gpr.x 4)
read_x-write_x_ne_example = read_x-write_x_ne regs (Gpr.x 3) (Gpr.x 4) 7 (λ e. ground arith)

to_trace_word-injective_example : regs.pstate ≡ regs.pstate
to_trace_word-injective_example = to_trace_word-injective regs.pstate regs.pstate refl

record_all-exact_example :
    IsTrapLog (record_all Trap.new (7 ∷ 9 ∷ 7 ∷ []))
    × ((record_all Trap.new (7 ∷ 9 ∷ 7 ∷ [])).total ≡ length {A = ℕ} (7 ∷ 9 ∷ 7 ∷ []))
    × ((record_all Trap.new (7 ∷ 9 ∷ 7 ∷ [])).dropped ≡ 0
        → count_of 7 (record_all Trap.new (7 ∷ 9 ∷ 7 ∷ [])).entries ≡ times 7 (7 ∷ 9 ∷ 7 ∷ []))
record_all-exact_example = record_all-exact (7 ∷ 9 ∷ 7 ∷ []) 7 (omega arith)

add_with_carry-exact_example :
    let result = add_with_carry 5 (2 ^ 63 - 1) false RegWidth.x64 in
    let size = 2 ^ width_bits RegWidth.x64 in
    (result.value + to_bit result.flags.c * size
      ≡ mask RegWidth.x64 5 + mask RegWidth.x64 (2 ^ 63 - 1) + to_bit false)
    × (result.value < size)
    × (result.flags.z ≡ (result.value == 0))
    × (result.flags.n ≡ leb (sign_bit RegWidth.x64) result.value)
    × (result.flags.v
        ≡ not (
            biased RegWidth.x64 result.value + sign_bit RegWidth.x64
            == biased RegWidth.x64 5 + biased RegWidth.x64 (2 ^ 63 - 1) + to_bit false))
add_with_carry-exact_example = add_with_carry-exact 5 (2 ^ 63 - 1) false RegWidth.x64

compare-conditions_example :
    let f = (add_with_carry 3 (not64 5) true RegWidth.w32).flags in
    let l = mask RegWidth.w32 3 in
    let r = mask RegWidth.w32 5 in
    (is_condition_met Cond.eq f ≡ (l == r))
    × (is_condition_met Cond.ne f ≡ not (l == r))
    × (is_condition_met Cond.cs f ≡ leb r l)
    × (is_condition_met Cond.cc f ≡ ltb l r)
    × (is_condition_met Cond.hi f ≡ ltb r l)
    × (is_condition_met Cond.ls f ≡ leb l r)
    × (is_condition_met Cond.ge f ≡ leb (biased RegWidth.w32 r) (biased RegWidth.w32 l))
    × (is_condition_met Cond.lt f ≡ ltb (biased RegWidth.w32 l) (biased RegWidth.w32 r))
    × (is_condition_met Cond.gt f ≡ ltb (biased RegWidth.w32 r) (biased RegWidth.w32 l))
    × (is_condition_met Cond.le f ≡ leb (biased RegWidth.w32 l) (biased RegWidth.w32 r))
compare-conditions_example = compare-conditions 3 5 RegWidth.w32 (omega arith)

invert-is_condition_met_example :
    (is_condition_met (invert Cond.hi) regs.pstate.nzcv
      ≡ not (is_condition_met Cond.hi regs.pstate.nzcv))
    × (invert (invert Cond.hi) ≡ Cond.hi)
invert-is_condition_met_example =
    invert-is_condition_met Cond.hi regs.pstate.nzcv (λ e. ground arith) (λ e. ground arith)

abbrev ram : FlatMemory
ram = record { base = 4096; bytes = 1 ∷ 2 ∷ 3 ∷ 4 ∷ [] }

fits : (write ram 4097 (8 ∷ 9 ∷ [])).0 ≡ ok tt
unfolding write Flat.offset
fits = refl

fits_uint : (write_uint flat ram 4098 2 517).0 ≡ ok tt
unfolding write_uint write Flat.offset to_le
fits_uint = refl

read-write_example :
    (read (write ram 4097 (8 ∷ 9 ∷ [])).1 4097 (length {A = ℕ} (8 ∷ 9 ∷ [])) ≡ ok (8 ∷ 9 ∷ []))
    × ((other len : ℕ)
        → (other + len ≤ 4097) ⊎ (4097 + length {A = ℕ} (8 ∷ 9 ∷ []) ≤ other)
        → read (write ram 4097 (8 ∷ 9 ∷ [])).1 other len ≡ read ram other len)
read-write_example = read-write ram 4097 (8 ∷ 9 ∷ []) (omega arith) fits

read_uint-write_uint_example : read_uint flat (write_uint flat ram 4098 2 517).1 4098 2 ≡ ok 517
read_uint-write_uint_example =
    read_uint-write_uint ram 4098 2 517 (omega arith) (omega arith) fits_uint

abbrev windows : ArenaLayout
windows = record {
  heap_base = 0x10000;
  heap_limit = 0x20000;
  mmap_base = 0x100000;
  mmap_limit = 0x130000;
}

first_page : (map (MemoryMap.new windows) 1).0 ≡ Option.some 0x100000
unfolding map MemoryMap.new
first_page = refl

abbrev after_one : MemoryMap.MemoryMap
after_one = (map (MemoryMap.new windows) 1).1

reached : Reaches windows after_one ((0x100000, 1) ∷ [])
reached = Reaches.mapped (MemoryMap.new windows) [] 1 0x100000 Reaches.start first_page

second_page : (map after_one 4097).0 ≡ Option.some 0x101000
unfolding map MemoryMap.new
second_page = refl

map-fresh_example :
    (0x101000 % page_size ≡ 0)
    × (0x100000 ≤ 0x101000)
    × (0x101000 + 4097 ≤ 0x130000)
    × (Memᴰ {A = ℕ × ℕ} (0x100000, 1) ((0x100000, 1) ∷ []) → 0x100000 + 1 ≤ 0x101000)
map-fresh_example =
    map-fresh windows after_one ((0x100000, 1) ∷ []) 4097 0x101000 0x100000 1 refl reached
      second_page

set_brk-bounds_example :
    (windows.heap_base ≤ after_one.brk)
    × (after_one.brk ≤ windows.heap_limit)
    × ((after_one.layout.heap_base ≤ 0x11000)
          × (0x11000 ≤ after_one.layout.heap_limit)
          × ((set_brk after_one 0x11000).0 ≡ 0x11000)
          × ((set_brk after_one 0x11000).1.brk ≡ 0x11000)
        ⊎ ((0x11000 < after_one.layout.heap_base) ⊎ (after_one.layout.heap_limit < 0x11000))
          × ((set_brk after_one 0x11000).0 ≡ after_one.brk)
          × ((set_brk after_one 0x11000).1 ≡ after_one))
set_brk-bounds_example =
    set_brk-bounds windows after_one ((0x100000, 1) ∷ []) 0x11000 refl (omega arith) reached

-- `adds w3, w5, #1, lsl #12`.
decode-add_sub_word_example :
    let word = add_sub_word false false true true 1 5 3 in
    decode word ≡ record {
      op = if false then Op.sub else Op.add;
      form =
          Form.reg_imm
            (if true then from_index_zr 3 else from_index_sp 3)
            (from_index_sp 5)
            (if true then 1 * 2 ^ 12 else 1);
      width = if false then RegWidth.x64 else RegWidth.w32;
      round = RoundMode.current;
      sets_flags = true;
      encoding = word;
    }
decode-add_sub_word_example =
    decode-add_sub_word false false true true 1 5 3 (omega arith) (omega arith) (omega arith)

length-deltas_between_example :
    (length (deltas_between Option.none regs) ≤ 100)
    × (◌≡◌ {A = Option RegFile.RegFile} Option.none Option.none
        → length (deltas_between Option.none regs) ≡ 100)
    × (Option.none ≡ Option.some regs → length (deltas_between Option.none regs) ≡ 0)
length-deltas_between_example = length-deltas_between Option.none regs
