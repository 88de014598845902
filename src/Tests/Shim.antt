-- ===== src/Tests/Shim.antt =====
-- The theorems on the shim and on the trace writer, at concrete inputs.
use coracle.Prelude.{
  ℕ, ◌+◌, ◌-◌, ◌/◌, ◌%◌, ◌^◌, ◌≤◌, ◌<◌, ◌≡◌, ◌≢◌, ◌↔◌, refl, arith, map, [], ◌∷◌, ◌++◌, length, min,
  ok, List, Option, wrapping_add,
}
use mathlib.Core.List.{Memᴰ}
use coracle.Reg.{Gpr}
use coracle.RegFile
use coracle.RegFile.{read_x, write_x}
use coracle.GuestMemory.{page_size}
use coracle.Trace.{MarkerKind, EndReason, null_sink}
use coracle.Trace.Writer.{CdtWriter}
use coracle.Trace.Writer.Records.{Event, write_events, tags, tag_of, write_events-tags}
use coracle.Interp.Memory.{read_uint, write_uint}
use coracle.Interp.Memory.Flat
use coracle.Interp.Memory.Flat.{FlatMemory, flat}
use coracle.Interp.Memory.Flat.End.{flat_extent}
use coracle.Interp.Memory.Bytes.{to_le}
use coracle.Interp.Cpu.{Cpu, with_sink}
use coracle.Shim.Host.Capturing
use coracle.Shim.Host.Capturing.{CapturingHost, capturing}
use coracle.Shim.MemoryMap
use coracle.Shim.MemoryMap.{MemoryMap}
use coracle.Shim.MemoryMap.Arena.{Reaches}
use coracle.Shim.State
use coracle.Shim.State.{Shim, default_layout}
use coracle.Shim.State.Layout.{default_layout-apart}
use coracle.Shim.Structs.{write_timespec}
use coracle.Shim.Structs.Clock.{write_timespec-read}
use coracle.Shim.Dispatch.{to_i32, read_c_string, max_path, writev}
use coracle.Shim.Dispatch.Strings.{HoldsText, read_c_string_iff}
use coracle.Shim.Dispatch.Output.{IsOutput, writev-IsOutput}
use coracle.Shim.Service.{ShimExit, service, args_of, run}
use coracle.Shim.Service.Kept.{IsServed, service-kept}
use coracle.Shim.Service.Bounds.{run-bounds}
use coracle.Shim.Service.Ends.{run-ends}

-- `svc #0`, a word of padding, a vector of one span, and the text that it spans with a zero byte.
abbrev program : FlatMemory
program = record {
  base = 4096;
  bytes =
      1 ∷ 0 ∷ 0 ∷ 212 ∷ 0 ∷ 0 ∷ 0 ∷ 0 ∷ 24 ∷ 16 ∷ 0 ∷ 0 ∷ 0 ∷ 0 ∷ 0 ∷ 0 ∷ 2 ∷ 0 ∷ 0 ∷ 0 ∷ 0 ∷ 0 ∷ 0
      ∷ 0 ∷ 104 ∷ 105 ∷ 0 ∷ 0 ∷ [];
}

abbrev ready : RegFile.RegFile
ready =
    let regs = (with_sink {S = Unit {0}} program tt).regs in
    write_x (write_x (write_x (write_x regs (Gpr.x 8) 66) (Gpr.x 0) 1) (Gpr.x 1) 4104) (Gpr.x 2) 1

-- A guest about to `writev` the vector to its standard output.
abbrev guest : Cpu FlatMemory (Unit {0})
guest = record (with_sink program tt) { regs = record ready { pc = 4096 } }

abbrev shim : Shim CapturingHost
shim = State.new Capturing.new (default_layout 0x100000 0x10000)

service-kept_example :
    IsServed (read_x guest.regs (Gpr.x 8)) shim guest (service capturing flat null_sink shim guest)
service-kept_example = service-kept capturing flat null_sink shim guest

run-bounds_example :
    let out = run capturing flat null_sink 5 shim guest 2 in
    (guest.icount ≤ out.2.icount)
    × (out.2.icount ≤ guest.icount + 2)
    × (out.2.icount < 2 ^ 64)
    × (out.0 ≡ Option.some ShimExit.budget_exhausted
        → out.2.icount ≡ min (guest.icount + 2) (2 ^ 64 - 1))
run-bounds_example = run-bounds capturing flat null_sink 5 shim guest 2 (omega arith)

run-ends_example : (run capturing flat null_sink 16500 shim guest 3).0 ≢ Option.none
run-ends_example =
    run-ends capturing flat null_sink flat_extent 16500 shim guest 3 (omega arith) (omega arith)

abbrev text : List ℕ
text = 104 ∷ 105 ∷ []

read_c_string_iff_example :
    read_c_string flat program 4120 ≡ ok text
    ↔ (HoldsText flat program 4120 0 text × (length text < max_path))
read_c_string_iff_example = read_c_string_iff flat program 4120 text

to_stdout : to_i32 (args_of capturing flat null_sink guest).a0 ≡ 1
unfolding read_x write_x RegFile.new
to_stdout = refl

writev-IsOutput_example :
    IsOutput flat 0 shim guest
      (writev capturing flat shim guest (args_of capturing flat null_sink guest))
writev-IsOutput_example =
    writev-IsOutput flat shim guest (args_of capturing flat null_sink guest) to_stdout

stored : (write_timespec flat program 4096 3000000007).0 ≡ ok 0
unfolding write_timespec Flat.write Flat.offset write_uint to_le
stored = refl

write_timespec-read_example :
    let after = (write_timespec flat program 4096 3000000007).1 in
    (read_uint flat after 4096 8 ≡ ok (3000000007 / 1000000000))
    × (read_uint flat after (wrapping_add 4096 8) 8 ≡ ok (3000000007 % 1000000000))
write_timespec-read_example =
    write_timespec-read program 4096 3000000007 (omega arith) (omega arith) stored

abbrev fresh_map : MemoryMap
fresh_map = MemoryMap.new (default_layout 0x100000 0x10000)

first_mapping : (MemoryMap.map fresh_map 5).0 ≡ Option.some 0x108000
unfolding MemoryMap.map MemoryMap.new default_layout
first_mapping = refl

default_layout-apart_example :
    (0x100000 ≤ fresh_map.brk)
    × (fresh_map.brk ≤ 0x100000 + 0x10000 / 2)
    × (0x100000 + 0x10000 / 2 ≤ 0x108000)
    × (0x108000 + 5 ≤ 0x100000 + 0x10000)
    × (0x108000 % page_size ≡ 0)
    × (Memᴰ {A = ℕ × ℕ} (0, 0) [] → 0 + 0 ≤ 0x108000)
default_layout-apart_example =
    default_layout-apart 0x100000 0x10000 fresh_map [] 5 0x108000 0 0 (omega arith) refl refl
      Reaches.start first_mapping

abbrev calls : List Event
calls =
    Event.marker MarkerKind.trace_start 0 0
    ∷ Event.block 4096 1 []
    ∷ Event.end EndReason.normal 1
    ∷ []

write_events-tags_example :
    let w : CdtWriter = record { buffer = [] } in
    (bytes : List ℕ) × ((write_events w calls).buffer ≡ w.buffer ++ bytes)
    × (length bytes % 8 ≡ 0)
    × (tags (length calls) bytes ≡ map tag_of calls)
write_events-tags_example = write_events-tags (record { buffer = [] }) calls
