-- ===== src/Lib.antt =====
-- Coracle: an AArch64 user-mode emulator. This library models the CPU core, crates/core/src: the
-- register file, the decoder, the interpreter and its run loop, the trace writer, the floating point
-- and the shim that serves the system calls of a Linux guest.
--
-- How the program's parts interact. `Cpu::run` (crates/core/src/interp/mod.rs) repeats `Cpu::step`:
-- fetch a word from memory, look its decoded form up in a cache, report a block to the trace sink,
-- execute, and advance the PC. The decoder (crates/core/src/decode) is a pure function of the word.
-- Execution reads and writes the register file and the memory, and a trap ends the run. `Shim::run`
-- (crates/core/src/shim/mod.rs) runs the CPU until it traps; at an SVC it dispatches the call on X8 over
-- the host and the guest's memory, writes X0 and resumes past the instruction. `CdtWriter` is the trace
-- sink that writes a record for each event. `FpEngine` chooses, at each write of the FPCR, between the
-- software floating point and a backend that uses the floats of the host.
--
-- Which module models which file, with the source's names in the model's spelling:
--   Pstate, Reg, RegFile     pstate.rs, reg.rs, regfile.rs
--   Decode                   decode/mod.rs; Decode/Op, Operand, Address, Instruction their files
--   Decode/Group             decode/group: DpImmediate (with BitMasks), DpRegister, BranchSystem
--                            and LoadsStores
--   Decode/SimdFp            decode/group/simd_fp
--   Trap                     trap.rs
--   Trace, Trace/Deltas      trace/sink.rs
--   Trace/Format, Writer     trace/format.rs and writer.rs
--   Interp                   interp: Flags, Fetch, Memory, Cache, Dispatch, and Step for mod.rs
--   GuestMemory              guest_memory.rs
--   Shim/MemoryMap, Number   shim/memory_map.rs, number.rs
--   Shim/Host                shim/host.rs; Shim/Host/Capturing its CapturingHost
--   Shim/State, Service      shim/mod.rs: the log and the layout, and service and run
--   Shim/Structs             shim/structs.rs
--   Shim/Dispatch            shim/dispatch.rs, with Call for the table of the calls
--   Fp/Operand, Control, Backend, Native, Engine
--                            the files of those names in fp
--   Fp/Softfloat, Reference  fp/softfloat: Nan, Compare, Decompose, Arithmetic, Fused and Convert, and
--                            Fp/Reference for mod.rs
-- Decode/Ranges is about the operands that are decoded, and Decode/Assembled builds words from fields.
-- Interp/Memory/Extent is the interface to a memory whose addresses end somewhere.
-- Interp/Reference is the machine without cache and tracing that the interpreter is compared with.
-- Tests holds runs at concrete inputs.
--
-- State is passed explicitly: an operation that the source declares with `&mut self` gives its
-- result and the state after it. `Result` is `Result`, and `?` is `do`. A u64 is a natural number
-- below 2 ^ 64 and an i64 is its bit pattern; wrapping operations have their remainder written out.
-- The arrays of the register file are lists, those of the decode cache functions of the slot. The
-- `Memory` and `TraceSink` traits are records that the interpreter takes as parameters; a memory
-- brings the law that a faulting write changes nothing, which the flat memory of interp/memory.rs
-- satisfies. The `HostIo` trait is a record too, with the laws that a read fills the buffer it is
-- given and counts no more than its length, which `CapturingHost` satisfies. The floats of the host
-- (`HostFloats`) and the flag of a precise build are parameters. Unchecked additions wrap around,
-- the counters included, as in a release build; a build with overflow checks panics there instead.
-- The theorems that count say for which sizes no counter wraps. In GuestMemory a usize has the 32
-- bits of wasm32. An i32 exponent of the software floating point is an integer, and its casts to u32
-- and u64 have their remainder written out.
--
-- Loops are structural: the run loop recurs on its budget, the delta loops on the registers left, and
-- the replication of a bitmask element on seven rounds of fuel, which is enough because the element
-- doubles from at least one bit and stops at 64. Each loop of the normalisation has 64 passes, enough
-- for the 64 bits of a significand, and the square root 64, one for each pair of bits of a u128. A text
-- is read for at most 4096 bytes, the bound of the source. The loop of `Shim::run` has fuel as a
-- parameter, and gives none where the fuel runs out before the loop ends: a served system call does not
-- count against the budget, so the fuel that is enough depends on the end of the memory as well.
--
-- Not modelled: crates/core/src/threading.rs, which reports what the build was compiled with; the
-- devices and the machine around the core; the bindings, tests, benchmarks and scripts. The flags of
-- `HostFloats` operations are not modelled, since the native backend reports none.
pub mod Decode
pub mod Fp
pub mod GuestMemory
pub mod Interp
pub mod Prelude
pub mod Pstate
pub mod Reg
pub mod RegFile
pub mod Shim
pub mod Tests
pub mod Trace
pub mod Trap
