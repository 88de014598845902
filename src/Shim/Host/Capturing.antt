-- ===== src/Shim/Host/Capturing.antt =====
-- `CapturingHost` of crates/core/src/shim/host.rs: no files, and the output kept apart by descriptor.
use coracle.Prelude.{
  ℕ, suc, ◌+◌, ◌%◌, ◌≤◌, ◌≡◌, refl, ap, arith, bit_xor, Bool, Option, none, some, List, [], ◌∷◌,
  ◌++◌, ok, err, ◌==◌, leb, length, u64, shl64, shr64, if◌then◌else◌,
}
use coracle.Shim.Host.{Errno, SysResult, HostIo}

pub record CapturingHost : Type 0 where
  pub stdout : List ℕ
  pub stderr : List ℕ
  pub exit_status : Option ℕ
  pub seed : ℕ
  pub nanos : ℕ

unfoldable pub new : CapturingHost
new = record { stdout = []; stderr = []; exit_status = none; seed = 0x2545f4914f6cdd1d; nanos = 0 }

unfoldable pub next_random : CapturingHost → ℕ × CapturingHost
next_random host =
    let a = bit_xor host.seed (shl64 host.seed 13) in
    let b = bit_xor a (shr64 a 7) in let c = bit_xor b (shl64 b 17) in (c, record host { seed = c })

unfoldable pub write : CapturingHost → ℕ → List ℕ → SysResult × CapturingHost
write host fd bytes =
    if fd == 1
    then (ok (length bytes), record host { stdout = host.stdout ++ bytes })
    else if fd == 2
    then (ok (length bytes), record host { stderr = host.stderr ++ bytes })
    else (err Errno.bad_fd, host)

unfoldable pub read : CapturingHost → ℕ → List ℕ → SysResult × List ℕ × CapturingHost
read host fd buffer = if fd == 0 then (ok 0, buffer, host) else (err Errno.bad_fd, buffer, host)

abbrev open_path : CapturingHost → List ℕ → ℕ → SysResult × CapturingHost
open_path host path flags = (err Errno.no_ent, host)

-- `(0..=2).contains(&fd)`: the pattern of a negative descriptor is past it.
abbrev is_stdio : ℕ → Bool
is_stdio fd = leb fd 2

unfoldable pub close : CapturingHost → ℕ → SysResult × CapturingHost
close host fd = if is_stdio fd then (ok 0, host) else (err Errno.bad_fd, host)

unfoldable pub size_of : CapturingHost → ℕ → SysResult × CapturingHost
size_of host fd = if is_stdio fd then (ok 0, host) else (err Errno.bad_fd, host)

unfoldable pub is_terminal : CapturingHost → ℕ → Bool × CapturingHost
is_terminal host fd = (is_stdio fd, host)

unfoldable pub random : CapturingHost → List ℕ → List ℕ × CapturingHost
unfolding next_random
random host [] = ([], host)
random host (byte ∷ bytes) =
    let drawn = next_random host in
    let rest = random drawn.1 bytes in (drawn.0 % 256 ∷ rest.0, rest.1)

-- The addition is unchecked in a release build.
unfoldable pub monotonic_nanos : CapturingHost → ℕ × CapturingHost
monotonic_nanos host = let nanos = u64 (host.nanos + 1000) in (nanos, record host { nanos = nanos })

abbrev exit : CapturingHost → ℕ → CapturingHost
exit host status = record host { exit_status = some status }

pub read_count :
    (h : CapturingHost) (fd : ℕ) (buffer : List ℕ) (count : ℕ)
    → (read h fd buffer).0 ≡ ok count
    → count ≤ length buffer
unfolding read
read_count h fd buffer count e = ground arith

pub read_length :
    (h : CapturingHost) (fd : ℕ) (buffer : List ℕ) → length (read h fd buffer).1 ≡ length buffer
unfolding read
read_length h fd buffer = ground arith

pub random_length :
    (h : CapturingHost) (buffer : List ℕ) → length (random h buffer).0 ≡ length buffer
unfolding random
random_length h [] = refl
random_length h (byte ∷ bytes) = ap suc (random_length (next_random h).1 bytes)

abbrev pub capturing : HostIo CapturingHost
capturing = record {
  write = write;
  read = read;
  open_path = open_path;
  close = close;
  size_of = size_of;
  is_terminal = is_terminal;
  random = random;
  monotonic_nanos = monotonic_nanos;
  exit = exit;
  read_count = read_count;
  read_length = read_length;
  random_length = random_length;
}
