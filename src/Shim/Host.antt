-- ===== src/Shim/Host.antt =====
-- crates/core/src/shim/host.rs: what the shim needs from outside the guest, and the errors that it
-- reports. A descriptor and an exit status, each an i32, are the bit pattern below 2 ^ 32.
pub mod Capturing
use coracle.Prelude.{ℕ, ◌-◌, ◌^◌, ◌≤◌, ◌≡◌, Bool, List, Result, ok, length}

pub data Errno : Type 0 where
  perm no_ent bad_fd again no_mem fault inval m_file no_tty no_sys : Errno

-- `self as i64`.
unfoldable pub discriminant : Errno → ℕ
discriminant Errno.perm = 1
discriminant Errno.no_ent = 2
discriminant Errno.bad_fd = 9
discriminant Errno.again = 11
discriminant Errno.no_mem = 12
discriminant Errno.fault = 14
discriminant Errno.inval = 22
discriminant Errno.m_file = 24
discriminant Errno.no_tty = 25
discriminant Errno.no_sys = 38

unfoldable pub to_return_value : Errno → ℕ
unfolding discriminant
to_return_value e = 2 ^ 64 - discriminant e

abbrev pub SysResult : Type 0
SysResult = Result Errno ℕ

-- The `HostIo` trait over the state of a host. A method that fills a buffer takes the buffer and gives
-- it back, of the same length; a read counts no more bytes than its buffer has.
pub record HostIo (H : Type 0) : Type 0 where
  pub write : H → ℕ → List ℕ → SysResult × H
  pub read : H → ℕ → List ℕ → SysResult × List ℕ × H
  pub open_path : H → List ℕ → ℕ → SysResult × H
  pub close : H → ℕ → SysResult × H
  pub size_of : H → ℕ → SysResult × H
  pub is_terminal : H → ℕ → Bool × H
  pub random : H → List ℕ → List ℕ × H
  pub monotonic_nanos : H → ℕ × H
  pub exit : H → ℕ → H
  pub read_count :
      (h : H) (fd : ℕ) (buffer : List ℕ) (count : ℕ)
      → (read h fd buffer).0 ≡ ok count
      → count ≤ length buffer
  pub read_length : (h : H) (fd : ℕ) (buffer : List ℕ) → length (read h fd buffer).1 ≡ length buffer
  pub random_length : (h : H) (buffer : List ℕ) → length (random h buffer).0 ≡ length buffer
