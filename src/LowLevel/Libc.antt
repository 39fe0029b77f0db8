-- ===== src/LowLevel/Libc.antt =====
-- The error numbers of the `libc` crate that the code compares with, and `SysError` of
-- low_level/spawn/mod.rs.
use core_shift.Base.{ℕ, String, Bool, ◌||◌, ◌==◌}

pub record Errno : Type 0 where
  pub eintr : ℕ
  pub eagain : ℕ
  pub ewouldblock : ℕ
  pub epipe : ℕ
  pub echild : ℕ
  pub esrch : ℕ

-- The numbers of Linux, for tests.
abbrev pub linux : Errno
linux = record { eintr = 4; eagain = 11; ewouldblock = 11; epipe = 32; echild = 10; esrch = 3 }

pub data SysError : Type 0 where
  syscall : ℕ → String → SysError

-- `code == libc::EAGAIN || code == libc::EWOULDBLOCK`.
abbrev pub would_block : Errno → ℕ → Bool
would_block c code = code == c.eagain || code == c.ewouldblock
