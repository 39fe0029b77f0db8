-- ===== src/LowLevel/Fd.antt =====
-- Fd of low_level/reactor/mod.rs. The kernel's side of a descriptor is an argument: the bytes that
-- the peer supplies, and the kernel's answers to the coming system calls.
-- An answer to a read gives the next bytes, `n` at most and never more than were asked for, and
-- none at the end of the bytes; an answer to a write takes `n` bytes at most of those offered.
pub mod Transfers
pub mod Written
use Prim.Native.Nat.{bit_or}
use core_shift.Base.{
  ℕ, String, min, length, List, [], ◌∷◌, ◌++◌, Option, none, some, Result, ok, err, take, drop,
  ◌==◌, if◌then◌else◌,
}
use core_shift.LowLevel.Libc.{Errno, SysError, syscall}

pub data Answer : Type 0 where
  transfer : ℕ → Answer
  failed : ℕ → Answer

pub record Source : Type 0 where
  pub pending : List ℕ
  pub answers : List Answer

pub record Sink : Type 0 where
  pub written : List ℕ
  pub answers : List Answer

-- The loop retries on EINTR. `none`: the kernel's answers are described no further.
unfoldable pub read_loop :
    Errno → ℕ → List ℕ → List Answer → Option (Result (List ℕ) SysError × Source)
read_loop c count pending [] = none
read_loop c count pending (transfer n ∷ answers) = some (
  ok (take (min n count) pending),
  record { pending = drop (min n count) pending; answers = answers },
)
read_loop c count pending (failed e ∷ answers) =
    let again = read_loop c count pending answers in
    if e == c.eintr
    then again
    else some (err (syscall e "read"), record { pending = pending; answers = answers })

unfoldable pub read : Errno → ℕ → Source → Option (Result (List ℕ) SysError × Source)
unfolding read_loop
read c count source = read_loop c count source.pending source.answers

-- The bytes that are written, and their number.
unfoldable pub write_loop :
    Errno → List ℕ → List ℕ → List Answer → Option (Result ℕ SysError × Sink)
write_loop c bytes written [] = none
write_loop c bytes written (transfer n ∷ answers) =
    some
      (ok (length (take n bytes)), record { written = written ++ take n bytes; answers = answers })
write_loop c bytes written (failed e ∷ answers) =
    let again = write_loop c bytes written answers in
    if e == c.eintr
    then again
    else some (err (syscall e "write"), record { written = written; answers = answers })

unfoldable pub write : Errno → List ℕ → Sink → Option (Result ℕ SysError × Sink)
unfolding write_loop
write c bytes sink = write_loop c bytes sink.written sink.answers

-- `Fd::new`: a system call gave the number, or failed.
unfoldable pub new : String → Result ℕ ℕ → Result ℕ SysError
new op (ok fd) = ok fd
new op (err e) = err (syscall e op)

-- The answers to `dup2`: none is a success.
unfoldable pub dup2 : Errno → List (Option ℕ) → Option (Result (Unit {0}) SysError)
dup2 c [] = none
dup2 c (none ∷ answers) = some (ok tt)
dup2 c (some e ∷ answers) =
    let again = dup2 c answers in if e == c.eintr then again else some (err (syscall e "dup2"))

-- The answers to `fcntl`: the flags that there are, and none, or an error. The flags that are set are
-- those with one more.
unfoldable pub set_flag :
    String → String → ℕ → Result ℕ ℕ → (ℕ → Option ℕ) → Result (Unit {0}) SysError
set_flag get_op set_op flag (err e) set = err (syscall e get_op)
set_flag get_op set_op flag (ok flags) set = elim (set (bit_or flags flag)) [
  | none ↦ ok tt
  | some e ↦ err (syscall e set_op)
]

-- `nonblock` is O_NONBLOCK, and `cloexec` FD_CLOEXEC.
unfoldable pub set_nonblock : ℕ → Result ℕ ℕ → (ℕ → Option ℕ) → Result (Unit {0}) SysError
unfolding set_flag
set_nonblock nonblock flags set = set_flag "fcntl(F_GETFL)" "fcntl(F_SETFL)" nonblock flags set

unfoldable pub set_cloexec : ℕ → Result ℕ ℕ → (ℕ → Option ℕ) → Result (Unit {0}) SysError
unfolding set_flag
set_cloexec cloexec flags set = set_flag "fcntl(F_GETFD)" "fcntl(F_SETFD)" cloexec flags set
