-- ===== src/LowLevel/Spawn.antt =====
-- Process of low_level/spawn/mod.rs. The answers of `waitpid` and `kill` are arguments, and the
-- macros of libc that read a status are parameters.
pub mod Waiting
use core_shift.Base.{
  ℕ, Bool, Option, none, some, List, [], ◌∷◌, Result, ok, err, ◌==◌, if◌then◌else◌,
}
use core_shift.Base.Int.{ℤ, pos, negsuc}
use core_shift.LowLevel.Libc.{Errno, SysError, syscall}

pub record StatusMacros : Type 0 where
  pub wifexited : ℤ → Bool
  pub wexitstatus : ℤ → ℤ
  pub wifsignaled : ℤ → Bool
  pub wtermsig : ℤ → ℤ

pub data ExitStatus : Type 0 where
  exited signaled : ℤ → ExitStatus

unfoldable pub decode_status : StatusMacros → ℤ → ExitStatus
decode_status w status =
    if w.wifexited status
    then exited (w.wexitstatus status)
    else if w.wifsignaled status
    then signaled (w.wtermsig status)
    else exited (negsuc 0)

-- An answer of `waitpid`: 0, the process with its status, or an error.
pub data Waited : Type 0 where
  unchanged : Waited
  changed : ℤ → Waited
  failed : ℕ → Waited

-- `none`: the answers are described no further.
unfoldable pub wait_step :
    Errno → StatusMacros → List Waited → Option (Result (Option ExitStatus) SysError × List Waited)
unfolding decode_status
wait_step c w [] = none
wait_step c w (unchanged ∷ answers) = some (ok none, answers)
wait_step c w (changed status ∷ answers) = some (ok (some (decode_status w status)), answers)
wait_step c w (failed e ∷ answers) =
    let again = wait_step c w answers in
    if e == c.eintr
    then again
    else if e == c.echild
    then some (ok (some (exited (pos 0))), answers)
    else some (err (syscall e "waitpid_step"), answers)

-- An answer of 0, which `waitpid` does not give without WNOHANG, would leave the status at 0.
unfoldable pub wait_blocking :
    Errno → StatusMacros → List Waited → Option (Result ExitStatus SysError × List Waited)
unfolding decode_status
wait_blocking c w [] = none
wait_blocking c w (unchanged ∷ answers) = some (ok (decode_status w (pos 0)), answers)
wait_blocking c w (changed status ∷ answers) = some (ok (decode_status w status), answers)
wait_blocking c w (failed e ∷ answers) =
    let again = wait_blocking c w answers in
    if e == c.eintr
    then again
    else if e == c.echild
    then some (ok (exited (pos 0)), answers)
    else some (err (syscall e "waitpid_blocking"), answers)

-- `kill` and `kill_pgroup`, from what the system call answers.
unfoldable pub kill : Errno → Option ℕ → Result (Unit {0}) SysError
kill c none = ok tt
kill c (some e) = if e == c.esrch then ok tt else err (syscall e "kill")

unfoldable pub kill_pgroup : Errno → Option ℕ → Result (Unit {0}) SysError
kill_pgroup c none = ok tt
kill_pgroup c (some e) = if e == c.esrch then ok tt else err (syscall e "kill_pgroup")
