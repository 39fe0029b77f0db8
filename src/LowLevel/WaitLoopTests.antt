-- ===== src/LowLevel/WaitLoopTests.antt =====
-- Runs of the waits and of wait_loop's rounds (low_level/spawn/mod.rs).
use core_shift.Base.{
  List, ℕ, ◌+◌, ◌*◌, ◌^◌, ◌≤◌, ◌<◌, ◌≡◌, refl, true, false, none, some, [], ◌∷◌, ok, arith,
}
use core_shift.Base.Int.{pos}
use core_shift.LowLevel.Libc.{linux}
use core_shift.LowLevel.Spawn.{
  StatusMacros, ExitStatus, Waited, unchanged, changed, failed, exited, wait_step, wait_blocking,
}
use core_shift.LowLevel.Sys.{CancelPolicy}
use core_shift.LowLevel.WaitLoop.{KillState, sigterm, sigkill, Options, Watch, round, rounds}
use core_shift.LowLevel.WaitLoop.Escalation.{rounds_complete}
use core_shift.LowLevel.WaitLoop.Poll.{round_poll}

-- A deadline at 10 ms and a grace of 5 ms, for a child in a session of its own.
abbrev graceful : Options
graceful = record {
  deadline = some 10_000_000;
  kill_grace_ms = 5;
  cancel = CancelPolicy.graceful;
  isolated = true;
  leader = none;
}

abbrev start : Watch
start = record { state = KillState.not_sent; timed_out = false }

rounds_complete_example :
    (rounds graceful ((12_000_000, ok tt) ∷ (16_000_000, ok tt) ∷ (17_000_000, ok tt) ∷ []) start).1
    ≡ sigterm true ∷ sigkill true ∷ []
rounds_complete_example =
    rounds_complete graceful 10_000_000 12_000_000 16_000_000 (ok tt) ((17_000_000, ok tt) ∷ [])
      refl refl (omega arith) (omega arith)

round_poll_example :
    (n : ℕ) × ((round graceful 4_000_000 (ok tt) start).poll_timeout ≡ pos n)
    × (n < 2 ^ 31)
    × (4_000_000 < 10_000_000 → 4_000_000 + n * 1_000_000 ≤ 10_000_000)
round_poll_example = round_poll graceful 10_000_000 4_000_000 (ok tt) start refl

-- Statuses that stand for exits with that number.
abbrev plain : StatusMacros
plain = record {
  wifexited = λ s. true;
  wexitstatus = λ s. s;
  wifsignaled = λ s. false;
  wtermsig = λ s. s;
}

-- A signal comes in between, then the child has exited with 3.
abbrev interrupted : List Waited
interrupted = failed 4 ∷ changed (pos 3) ∷ []

interrupted_3 : wait_step linux plain interrupted ≡ some (ok (some (exited (pos 3))), [])
unfolding wait_step core_shift.LowLevel.Spawn.decode_status
interrupted_3 = refl
