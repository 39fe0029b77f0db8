-- ===== src/LowLevel/Synchronous.antt =====
-- spawn of low_level/spawn/mod.rs: a start and, if that is asked for, the wait for the end. The
-- descriptors that are forgotten are no longer in the drain.
pub mod Fresh
pub mod Unlimited
use core_shift.Base.{
  ℕ, Bool, true, false, Option, none, some, List, [], ◌∷◌, Result, ok, err, if◌then◌else◌,
}
use core_shift.LowLevel.Libc.{Errno, SysError}
use core_shift.LowLevel.Io.Drain.{FdSlot, DrainState, take_all_slots, into_parts}
use core_shift.LowLevel.Launch.{System, SpawnOptions, Running, spawn_start}
use core_shift.LowLevel.Reactor.{add_with_token}
use core_shift.LowLevel.Spawn.{StatusMacros, Waited}
use core_shift.LowLevel.WaitLoop.Loop.{Output, Tick, Finished, options, wait_loop}

-- What the system answers to a call of `spawn`: to `Reactor::new`, to the start, to `epoll_ctl` for
-- a descriptor, by the clock, to the first `waitpid`, and in the rounds of the loop.
pub record Answers : Type 0 where
  pub reactor : Result (Unit {0}) SysError
  pub system : System
  pub epoll : ℕ → Option ℕ
  pub start : ℕ
  pub first : List Waited
  pub ticks : List Tick

-- The slots are registered, and their descriptors forgotten.
unfoldable pub register : (ℕ → Option ℕ) → List FdSlot → Result (Unit {0}) SysError
unfolding add_with_token
register epoll [] = ok tt
register epoll (slot ∷ slots) =
    let rest = register epoll slots in
    elim (add_with_token (epoll slot.fd)) [ err e ↦ err e | ok _ ↦ rest ]

-- The slots leave the drain before the wait.
unfoldable pub after_start :
    Errno → StatusMacros → Answers → SpawnOptions → Running → Option Finished
unfolding register take_all_slots into_parts options wait_loop
after_start c w a opts (pid, running) =
    let (slots, drain) = take_all_slots running in
    elim (register a.epoll slots) [
      | err e ↦ some (err e, [])
      | ok _ ↦
          if opts.wait
          then wait_loop c w
              (options a.start opts.timeout_ms opts.kill_grace_ms opts.cancel opts.pgroup) pid drain
              a.first a.ticks
          else some (
            ok (record {
              pid = pid;
              status = none;
              stdout = (into_parts drain).0;
              stderr = (into_parts drain).1;
              timed_out = false;
            }),
            [],
          )
    ]

unfoldable pub spawn : Errno → StatusMacros → Answers → SpawnOptions → Option Finished
unfolding spawn_start after_start
spawn c w a opts = elim a.reactor [
  | err e ↦ some (err e, [])
  | ok _ ↦ elim (spawn_start a.system 0 opts).result [
    | err e ↦ some (err e, [])
    | ok running ↦ after_start c w a opts running
  ]
]
