-- ===== src/LowLevel/WaitLoop.antt =====
-- wait_loop of low_level/spawn/mod.rs: what it does in a round about the deadline, the signals that
-- it sends and the timeout of its poll. The answers of `kill` and the clock are arguments.
pub mod Escalation
pub mod Poll
pub mod Loop
pub mod Signals
use core_shift.Base.{
  ℕ, ◌+◌, ◌-◌, ◌*◌, ◌/◌, ◌^◌, min, Bool, true, false, Option, none, some, List, [], ◌∷◌, ◌++◌, ◌||◌,
  is_some, Result, ok, err, ltb, leb, if◌then◌else◌,
}
use core_shift.Base.Int.{ℤ, pos, negsuc, ltb_ℤ, is_minus_one}
use core_shift.LowLevel.Libc.{SysError}
use core_shift.LowLevel.Sys.{CancelPolicy}

-- `not_sent` is the source's `None`.
pub data KillState : Type 0 where
  not_sent term_sent kill_sent : KillState

-- A signal that is sent, and whether to the whole group.
pub data Signal : Type 0 where
  sigterm sigkill : Bool → Signal

-- What stays the same over the loop.
pub record Options : Type 0 where
  pub deadline : Option ℕ
  pub kill_grace_ms : ℕ
  pub cancel : CancelPolicy
  pub isolated : Bool
  pub leader : Option ℕ

abbrev pub target_is_group : Options → Bool
target_is_group o = o.isolated || is_some o.leader

-- `match state`, past the deadline: the new state and the signal that is sent; `answer` is
-- what sending it gives.
unfoldable pub escalate :
    Options → ℕ → Result (Unit {0}) SysError → KillState → CancelPolicy → KillState × List Signal
escalate o elapsed_over (err e) KillState.not_sent CancelPolicy.graceful =
    (KillState.kill_sent, sigterm (target_is_group o) ∷ [])
escalate o elapsed_over (ok u) KillState.not_sent CancelPolicy.graceful =
    (KillState.term_sent, sigterm (target_is_group o) ∷ [])
escalate o elapsed_over answer KillState.not_sent CancelPolicy.kill =
    (KillState.kill_sent, sigkill (target_is_group o) ∷ [])
escalate o elapsed_over answer KillState.not_sent CancelPolicy.none = (KillState.not_sent, [])
escalate o elapsed_over answer KillState.term_sent policy =
    if ltb o.kill_grace_ms elapsed_over
    then (KillState.kill_sent, sigkill (target_is_group o) ∷ [])
    else (KillState.term_sent, [])
escalate o elapsed_over answer KillState.kill_sent policy = (KillState.kill_sent, [])

pub record Watch : Type 0 where
  pub state : KillState
  pub timed_out : Bool

-- A round up to the poll: the state, the signals, and `poll_timeout`.
pub record Round : Type 0 where
  pub watch : Watch
  pub signals : List Signal
  pub poll_timeout : ℤ

unfoldable pub round : Options → ℕ → Result (Unit {0}) SysError → Watch → Round
unfolding escalate
round o now answer w = elim o.deadline [
  | none ↦ record { watch = w; signals = []; poll_timeout = negsuc 0 }
  | some dl ↦
      if leb dl now
      then (let (state, signals) = escalate o ((now - dl) / 1_000_000) answer w.state o.cancel in
          record {
            watch = record { state = state; timed_out = true };
            signals = signals;
            poll_timeout = pos 100;
          })
      else record {
        watch = w;
        signals = [];
        poll_timeout = pos (min ((dl - now) / 1_000_000) (2 ^ 31 - 1));
      }
]

-- The rounds at the readings of the clock.
unfoldable pub rounds :
    Options → List (ℕ × Result (Unit {0}) SysError) → Watch → Watch × List Signal
unfolding round
rounds o [] w = (w, [])
rounds o ((now, answer) ∷ more) w =
    let first = round o now answer w in
    let (last, signals) = rounds o more first.watch in (last, first.signals ++ signals)

-- The timeout of the poll, once the exit status is known or not.
unfoldable pub wait_timeout : Bool → ℤ → ℤ
wait_timeout true poll_timeout =
    if is_minus_one poll_timeout
    then pos 1
    else if ltb_ℤ (pos 1) poll_timeout
    then pos 1
    else poll_timeout
wait_timeout false poll_timeout = poll_timeout
