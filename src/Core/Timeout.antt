-- ===== src/Core/Timeout.antt =====
-- core/policy.rs: TimeoutPolicyModule, which tracks deadlines. An `Instant` is in nanoseconds; each
-- reading of the clock is an argument.
pub mod Deadlines
pub mod Firing
pub mod Order
use core_shift.Base.{
  ℕ, ◌+◌, ◌-◌, ◌*◌, ◌/◌, Bool, ◌||◌, Option, none, some, List, [], ◌∷◌, ◌++◌, ltb, leb,
  if◌then◌else◌,
}
use core_shift.Base.Int.{ℤ, pos, negsuc, ltb_ℤ, is_minus_one, as_i32}
use core_shift.Base.HashMap.{HashMap, insert, remove}
use core_shift.Core.Types.{Action, Event, ExecPolicy, LogLevel, LogEvent}

pub data TimeoutState : Type 0 where
  waiting_for_deadline : TimeoutState
  waiting_for_kill_grace : ℕ → TimeoutState

pub record TimeoutEntry : Type 0 where
  pub id : ℕ
  pub state : TimeoutState
  pub deadline : ℕ
  pub kill_grace_ms : ℕ

pub record TimeoutPolicyModule : Type 0 where
  pub tracking : HashMap TimeoutEntry

unfoldable pub new : TimeoutPolicyModule
new = record { tracking = [] }

-- `Duration::from_millis` and `as_millis`.
abbrev pub from_millis : ℕ → ℕ
from_millis ms = ms * 1_000_000

abbrev pub as_millis : ℕ → ℕ
as_millis ns = ns / 1_000_000

-- The instant that an entry waits for.
abbrev pub due : TimeoutState → ℕ → ℕ
due waiting_for_deadline deadline = deadline
due (waiting_for_kill_grace d) deadline = d

-- The milliseconds left of one entry, as the loop computes them.
unfoldable pub remaining_ms : ℕ → TimeoutEntry → ℤ
remaining_ms now entry =
    let deadline = due entry.state entry.deadline in
    if ltb now deadline then as_i32 (as_millis (deadline - now)) else pos 0

unfoldable pub scan : ℕ → ℤ → HashMap TimeoutEntry → ℤ
scan now min_ms [] = min_ms
scan now min_ms ((k, entry) ∷ rest) =
    let ms = remaining_ms now entry in
    scan now (if is_minus_one min_ms || ltb_ℤ ms min_ms then ms else min_ms) rest

unfoldable pub compute_timeout_ms : ℕ → TimeoutPolicyModule → ℤ
unfolding scan remaining_ms
compute_timeout_ms now m = scan now (negsuc 0) m.tracking

-- `timeout_ms.map(…)` and the insertion under `if let`.
unfoldable pub track : ℕ → ℕ → ExecPolicy → Option ℕ → HashMap TimeoutEntry → HashMap TimeoutEntry
track now id policy none tracking = tracking
track now id policy (some t) tracking =
    insert id
      (record {
        id = id;
        state = waiting_for_deadline;
        deadline = now + from_millis t;
        kill_grace_ms = policy.kill_grace_ms;
      })
      tracking

unfoldable pub handle : ℕ → TimeoutPolicyModule → Action → TimeoutPolicyModule × List Action
unfolding track
handle now m (Action.admitted id owner exec policy) = (
  record { tracking = track now id policy policy.timeout_ms m.tracking },
  Action.emit_log LogLevel.info (LogEvent.submit id) ∷ [],
)
handle now m (Action.finished id result) = (record { tracking = remove id m.tracking }, [])
handle now m _ = (m, [])

-- One round of the loop in `handle_event`.
unfoldable pub fire : ℕ → TimeoutEntry → TimeoutState → TimeoutEntry × List Action
fire now entry waiting_for_deadline =
    if leb entry.deadline now
    then (
      record entry { state = waiting_for_kill_grace (now + from_millis entry.kill_grace_ms) },
      Action.emit_log LogLevel.info (LogEvent.timeout entry.id)
          ∷ Action.timeout_reached entry.id
          ∷ [],
    )
    else (entry, [])
fire now entry (waiting_for_kill_grace grace_deadline) =
    if leb grace_deadline now
    then (entry, Action.kill_deadline_reached entry.id ∷ [])
    else (entry, [])

unfoldable pub fire_all : ℕ → HashMap TimeoutEntry → HashMap TimeoutEntry × List Action
fire_all now [] = ([], [])
fire_all now ((k, entry) ∷ rest) =
    let (entry', actions) = fire now entry entry.state in
    let (rest', more) = fire_all now rest in ((k, entry') ∷ rest', actions ++ more)

unfoldable pub handle_event : ℕ → TimeoutPolicyModule → Event → TimeoutPolicyModule × List Action
unfolding fire_all fire
handle_event now m event =
    let (tracking, actions) = fire_all now m.tracking in (record { tracking = tracking }, actions)
