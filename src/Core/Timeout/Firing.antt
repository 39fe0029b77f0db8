-- ===== src/Core/Timeout/Firing.antt =====
-- TimeoutPolicyModule::handle_event (core/policy.rs): each deadline fires once.
use core_shift.Base.{ℕ, ◌+◌, ◌≤◌, ◌≡◌, refl, List, [], ◌∷◌, ◌++◌, leb, if◌then◌else◌, arith}
use core_shift.Base.HashMap.{HashMap}
use core_shift.Core.Types.{Action, Event}
use core_shift.Core.Timeout.{
  TimeoutEntry, TimeoutState, TimeoutPolicyModule, waiting_for_deadline, waiting_for_kill_grace,
  fire, fire_all, handle_event,
}

abbrev reaches : Action → ℕ
reaches (Action.timeout_reached id) = 1
reaches _ = 0

-- The timeouts that a list of actions announces.
abbrev pub reached : List Action → ℕ
reached [] = 0
reached (a ∷ actions) = reaches a + reached actions

abbrev overdue : ℕ → ℕ → TimeoutState → ℕ
overdue now deadline waiting_for_deadline = if leb deadline now then 1 else 0
overdue now deadline (waiting_for_kill_grace g) = 0

-- The entries still waiting whose deadline has come.
abbrev pub expired : ℕ → HashMap TimeoutEntry → ℕ
expired now [] = 0
expired now ((k, e) ∷ m) = overdue now e.deadline e.state + expired now m

reached-append : (xs ys : List Action) → reached (xs ++ ys) ≡ reached xs + reached ys
reached-append [] ys = omega arith
reached-append (x ∷ xs) ys = omega (arith, reached-append xs ys)

reached-fire :
    (now : ℕ) (e : TimeoutEntry) (s : TimeoutState)
    → reached (fire now e s).1 ≡ overdue now e.deadline s
unfolding fire
reached-fire now e waiting_for_deadline = ground arith
reached-fire now e (waiting_for_kill_grace g) = ground arith

reached-fire_all : (now : ℕ) (m : HashMap TimeoutEntry) → reached (fire_all now m).1 ≡ expired now m
unfolding fire_all
reached-fire_all now [] = refl
reached-fire_all now ((k, e) ∷ m) = omega (
  arith,
  reached-append (fire now e e.state).1 (fire_all now m).1,
  reached-fire now e e.state,
  reached-fire_all now m,
)

overdue-fire :
    (now now' : ℕ) (e : TimeoutEntry) (s : TimeoutState)
    → e.state ≡ s
    → now ≤ now'
    → overdue now e.deadline s + overdue now' (fire now e s).0.deadline (fire now e s).0.state
      ≡ overdue now' e.deadline s
unfolding fire
overdue-fire now now' e waiting_for_deadline h l = ground arith
overdue-fire now now' e (waiting_for_kill_grace g) h l = ground arith

expired-fire_all :
    (now now' : ℕ) (m : HashMap TimeoutEntry)
    → now ≤ now'
    → expired now m + expired now' (fire_all now m).0 ≡ expired now' m
unfolding fire_all
expired-fire_all now now' [] l = refl
expired-fire_all now now' ((k, e) ∷ m) l =
    omega (arith, overdue-fire now now' e e.state refl l, expired-fire_all now now' m l)

-- Over two calls at rising times, the timeouts announced are exactly the deadlines that had come by
-- the second call and not fired before: none is announced twice, and none is missed.
pub handle_event_fires_once :
    (now now' : ℕ) (m : TimeoutPolicyModule) (e e' : Event)
    → now ≤ now'
    → let first = handle_event now m e in
      let second = handle_event now' first.0 e' in
      reached first.1 + reached second.1 ≡ expired now' m.tracking
unfolding handle_event
handle_event_fires_once now now' m e e' l = omega (
  arith,
  reached-fire_all now m.tracking,
  reached-fire_all now' (fire_all now m.tracking).0,
  expired-fire_all now now' m.tracking l,
)
