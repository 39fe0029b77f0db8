-- ===== src/Core/Machine.antt =====
-- The core as one machine: the dispatcher with the execution state, driven by actions and events in
-- any order, as the callers of Dispatcher::dispatch and dispatch_event (core/mod.rs) drive it.
pub mod Muted
pub mod Tracking
pub mod Accounting
pub mod Exits
pub mod Stages
use core_shift.Base.{ℕ, List, [], ◌∷◌, ◌++◌}
use core_shift.Core.Types.{Action, Event, ExecutionState, new_state}
use core_shift.Core.Dispatcher
use core_shift.Core.Dispatcher.{Dispatcher, dispatch, dispatch_event}

pub record Machine : Type 0 where
  pub dispatcher : Dispatcher
  pub state : ExecutionState

unfoldable pub initial : Machine
unfolding Dispatcher.new
initial = record { dispatcher = Dispatcher.new; state = new_state }

-- An action comes with the two readings of the clock.
pub data Input : Type 0 where
  act : ℕ → ℕ → Action → Input
  observe : Event → Input

unfoldable pub step : Machine → Input → Machine × List Action
step m (act now later a) =
    let r = dispatch now later m.dispatcher m.state a in
    (record { dispatcher = r.dispatcher; state = r.state }, r.actions)
step m (observe e) =
    let (s, actions) = dispatch_event m.state e in (record m { state = s }, actions)

-- The machine after the inputs, and all that it emitted.
unfoldable pub run : Machine → List Input → Machine × List Action
unfolding step
run m [] = (m, [])
run m (i ∷ inputs) =
    let (m', actions) = step m i in let (last, more) = run m' inputs in (last, actions ++ more)
