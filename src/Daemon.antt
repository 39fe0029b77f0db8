-- ===== src/Daemon.antt =====
-- run_daemon of lib.rs: the loop over the dispatcher, the executor of effects and the socket server.
-- The executor is an interface, which Runtime implements.
pub mod Interface
pub mod Rank
pub mod Requests
pub mod Steps
pub mod Launched
pub mod Replies
pub mod Clients
pub mod Queries
pub mod Cancels
pub mod Exchange
pub mod Preserved
pub mod Unsettled
pub mod Starved
pub mod Sound
use core_shift.Base.{
  ℕ, zero, suc, ◌+◌, Option, none, some, List, [], ◌∷◌, ◌++◌, Result, ok, err, map,
}
use core_shift.Core.Types.{Action, Effect, Event, ExecutionState, new_state}
use core_shift.Core.Dispatcher
use core_shift.Core.Dispatcher.{Dispatcher, dispatch, dispatch_event}
use core_shift.Core.Effects.{resolve_effects}
use core_shift.LowLevel.Libc.{SysError}
use core_shift.LowLevel.Reactor
use core_shift.MidLevel.Router
use core_shift.MidLevel.Ipc
use core_shift.MidLevel.Ipc.{IpcModule, Act, Connection, intercept_action, handle_event}
use core_shift.Daemon.Interface.{Executor}

-- The objects of the loop, and the number of the dispatches so far, by which the clock is read.
pub record Daemon (x : Executor) : Type 0 where
  pub core : Dispatcher
  pub state : ExecutionState
  pub executor : x.State
  pub ipc : IpcModule
  pub rounds : ℕ

-- `intercept_action` for each of the actions.
unfoldable pub intercept_all : IpcModule → List Action → IpcModule × List Act
intercept_all m [] = (m, [])
intercept_all m (a ∷ actions) =
    let (m', acts) = intercept_action m a in
    let (last, more) = intercept_all m' actions in (last, acts ++ more)

-- `dispatch_event` for each of the events.
unfoldable pub observe_all : ExecutionState → List Event → ExecutionState × List Action
observe_all s [] = (s, [])
observe_all s (e ∷ events) =
    let (s', actions) = dispatch_event s e in
    let (last, more) = observe_all s' events in (last, actions ++ more)

-- How many rounds an action can cause, itself included.
unfoldable pub weigh : Action → ℕ
weigh (Action.submit id owner exec policy) = 8
weigh (Action.admitted id owner exec policy) = 7
weigh (Action.start_process id exec policy) = 5
weigh (Action.control id signal) = 3
weigh (Action.poll_process id) = 3
weigh (Action.finished id result) = 2
weigh (Action.query id) = 2
weigh (Action.timeout_reached id) = 2
weigh (Action.kill_deadline_reached id) = 2
weigh _ = 1

unfoldable pub weigh_all : List Action → ℕ
unfolding weigh
weigh_all [] = 0
weigh_all (a ∷ actions) = weigh a + weigh_all actions

-- `handle_event` of the server for each reactor event, with the connections that are accepted at it.
unfoldable pub handle_all :
    IpcModule → List (Reactor.Event × List Connection) → IpcModule × List Action × List Act
handle_all m [] = (m, [], [])
handle_all m ((e, connections) ∷ events) =
    let first = handle_event m e.token e.readable connections in
    let (last, actions, acts) = handle_all first.ipc events in
    (last, first.actions ++ actions, first.acts ++ acts)

abbrev pub the_event : Reactor.Event × List Connection → Reactor.Event
the_event (e, connections) = e

module _ (x : Executor) where
  -- `if let Some(event) = …`.
  unfoldable pub observed : Option Event → Daemon x → Daemon x × List Action
  observed none d = (d, [])
  observed (some event) d =
      let (s, actions) = dispatch_event d.state event in (record d { state = s }, actions)

  -- The effects, with the actions that their events put on the queue.
  unfoldable pub apply_all : Daemon x → List Effect → Option (Daemon x × List Action)
  unfolding observed
  apply_all d [] = some (d, [])
  apply_all d (effect ∷ effects) = elim (x.apply d.executor effect) [
    | none ↦ none
    | some (s, event) ↦ elim (apply_all (observed event (record d { executor = s })).0 effects) [
      | none ↦ none
      | some (last, more) ↦ some (last, (observed event (record d { executor = s })).1 ++ more)
    ]
  ]

  -- One round of the queue's loop: what goes on the queue, and what the server does.
  unfoldable pub turn : (ℕ → ℕ × ℕ) → Daemon x → Action → Option (Daemon x × List Action × List Act)
  unfolding apply_all intercept_all
  turn clock d a =
      let (now, later) = clock d.rounds in
      let r = dispatch now later d.core d.state a in
      let (ipc_acts, effects) = resolve_effects r.state (a ∷ []) in
      let (ipc, acts) = intercept_all d.ipc ipc_acts in
      let d' : Daemon x = record d {
        core = r.dispatcher;
        state = r.state;
        ipc = ipc;
        rounds = d.rounds + 1;
      } in
      elim (apply_all d' effects) [
        | none ↦ none
        | some (last, events) ↦ some (last, events ++ r.actions, acts)
      ]

  -- `while let Some(action) = queue.pop_front()`, with fuel for its rounds.
  unfoldable pub drain_queue :
      ℕ → (ℕ → ℕ × ℕ) → Daemon x → List Action → Option (Daemon x × List Act)
  unfolding turn
  drain_queue zero clock d queue = none
  drain_queue (suc fuel) clock d [] = some (d, [])
  drain_queue (suc fuel) clock d (a ∷ queue) = elim (turn clock d a) [
    | none ↦ none
    | some (d', more, acts) ↦ elim (drain_queue fuel clock d' (queue ++ more)) [
      | none ↦ none
      | some (last, rest) ↦ some (last, acts ++ rest)
    ]
  ]

  -- One iteration of the loop, on what the reactor gives; an error of it is passed over.
  unfoldable pub iterate :
      (ℕ → ℕ × ℕ)
      → Daemon x
      → Result (List (Reactor.Event × List Connection)) SysError
      → Option (Daemon x × List Act)
  unfolding drain_queue handle_all observe_all weigh_all
  iterate clock d (err e) = some (d, [])
  iterate clock d (ok events) =
      let (ipc, requested, acts) = handle_all d.ipc events in
      let (s, seen) = observe_all d.state (x.ready d.executor (map the_event events)) in
      let queue = requested ++ seen in
      elim (drain_queue (suc (weigh_all queue)) clock (record d { ipc = ipc; state = s }) queue) [
        | none ↦ none
        | some (last, rest) ↦ some (last, acts ++ rest)
      ]

  -- The loop, as long as the reactor's answers are described.
  unfoldable pub run_daemon :
      (ℕ → ℕ × ℕ)
      → Daemon x
      → List (Result (List (Reactor.Event × List Connection)) SysError)
      → Option (Daemon x × List Act)
  unfolding iterate
  run_daemon clock d [] = some (d, [])
  run_daemon clock d (polled ∷ more) = elim (iterate clock d polled) [
    | none ↦ none
    | some (d', acts) ↦ elim (run_daemon clock d' more) [
      | none ↦ none
      | some (last, rest) ↦ some (last, acts ++ rest)
    ]
  ]

  -- The objects at the start; the server's token is 1.
  unfoldable pub start : x.State → Daemon x
  unfolding Dispatcher.new Ipc.new Router.new
  start s = record {
    core = Dispatcher.new;
    state = new_state;
    executor = s;
    ipc = Ipc.new Router.new 1;
    rounds = 0;
  }
