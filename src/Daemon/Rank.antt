-- ===== src/Daemon/Rank.antt =====
-- The weights of the actions on the queue of run_daemon (lib.rs).
use core_shift.Base.{
  ℕ, zero, suc, ◌+◌, ◌≤◌, ◌<◌, ◌≡◌, refl, Option, none, some, List, [], ◌∷◌, ◌++◌, Result, ok, err,
  arith, map,
}
use core_shift.Core.Types.{Action, Effect, Event, ExecutionState}
use core_shift.Core.Admission
use core_shift.Core.Timeout
use core_shift.Core.Lifecycle
use core_shift.Core.Process
use core_shift.Core.Io
use core_shift.Core.ResultStore
use core_shift.Core.Dispatcher.{Dispatcher, dispatch, dispatch_event}
use core_shift.Core.Effects.{resolve, resolve_effects}
use core_shift.Daemon.Interface.{Executor, Fits}
use core_shift.LowLevel.Libc.{SysError}
use core_shift.LowLevel.Reactor
use core_shift.MidLevel.Ipc.{Act, Connection}
use core_shift.Daemon.{
  intercept_all, Daemon, weigh, weigh_all, observed, apply_all, turn, drain_queue, iterate,
  run_daemon, handle_all, observe_all, the_event,
}

-- What the events of an effect put on the queue, at most.
abbrev pub promised : Effect → ℕ
promised (Effect.start_process id exec policy) = 4
promised (Effect.poll_process id process) = 2
promised _ = 0

abbrev pub promised_all : List Effect → ℕ
promised_all [] = 0
promised_all (effect ∷ effects) = promised effect + promised_all effects

weigh_all-append : (xs ys : List Action) → weigh_all (xs ++ ys) ≡ weigh_all xs + weigh_all ys
unfolding weigh_all
weigh_all-append [] ys = omega arith
weigh_all-append (x ∷ xs) ys = omega (arith, weigh_all-append xs ys)

-- What is dispatched weighs less than the action, less what its effect promises.
dispatch-weigh :
    (now later : ℕ) (d : Dispatcher) (s : ExecutionState) (a : Action)
    → weigh_all (dispatch now later d s a).actions
        + promised_all (resolve (dispatch now later d s a).state a).1
      < weigh a
unfolding dispatch weigh_all weigh resolve Admission.handle Timeout.handle
dispatch-weigh now later d s (Action.submit id owner exec policy) = ground arith
dispatch-weigh now later d s (Action.admitted id owner exec policy) =
    unfold Lifecycle.handle in ground arith
dispatch-weigh now later d s (Action.start_process id exec policy) =
    unfold Process.handle Io.handle in ground arith
dispatch-weigh now later d s (Action.signal_process id signal) =
    unfold Process.handle Lifecycle.handle in ground arith
dispatch-weigh now later d s (Action.poll_process id) = unfold Process.handle in ground arith
dispatch-weigh now later d s (Action.finished id result) = unfold ResultStore.handle in ground arith
dispatch-weigh now later d s (Action.query id) = unfold ResultStore.handle in ground arith
dispatch-weigh now later d s (Action.control id signal) = unfold Process.handle in ground arith
dispatch-weigh now later d s (Action.timeout_reached id) = unfold Process.handle in ground arith
dispatch-weigh now later d s (Action.kill_deadline_reached id) =
    unfold Process.handle in ground arith
dispatch-weigh now later d s _ = ground arith

promised_all-nil : (l : List Effect) → promised_all (l ++ []) ≡ promised_all l
promised_all-nil [] = refl
promised_all-nil (e ∷ l) = omega (arith, promised_all-nil l)

-- So with the list of one action, as the loop resolves it.
turn_weigh :
    (now later : ℕ) (d : Dispatcher) (s : ExecutionState) (a : Action)
    → weigh_all (dispatch now later d s a).actions
        + promised_all (resolve_effects (dispatch now later d s a).state (a ∷ [])).1
      < weigh a
unfolding resolve_effects
turn_weigh now later d s a = omega (
  arith,
  dispatch-weigh now later d s a,
  promised_all-nil (resolve (dispatch now later d s a).state a).1,
)

event-weigh :
    (s : ExecutionState) (effect : Effect) (e : Event)
    → Fits effect (some e)
    → weigh_all (dispatch_event s e).1 ≤ promised effect
unfolding weigh_all weigh dispatch_event Lifecycle.handle_event Io.handle_event
    ResultStore.handle_event
event-weigh s (Effect.start_process id exec policy) (Event.process_started j process io) f =
    ground arith
event-weigh s (Effect.start_process id exec policy) (Event.process_spawn_failed j message) f =
    ground arith
event-weigh s (Effect.poll_process id process) (Event.process_exited j status) f = ground arith
event-weigh s _ e f = absurd f

module _ (x : Executor) where
  -- The executor answers every effect.
  abbrev pub Answers : Type 0
  Answers =
      (s : x.State) (effect : Effect)
      → (out : x.State × Option Event) × (x.apply s effect ≡ some out)

  observed-weigh :
      (effect : Effect) (event : Option Event) (d : Daemon x)
      → Fits effect event
      → weigh_all (observed x event d).1 ≤ promised effect
  unfolding observed weigh_all
  observed-weigh effect none d f = omega arith
  observed-weigh effect (some e) d f = event-weigh d.state effect e f

  apply_all-weigh :
      Answers
      → (effects : List Effect) (d : Daemon x)
      → (out : Daemon x × List Action) × (apply_all x d effects ≡ some out)
        × (weigh_all out.1 ≤ promised_all effects)
  unfolding apply_all weigh_all
  apply_all-weigh answers [] d = ((d, []), refl, omega arith)
  apply_all-weigh answers (effect ∷ effects) d =
      let ((s, event), e) = answers d.executor effect in
      let d' : Daemon x = record d { executor = s } in
      let ((last, more), r, w) = apply_all-weigh answers effects (observed x event d').0 in
      let fits = x.apply-Fits d.executor effect s event e in
      (
        (last, (observed x event d').1 ++ more),
        rw (e, r, apply_all) refl,
        omega (
          arith,
          w,
          observed-weigh effect event d' fits,
          weigh_all-append (observed x event d').1 more,
        ),
      )

  turn-weigh :
      Answers
      → (clock : ℕ → ℕ × ℕ) (d : Daemon x) (a : Action)
      → (out : Daemon x × List Action × List Act) × (turn x clock d a ≡ some out)
        × (weigh_all out.1 < weigh a)
  unfolding turn
  turn-weigh answers clock d a =
      let (now, later) = clock d.rounds in
      let r = dispatch now later d.core d.state a in
      let resolved = resolve_effects r.state (a ∷ []) in
      let served = intercept_all d.ipc resolved.0 in
      let d' : Daemon x = record d {
        core = r.dispatcher;
        state = r.state;
        ipc = served.0;
        rounds = d.rounds + 1;
      } in
      let ((last, events), e, w) = apply_all-weigh answers resolved.1 d' in
      (
        (last, events ++ r.actions, served.1),
        rw (e, turn) refl,
        omega (arith, w, weigh_all-append events r.actions, turn_weigh now later d.core d.state a),
      )

  -- Whatever executor answers every effect, and whatever is on the queue: fuel above its weight is
  -- enough for the loop to empty it.
  pub drain_queue-returns :
      Answers
      → (clock : ℕ → ℕ × ℕ) (fuel : ℕ) (d : Daemon x) (queue : List Action) → weigh_all queue < fuel
      → (out : Daemon x × List Act) × (drain_queue x fuel clock d queue ≡ some out)
  unfolding drain_queue weigh_all
  drain_queue-returns answers clock zero d queue h = absurd (omega arith)
  drain_queue-returns answers clock (suc fuel) d [] h = ((d, []), refl)
  drain_queue-returns answers clock (suc fuel) d (a ∷ queue) h =
      let ((d', more, acts), e, w) = turn-weigh answers clock d a in
      let ((last, rest), r) =
        drain_queue-returns answers clock fuel d' (queue ++ more)
          (omega (arith, h, w, weigh_all-append queue more)) in
      ((last, acts ++ rest), rw (e, r, drain_queue) refl)

  iterate-returns :
      Answers
      → (clock : ℕ → ℕ × ℕ) (d : Daemon x)
        (polled : Result (List (Reactor.Event × List Connection)) SysError)
      → (out : Daemon x × List Act) × (iterate x clock d polled ≡ some out)
  unfolding iterate
  iterate-returns answers clock d (err e) = ((d, []), refl)
  iterate-returns answers clock d (ok events) =
      let served = handle_all d.ipc events in
      let seen = observe_all d.state (x.ready d.executor (map the_event events)) in
      let queue = served.1 ++ seen.1 in
      let d' : Daemon x = record d { ipc = served.0; state = seen.0 } in
      let ((last, rest), e) =
        drain_queue-returns answers clock (suc (weigh_all queue)) d' queue (omega arith) in
      ((last, served.2 ++ rest), rw (e, iterate) refl)

  -- With an executor that answers every effect, every iteration of the loop empties its queue and
  -- ends, whatever the reactor, the clients and the clock give: the loop goes on to the next answer
  -- of the reactor, over any number of them.
  pub run_daemon-returns :
      Answers
      → (clock : ℕ → ℕ × ℕ) (d : Daemon x)
        (polled : List (Result (List (Reactor.Event × List Connection)) SysError))
      → (out : Daemon x × List Act) × (run_daemon x clock d polled ≡ some out)
  unfolding run_daemon
  run_daemon-returns answers clock d [] = ((d, []), refl)
  run_daemon-returns answers clock d (first ∷ more) =
      let ((d', acts), e) = iterate-returns answers clock d first in
      let ((last, rest), r) = run_daemon-returns answers clock d' more in
      ((last, acts ++ rest), rw (e, r, run_daemon) refl)
