-- ===== src/Daemon/Sound.antt =====
-- The execution state and the places over the loop of run_daemon (lib.rs).
use core_shift.Base.{ℕ, All, ◌≤◌, ◌≡◌, some, List, [], ◌∷◌, Result, arith}
use core_shift.Core.Types.{Action, Event, ExecutionState}
use core_shift.Core.Admission
use core_shift.Core.Dispatcher.{Dispatcher, dispatch, dispatch_event}
use core_shift.Core.Dispatcher.WellFormed.{
  WellFormed, dispatch-WellFormed, dispatch_event-WellFormed,
}
use core_shift.Core.Effects.{resolve_effects}
use core_shift.LowLevel.Libc.{SysError}
use core_shift.LowLevel.Reactor
use core_shift.MidLevel.Ipc.{Act, Connection}
use core_shift.Daemon.Interface.{Executor}
use core_shift.Daemon.Preserved.{Invariant, run_daemon-Holds}
use core_shift.Daemon.{Daemon, run_daemon, handle_all, observe_all}

abbrev Within : Dispatcher → Type 0
Within d = d.admission.active_jobs ≤ d.admission.max_jobs

dispatch-Within :
    (now later : ℕ) (d : Dispatcher) (s : ExecutionState) (a : Action)
    → Within d
    → Within (dispatch now later d s a).dispatcher
unfolding dispatch Admission.handle
dispatch-Within now later d s (Action.submit id owner exec policy) h = ground arith
dispatch-Within now later d s (Action.finished id result) h = ground arith
dispatch-Within now later d s _ h = h

observe_all-WellFormed :
    (s : ExecutionState) (events : List Event) → WellFormed s → WellFormed (observe_all s events).0
unfolding observe_all
observe_all-WellFormed s [] w = w
observe_all-WellFormed s (e ∷ events) w =
    observe_all-WellFormed (dispatch_event s e).0 events (dispatch_event-WellFormed s w e)

IsSound : {x : Executor} → Daemon x → Type 0
IsSound d = WellFormed d.state × Within d.core

abbrev Any : {A : Type 0} → A → Type 0
Any a = Unit

All-Any : {A : Type 0} (l : List A) → All Any l
All-Any [] = tt
All-Any (a ∷ l) = (tt, All-Any l)

-- Any action may stand on the queue, and any effect be executed.
sound : (x : Executor) → Invariant x
unfolding IsSound
sound x = record {
  Holds = IsSound;
  Allowed = Any;
  Safe = Any;
  on_executor = λ d s h. h;
  on_event = λ d effect e f s h.
      ((dispatch_event-WellFormed d.state h.0 e, h.1), All-Any (dispatch_event d.state e).1);
  on_action = λ d now later a ipc g h.
      let r = dispatch now later d.core d.state a in
      (
        (
          dispatch-WellFormed d.state h.0 now later d.core a,
          dispatch-Within now later d.core d.state a h.1,
        ),
        All-Any r.actions,
        All-Any (resolve_effects r.state (a ∷ [])).1,
      );
  on_requests = λ m events. All-Any (handle_all m events).1;
  on_ready = λ d ready ipc f h.
      ((observe_all-WellFormed d.state ready h.0, h.1), All-Any (observe_all d.state ready).1);
}

-- From a daemon with a well-formed state and no more active jobs than are allowed, as at the start:
-- whatever the executor, the reactor, the clients and the clock give, both still hold after any
-- number of iterations.
pub daemon_invariant :
    (x : Executor) (clock : ℕ → ℕ × ℕ) (d : Daemon x)
    (polled : List (Result (List (Reactor.Event × List Connection)) SysError))
    (out : Daemon x × List Act)
    → WellFormed d.state
    → d.core.admission.active_jobs ≤ d.core.admission.max_jobs
    → run_daemon x clock d polled ≡ some out
    → WellFormed out.0.state × (out.0.core.admission.active_jobs ≤ out.0.core.admission.max_jobs)
unfolding IsSound sound
daemon_invariant x clock d polled out w h r =
    run_daemon-Holds x (sound x) clock d polled out (w, h) r
