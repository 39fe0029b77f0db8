-- ===== src/Daemon/Unsettled.antt =====
-- What the dispatcher and the resolution of effects make of an action in a round of the daemon's queue
-- (lib.rs): the actions that settle jobs, the results, the places and the polls.
use core_shift.Base.{ℕ, ◌≤◌, ◌≡◌, refl, Option, none, some, [], ◌∷◌, arith, All-append, All}
use core_shift.Base.HashMap.{get}
use core_shift.Core.Types.{Action, Effect, Event, ExecutionState, JobState, IoHandle, ProcessHandle}
use core_shift.Core.Admission
use core_shift.Core.Lifecycle
use core_shift.Core.ResultStore
use core_shift.Core.Dispatcher.{Dispatcher, dispatch, dispatch_event}
use core_shift.Core.Effects.{with_io, with_process, resolve, resolve_effects}
use core_shift.Core.Machine.{step}
use core_shift.Core.Machine.Exits.{
  settles, settling, act-settling, started-settling, failed-settling,
}
use core_shift.Daemon.Interface.{Fits}

pub dispatch-settling :
    (now later : ℕ) (d : Dispatcher) (s : ExecutionState) (a : Action)
    → settling (dispatch now later d s a).actions ≡ 0
unfolding step
dispatch-settling now later d s a = act-settling (record { dispatcher = d; state = s }) now later a

unfoldable pub active : Dispatcher → ℕ
active d = d.admission.active_jobs

-- An action that reports no finished job.
pub dispatch-active :
    (now later : ℕ) (d : Dispatcher) (s : ExecutionState) (a : Action)
    → settles a ≡ 0
    → active d ≤ active (dispatch now later d s a).dispatcher
unfolding dispatch active Admission.handle
dispatch-active now later d s (Action.submit id owner exec policy) h = ground arith
dispatch-active now later d s (Action.admitted id owner exec policy) h = omega arith
dispatch-active now later d s (Action.finished id result) h = cc
dispatch-active now later d s _ h = omega arith

pub dispatch-results :
    (now later : ℕ) (d : Dispatcher) (s : ExecutionState) (a : Action)
    → settles a ≡ 0
    → s.results ≡ []
    → (dispatch now later d s a).state.results ≡ []
unfolding dispatch Lifecycle.handle Lifecycle.note_signal ResultStore.handle get
dispatch-results now later d s (Action.signal_process id signal) h e = ground arith
dispatch-results now later d s (Action.finished id result) h e = cc
dispatch-results now later d s (Action.query id) h e = ground arith
dispatch-results now later d s _ h e = e

pub dispatch_event-results :
    (s : ExecutionState) (e : Event) → (dispatch_event s e).0.results ≡ s.results
unfolding dispatch_event Lifecycle.handle_event
dispatch_event-results s (Event.process_started id process io) = ground arith
dispatch_event-results s _ = refl

-- An effect that polls no process, and the actions of its event.
abbrev pub Unpolled : Effect → Type 0
Unpolled (Effect.poll_process id process) = ⊥
Unpolled _ = Unit

pub event-settling :
    (s : ExecutionState) (effect : Effect) (e : Event)
    → Fits effect (some e)
    → Unpolled effect
    → settling (dispatch_event s e).1 ≡ 0
event-settling s (Effect.start_process id exec policy) (Event.process_started j process io) f u =
    started-settling s j process io
event-settling s (Effect.start_process id exec policy) (Event.process_spawn_failed j message) f u =
    failed-settling s j message
event-settling s (Effect.poll_process id process) e f u = absurd u
event-settling s _ e f u = absurd f

with_io-Unpolled :
    (o : Option JobState) (f : IoHandle → Effect)
    → ((io : IoHandle) → Unpolled (f io))
    → All Unpolled (with_io o f)
with_io-Unpolled none f h = tt
with_io-Unpolled (some job) f h = by_handle job.io
  where
    by_handle : (p : Option IoHandle) → All Unpolled (elim p [ none ↦ [] | some io ↦ f io ∷ [] ])
    by_handle none = tt
    by_handle (some io) = (h io, tt)

with_process-Unpolled :
    (o : Option JobState) (f : JobState → ProcessHandle → Effect)
    → ((job : JobState) (p : ProcessHandle) → Unpolled (f job p))
    → All Unpolled (with_process o f)
with_process-Unpolled none f h = tt
with_process-Unpolled (some job) f h = by_handle job.process
  where
    by_handle :
        (p : Option ProcessHandle)
        → All Unpolled (elim p [ none ↦ [] | some process ↦ f job process ∷ [] ])
    by_handle none = tt
    by_handle (some process) = (h job process, tt)

pub resolve-Unpolled :
    (s : ExecutionState) (a : Action) → settles a ≡ 0 → All Unpolled (resolve s a).1
unfolding resolve
resolve-Unpolled s (Action.poll_process id) h = cc
resolve-Unpolled s (Action.register_interest id stream) h =
    with_io-Unpolled (get id s.jobs) _ (λ io. tt)
resolve-Unpolled s (Action.remove_interest id stream) h =
    with_io-Unpolled (get id s.jobs) _ (λ io. tt)
resolve-Unpolled s (Action.perform_io id) h = with_io-Unpolled (get id s.jobs) _ (λ io. tt)
resolve-Unpolled s (Action.signal_process id signal) h =
    with_process-Unpolled (get id s.jobs) _ (λ job p. tt)
resolve-Unpolled s (Action.start_process id exec policy) h = (tt, tt)
resolve-Unpolled s (Action.emit_log level event) h = (tt, tt)
resolve-Unpolled s _ h = tt

pub resolved-Unpolled :
    (s : ExecutionState) (a : Action) → settles a ≡ 0 → All Unpolled (resolve_effects s (a ∷ [])).1
unfolding resolve_effects
resolved-Unpolled s a h = All-append Unpolled (resolve s a).1 [] (resolve-Unpolled s a h) tt
