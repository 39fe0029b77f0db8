-- ===== src/Daemon/Preserved.antt =====
-- What holds through any run of run_daemon (lib.rs): an invariant of the daemon, with a property of the
-- actions on the queue and one of the effects that they resolve to.
use core_shift.Base.{
  ℕ, zero, suc, ◌+◌, ◌≡◌, Option, none, some, List, [], ◌∷◌, ◌++◌, Result, ok, err, Option-cases,
  inl, inr, map, Ensures, Ensures-some, All, All-append,
}
use core_shift.Core.Types.{Action, Effect, Event}
use core_shift.Core.Dispatcher.{dispatch, dispatch_event}
use core_shift.Core.Effects.{resolve_effects}
use core_shift.LowLevel.Libc.{SysError}
use core_shift.LowLevel.Reactor
use core_shift.MidLevel.Ipc.{IpcModule, Act, Connection}
use core_shift.Daemon.Interface.{Executor, Fits, IsReady}
use core_shift.Daemon.{
  Daemon, weigh_all, observed, apply_all, turn, drain_queue, iterate, run_daemon, handle_all,
  observe_all, the_event, intercept_all,
}

-- A round of the dispatcher, up to the server's part.
abbrev pub dispatched : {x : Executor} → Daemon x → ℕ → ℕ → Action → IpcModule → Daemon x
dispatched d now later a ipc =
    let r = dispatch now later d.core d.state a in
    record d { core = r.dispatcher; state = r.state; ipc = ipc; rounds = d.rounds + 1 }

-- What each part of the loop is to keep.
pub record Invariant (x : Executor) : Type 1 where
  pub Holds : Daemon x → Type 0
  pub Allowed : Action → Type 0
  pub Safe : Effect → Type 0
  pub on_executor : (d : Daemon x) (s : x.State) → Holds d → Holds (record d { executor = s })
  pub on_event :
      (d : Daemon x) (effect : Effect) (e : Event)
      → Fits effect (some e)
      → Safe effect
      → Holds d
      → Holds (record d { state = (dispatch_event d.state e).0 })
        × All Allowed (dispatch_event d.state e).1
  pub on_action :
      (d : Daemon x) (now later : ℕ) (a : Action) (ipc : IpcModule)
      → Allowed a
      → Holds d
      → Holds (dispatched d now later a ipc)
        × All Allowed (dispatch now later d.core d.state a).actions
        × All Safe (resolve_effects (dispatch now later d.core d.state a).state (a ∷ [])).1
  pub on_requests :
      (m : IpcModule) (events : List (Reactor.Event × List Connection))
      → All Allowed (handle_all m events).1
  pub on_ready :
      (d : Daemon x) (ready : List Event) (ipc : IpcModule)
      → All IsReady ready
      → Holds d
      → Holds (record d { ipc = ipc; state = (observe_all d.state ready).0 })
        × All Allowed (observe_all d.state ready).1

module _ (x : Executor) (v : Invariant x) where
  abbrev Applied : Daemon x × List Action → Type 0
  Applied (d, more) = v.Holds d × All v.Allowed more

  observed-Applied :
      (d : Daemon x) (effect : Effect) (event : Option Event)
      → Fits effect event
      → v.Safe effect
      → v.Holds d
      → Applied (observed x event d)
  unfolding observed
  observed-Applied d effect none f s h = (h, tt)
  observed-Applied d effect (some e) f s h = v.on_event d effect e f s h

  apply_all-Applied :
      (effects : List Effect) (d : Daemon x)
      → All v.Safe effects
      → v.Holds d
      → Ensures Applied (apply_all x d effects)
  unfolding apply_all
  apply_all-Applied [] d s h = (h, tt)
  apply_all-Applied (effect ∷ effects) d s h = elim (Option-cases (x.apply d.executor effect)) [
    | inl e ↦ rw (e, apply_all) tt
    | inr ((after, event), e) ↦
        let d' : Daemon x = record d { executor = after } in
        let first =
          observed-Applied d' effect event (x.apply-Fits d.executor effect after event e) s.0
            (v.on_executor d after h) in
        let rest = apply_all-Applied effects (observed x event d').0 s.1 first.0 in
        elim (Option-cases (apply_all x (observed x event d').0 effects)) [
          | inl f ↦ rw (e, f, apply_all) tt
          | inr ((last, more), f) ↦
              let both : Applied (last, more) = rw f at rest in
              rw (e, f, apply_all)
                (both.0, All-append v.Allowed (observed x event d').1 more first.1 both.1)
        ]
  ]

  abbrev Turned : Daemon x × List Action × List Act → Type 0
  Turned (d, more, acts) = v.Holds d × All v.Allowed more

  turn-Turned :
      (clock : ℕ → ℕ × ℕ) (d : Daemon x) (a : Action)
      → v.Allowed a
      → v.Holds d
      → Ensures Turned (turn x clock d a)
  unfolding turn
  turn-Turned clock d a g h =
      let (now, later) = clock d.rounds in
      let r = dispatch now later d.core d.state a in
      let resolved = resolve_effects r.state (a ∷ []) in
      let ipc = (intercept_all d.ipc resolved.0).0 in
      let d' : Daemon x = dispatched d now later a ipc in
      let (holds, allowed, safe) = v.on_action d now later a ipc g h in
      let rest = apply_all-Applied resolved.1 d' safe holds in
      elim (Option-cases (apply_all x d' resolved.1)) [
        | inl f ↦ rw (f, turn) tt
        | inr ((last, events), f) ↦
            let both : Applied (last, events) = rw f at rest in
            rw (f, turn) (both.0, All-append v.Allowed events r.actions both.1 allowed)
      ]

  abbrev Left : Daemon x × List Act → Type 0
  Left (d, acts) = v.Holds d

  drain_queue-Left :
      (fuel : ℕ) (clock : ℕ → ℕ × ℕ) (d : Daemon x) (queue : List Action)
      → All v.Allowed queue
      → v.Holds d
      → Ensures Left (drain_queue x fuel clock d queue)
  unfolding drain_queue
  drain_queue-Left zero clock d queue g h = tt
  drain_queue-Left (suc fuel) clock d [] g h = h
  drain_queue-Left (suc fuel) clock d (a ∷ queue) g h =
      let first = turn-Turned clock d a g.0 h in
      elim (Option-cases (turn x clock d a)) [
        | inl e ↦ rw (e, drain_queue) tt
        | inr ((d', more, acts), e) ↦
            let one : Turned (d', more, acts) = rw e at first in
            let rest =
              drain_queue-Left fuel clock d' (queue ++ more)
                (All-append v.Allowed queue more g.1 one.1) one.0 in
            elim (Option-cases (drain_queue x fuel clock d' (queue ++ more))) [
              | inl f ↦ rw (e, f, drain_queue) tt
              | inr ((last, acts'), f) ↦ rw (e, f, drain_queue) (rw f at rest)
            ]
      ]

  iterate-Left :
      (clock : ℕ → ℕ × ℕ) (d : Daemon x)
      (polled : Result (List (Reactor.Event × List Connection)) SysError)
      → v.Holds d
      → Ensures Left (iterate x clock d polled)
  unfolding iterate
  iterate-Left clock d (err e) h = h
  iterate-Left clock d (ok events) h =
      let served = handle_all d.ipc events in
      let ready = x.ready d.executor (map the_event events) in
      let seen = observe_all d.state ready in
      let queue = served.1 ++ seen.1 in
      let d' : Daemon x = record d { ipc = served.0; state = seen.0 } in
      let (holds, allowed) =
        v.on_ready d ready served.0 (x.ready-IsReady d.executor (map the_event events)) h in
      let rest =
        drain_queue-Left (suc (weigh_all queue)) clock d' queue
          (All-append v.Allowed served.1 seen.1 (v.on_requests d.ipc events) allowed) holds in
      elim (Option-cases (drain_queue x (suc (weigh_all queue)) clock d' queue)) [
        | inl e ↦ rw (e, iterate) tt
        | inr ((last, acts), e) ↦ rw (e, iterate) (rw e at rest)
      ]

  run_daemon-Left :
      (clock : ℕ → ℕ × ℕ) (d : Daemon x)
      (polled : List (Result (List (Reactor.Event × List Connection)) SysError))
      → v.Holds d
      → Ensures Left (run_daemon x clock d polled)
  unfolding run_daemon
  run_daemon-Left clock d [] h = h
  run_daemon-Left clock d (first ∷ more) h =
      let one = iterate-Left clock d first h in
      elim (Option-cases (iterate x clock d first)) [
        | inl e ↦ rw (e, run_daemon) tt
        | inr ((d', acts), e) ↦
            let rest = run_daemon-Left clock d' more (rw e at one) in
            elim (Option-cases (run_daemon x clock d' more)) [
              | inl f ↦ rw (e, f, run_daemon) tt
              | inr ((last, acts'), f) ↦ rw (e, f, run_daemon) (rw f at rest)
            ]
      ]

  -- An invariant that holds at the start of a run holds at its end.
  pub run_daemon-Holds :
      (clock : ℕ → ℕ × ℕ) (d : Daemon x)
      (polled : List (Result (List (Reactor.Event × List Connection)) SysError))
      (out : Daemon x × List Act)
      → v.Holds d
      → run_daemon x clock d polled ≡ some out
      → v.Holds out.0
  run_daemon-Holds clock d polled out h r =
      Ensures-some Left (run_daemon x clock d polled) out r (run_daemon-Left clock d polled h)
