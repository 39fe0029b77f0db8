-- ===== src/Daemon/Requests.antt =====
-- What the server and the reactor put on the queue of run_daemon (lib.rs).
use core_shift.Base.{
  ℕ, ◌≡◌, refl, ◌∙◌, Bool, Option, none, some, List, [], ◌∷◌, Result, ok, err, arith, All,
  Option-cases, inl, inr, Bool-cases, ◌&&◌, ◌==◌,
}
use core_shift.Core.Types.{Event, ExecutionState}
use core_shift.Core.Dispatcher.{dispatch_event}
use core_shift.Core.Machine.Exits.{settling, settling-append, ready-settling}
use core_shift.HighLevel.Api.{Command}
use core_shift.LowLevel.Libc.{SysError}
use core_shift.LowLevel.Reactor
use core_shift.MidLevel.Router.{Request, exec, get_result, cancel, handle as route}
use core_shift.MidLevel.Ipc.{
  IpcModule, Connection, routed, admit, serve, handle_ready, handle_event,
}
use core_shift.Daemon.Interface.{IsReady}
use core_shift.Daemon.{handle_all, observe_all}

admit-settling :
    (m : IpcModule) (fd : ℕ) (r : Result (Option Request) SysError)
    → settling (admit m fd r).actions ≡ 0
unfolding admit routed route
admit-settling m fd (err e) = refl
admit-settling m fd (ok none) = refl
admit-settling m fd (ok (some (exec uid (Command.cmd service args)))) = refl
admit-settling m fd (ok (some (exec uid (Command.dumpsys service args)))) = refl
admit-settling m fd (ok (some (get_result uid id))) = refl
admit-settling m fd (ok (some (cancel uid id))) = refl

serve-settling :
    (m : IpcModule) (connection : Connection) → settling (serve m connection).actions ≡ 0
unfolding serve
serve-settling m connection = by_credentials connection.credentials refl
  where
    by_credentials :
        (r : Result ℕ SysError)
        → connection.credentials ≡ r
        → settling (serve m connection).actions ≡ 0
    by_credentials (err e) h = rw (h, serve) refl
    by_credentials (ok uid) h =
        rw (h, serve) (admit-settling m connection.client_fd (connection.decoded uid))

handle_ready-settling :
    (m : IpcModule) (connections : List Connection)
    → settling (handle_ready m connections).actions ≡ 0
unfolding handle_ready
handle_ready-settling m [] = refl
handle_ready-settling m (connection ∷ connections) = omega (
  arith,
  settling-append (serve m connection).actions
      (handle_ready (serve m connection).ipc connections).actions,
  serve-settling m connection,
  handle_ready-settling (serve m connection).ipc connections,
)

handle_event-settling :
    (m : IpcModule) (token : ℕ) (readable : Bool) (connections : List Connection)
    → settling (handle_event m token readable connections).actions ≡ 0
unfolding handle_event
handle_event-settling m token readable connections = elim (Option-cases m.server_token) [
  | inl e ↦ rw (e, handle_event) refl
  | inr (server, e) ↦ elim (Bool-cases (token == server && readable)) [
    | inl ours ↦ rw (e, ours, handle_event) (handle_ready-settling m connections)
    | inr other ↦ rw (e, other, handle_event) refl
  ]
]

-- The server asks for no exit and reports no finished job.
pub handle_all-settling :
    (m : IpcModule) (events : List (Reactor.Event × List Connection))
    → settling (handle_all m events).1 ≡ 0
unfolding handle_all
handle_all-settling m [] = refl
handle_all-settling m ((e, connections) ∷ events) =
    let first = handle_event m e.token e.readable connections in
    omega (
      arith,
      settling-append first.actions (handle_all first.ipc events).1,
      handle_event-settling m e.token e.readable connections,
      handle_all-settling first.ipc events,
    )

ready-results :
    (s : ExecutionState) (id : ℕ) (r w x : Bool)
    → (dispatch_event s (Event.job_fd_ready id r w x)).0.results ≡ s.results
unfolding dispatch_event
ready-results s id r w x = refl

-- Nor does what is ready, and it stores no result.
pub observe_all-settling :
    (s : ExecutionState) (events : List Event)
    → All IsReady events
    → (settling (observe_all s events).1 ≡ 0) × ((observe_all s events).0.results ≡ s.results)
unfolding observe_all
observe_all-settling s [] h = (refl, refl)
observe_all-settling s (Event.job_fd_ready id r w x ∷ events) h =
    let e = Event.job_fd_ready id r w x in
    let (rest, same) = observe_all-settling (dispatch_event s e).0 events h.1 in
    (
      omega (
        arith,
        settling-append (dispatch_event s e).1 (observe_all (dispatch_event s e).0 events).1,
        ready-settling s id r w x,
        rest,
      ),
      same ∙ ready-results s id r w x,
    )
observe_all-settling s (Event.process_started id process io ∷ events) h = absurd h.0
observe_all-settling s (Event.process_spawn_failed id message ∷ events) h = absurd h.0
observe_all-settling s (Event.process_exited id status ∷ events) h = absurd h.0
