-- ===== src/Daemon/Clients.antt =====
-- What one client gets of an iteration of run_daemon (lib.rs), from its connection to the reply.
use core_shift.Base.{
  ℕ, suc, ◌≡◌, refl, ap, ◌∙◌, Bool, true, Option, none, some, List, [], ◌∷◌, ◌++◌, ok, map, arith,
}
use core_shift.Base.HashMap.{get-insert_self}
use core_shift.Core.Types.{Action, Event, ExecSpec, ExecPolicy}
use core_shift.HighLevel.Api.{Command}
use core_shift.LowLevel.Reactor
use core_shift.MidLevel.Router.{Request, exec, handle as route}
use core_shift.MidLevel.Ipc.{
  IpcModule, Act, Connection, routed, mapped, admit, serve, handle_ready, handle_event,
}
use core_shift.Daemon.Interface.{Executor}
use core_shift.Daemon.Rank.{Answers}
use core_shift.Daemon.Replies.{Waits, Reply, submit-Replies}
use core_shift.Daemon.{
  Daemon, drain_queue, iterate, handle_all, observe_all, the_event, weigh, weigh_all,
}

-- A new connection at the server's descriptor, whose request is this one.
pub record Requests (m : IpcModule) (e : Reactor.Event) (connection : Connection) (req : Request)
    : Type 0 where
  pub server : m.server_token ≡ some e.token
  pub readable : e.readable ≡ true
  pub uid : ℕ
  pub verified : connection.credentials ≡ ok uid
  pub decoded : connection.decoded uid ≡ ok (some req)

abbrev pub one : Reactor.Event → Connection → List (Reactor.Event × List Connection)
one e connection = (e, connection ∷ []) ∷ []

handle_event_ours :
    (m : IpcModule) (token : ℕ) (readable : Bool) (connections : List Connection)
    → m.server_token ≡ some token
    → readable ≡ true
    → handle_event m token readable connections ≡ handle_ready m connections
unfolding handle_event
handle_event_ours m token readable connections e r = ground (arith, e, r)

serve_verified :
    (m : IpcModule) (connection : Connection) (uid : ℕ)
    → connection.credentials ≡ ok uid
    → serve m connection ≡ admit m connection.client_fd (connection.decoded uid)
unfolding serve
serve_verified m connection uid e = ground (arith, e)

pub handle_all-one :
    (m : IpcModule) (e : Reactor.Event) (connection : Connection) (req : Request)
    → Requests m e connection req
    → let r = admit m connection.client_fd (ok (some req)) in
      handle_all m (one e connection) ≡ (r.ipc, (r.actions ++ []) ++ [], (r.acts ++ []) ++ [])
unfolding handle_all handle_ready
handle_all-one m e connection req h =
    let served : serve m connection ≡ admit m connection.client_fd (ok (some req)) =
      serve_verified m connection h.uid h.verified ∙ ap (admit m connection.client_fd) h.decoded in
    rw (handle_event_ours m e.token e.readable (connection ∷ []) h.server h.readable)
      (ap (λ r. (r.ipc, (r.actions ++ []) ++ [], (r.acts ++ []) ++ [])) served)

admit_exec :
    (m : IpcModule) (fd uid : ℕ) (command : Command)
    → let r = admit m fd (ok (some (exec uid command))) in
      (spec : ExecSpec) × (policy : ExecPolicy) × (r.actions
        ≡ Action.submit m.router.next_id uid spec policy ∷ [])
      × (r.acts ≡ [])
      × Waits r.ipc m.router.next_id fd
unfolding admit route routed mapped
admit_exec m fd uid (Command.cmd service args) = (
  _,
  _,
  refl,
  refl,
  record {
    client = m.next_client_id;
    mapped = get-insert_self m.router.next_id m.next_client_id m.job_to_client;
    open_fd = get-insert_self m.next_client_id fd m.clients;
  },
)
admit_exec m fd uid (Command.dumpsys service args) = (
  _,
  _,
  refl,
  refl,
  record {
    client = m.next_client_id;
    mapped = get-insert_self m.router.next_id m.next_client_id m.job_to_client;
    open_fd = get-insert_self m.next_client_id fd m.clients;
  },
)

module _ (x : Executor) (answers : Answers x) (clock : ℕ → ℕ × ℕ) where
  -- An iteration, from what the server and the reactor have given.
  proceed :
      Daemon x → IpcModule × List Action × List Act → List Event → Option (Daemon x × List Act)
  unfolding observe_all
  proceed d served ready =
      let seen = observe_all d.state ready in
      let queue = served.1 ++ seen.1 in
      elim (drain_queue x (suc (weigh_all queue)) clock
        (record d { ipc = served.0; state = seen.0 }) queue) [
          | none ↦ none
          | some (last, rest) ↦ some (last, served.2 ++ rest)
        ]

  proceed_calm :
      (d last : Daemon x) (ipc : IpcModule) (requested : List Action) (acts rest : List Act)
      → drain_queue x
          (suc (weigh_all (requested ++ [])))
          clock
          (record d { ipc = ipc })
          (requested ++ [])
        ≡ some (last, rest)
      → proceed d (ipc, requested, acts) [] ≡ some (last, acts ++ rest)
  unfolding proceed
  proceed_calm d last ipc requested acts rest g = rw (g, proceed) refl

  iterate-proceed :
      (d : Daemon x) (events : List (Reactor.Event × List Connection))
      → iterate x clock d (ok events)
        ≡ proceed d (handle_all d.ipc events) (x.ready d.executor (map the_event events))
  unfolding iterate proceed
  iterate-proceed d events = refl

  pub iterate_calm :
      (d last : Daemon x) (events : List (Reactor.Event × List Connection)) (ipc : IpcModule)
      (requested : List Action) (acts rest : List Act)
      → handle_all d.ipc events ≡ (ipc, requested, acts)
      → x.ready d.executor (map the_event events) ≡ []
      → drain_queue x
          (suc (weigh_all (requested ++ [])))
          clock
          (record d { ipc = ipc })
          (requested ++ [])
        ≡ some (last, rest)
      → iterate x clock d (ok events) ≡ some (last, acts ++ rest)
  iterate_calm d last events ipc requested acts rest e f g =
      rw (iterate-proceed d events, e, f) (proceed_calm d last ipc requested acts rest g)

  -- A client that connects and sends a command, at an event that is about no stream, is answered in
  -- the same iteration: it is told the id of its job, which runs, or that it was turned down, and its
  -- descriptor is closed.
  pub command_answered :
      (d : Daemon x) (e : Reactor.Event) (connection : Connection) (uid : ℕ) (command : Command)
      → Requests d.ipc e connection (exec uid command)
      → x.ready d.executor (e ∷ []) ≡ []
      → (out : Daemon x × List Act) × (iterate x clock d (ok (one e connection)) ≡ some out)
        × Reply d.ipc.router.next_id connection.client_fd out.1
  unfolding weigh_all weigh
  command_answered d e connection uid command h f =
      let r = admit d.ipc connection.client_fd (ok (some (exec uid command))) in
      let (spec, policy, a, b, w) = admit_exec d.ipc connection.client_fd uid command in
      let id = d.ipc.router.next_id in
      let served : handle_all d.ipc (one e connection)
          ≡ (r.ipc, Action.submit id uid spec policy ∷ [], []) =
        handle_all-one d.ipc e connection (exec uid command) h
        ∙ ap (λ l. (r.ipc, (l ++ []) ++ [], (r.acts ++ []) ++ [])) a
        ∙ ap (λ l. (r.ipc, Action.submit id uid spec policy ∷ [], (l ++ []) ++ [])) b in
      let ((last, acts), g, reply) =
        submit-Replies x answers clock (record d { ipc = r.ipc }) id uid connection.client_fd spec
          policy w in
      (
        (last, acts),
        iterate_calm d last (one e connection) r.ipc (Action.submit id uid spec policy ∷ []) [] acts
            served f g,
        reply,
      )
