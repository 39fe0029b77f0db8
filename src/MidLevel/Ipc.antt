-- ===== src/MidLevel/Ipc.antt =====
-- mid_level/ipc.rs: IpcModule, the server's side of the socket. What the kernel answers to one
-- `accept4` loop is a list of connections; what the module does to descriptors is a list of acts.
pub mod Answered
use core_shift.Base.{
  ℕ, ◌+◌, ◌%◌, ◌^◌, Bool, true, false, ◌&&◌, Option, none, some, List, [], ◌∷◌, ◌++◌, Result, ok,
  err, ◌==◌, if◌then◌else◌,
}
use core_shift.Base.HashMap.{HashMap, get, insert, remove}
use core_shift.Core.Types.{Action, ExecOutcome}
use core_shift.LowLevel.Libc.{SysError, syscall}
use core_shift.MidLevel.Router.{Router, Request, handle as route}
use core_shift.MidLevel.Wire.{WireResponse}

-- The descriptor `fd` of the listening socket is the kernel's alone and is left out.
pub record IpcModule : Type 0 where
  pub server_token : Option ℕ
  pub router : Router
  pub clients : HashMap ℕ
  pub job_to_client : HashMap ℕ
  pub next_client_id : ℕ

unfoldable pub new : Router → ℕ → IpcModule
new router token = record {
  server_token = some token;
  router = router;
  clients = [];
  job_to_client = [];
  next_client_id = 1;
}

-- What `getsockopt` answers: an error, or the user at the other end.
unfoldable pub verify_peer_credentials : Result ℕ ℕ → Result ℕ SysError
verify_peer_credentials (err e) = err (syscall e "getsockopt(SO_PEERCRED)")
verify_peer_credentials (ok uid) = ok uid

-- A connection that `accept4` gave: its descriptor, the answer of `verify_peer_credentials`, and
-- what `decode_request` makes of its bytes for a given uid.
pub record Connection : Type 0 where
  pub client_fd : ℕ
  pub credentials : Result ℕ SysError
  pub decoded : ℕ → Result (Option Request) SysError

-- What the module does to a descriptor.
pub data Act : Type 0 where
  respond : ℕ → WireResponse → Act
  close : ℕ → Act

-- `wrapping_add(1)`, and 1 in place of 0.
unfoldable pub next_client : ℕ → ℕ
next_client id = let next = (id + 1) % 2 ^ 32 in if next == 0 then 1 else next

-- The job that a creation action is about.
unfoldable pub mapped : Action → ℕ → HashMap ℕ → HashMap ℕ
mapped (Action.submit id owner exec policy) client m = insert id client m
mapped (Action.query id) client m = insert id client m
mapped (Action.control id signal) client m = insert id client m
mapped _ client m = m

pub record Served : Type 0 where
  pub ipc : IpcModule
  pub actions : List Action
  pub acts : List Act

-- What follows `self.router.handle(req)`.
unfoldable pub routed : IpcModule → ℕ → ℕ → Option Action → Served
unfolding mapped
routed m fd client none = record {
  ipc = record m { clients = remove client m.clients };
  actions = [];
  acts = respond fd WireResponse.error ∷ close fd ∷ [];
}
routed m fd client (some action) = record {
  ipc = record m { job_to_client = mapped action client m.job_to_client };
  actions = action ∷ [];
  acts = [];
}

-- What follows `decode_request`: a descriptor that is not kept is closed.
unfoldable pub admit : IpcModule → ℕ → Result (Option Request) SysError → Served
unfolding routed next_client
admit m fd (err e) = record { ipc = m; actions = []; acts = close fd ∷ [] }
admit m fd (ok none) = record { ipc = m; actions = []; acts = close fd ∷ [] }
admit m fd (ok (some req)) =
    let client = m.next_client_id in
    let (action, router) = route m.router req in
    routed
      (record m {
        next_client_id = next_client client;
        clients = insert client fd m.clients;
        router = router;
      })
      fd client action

unfoldable pub serve : IpcModule → Connection → Served
unfolding admit
serve m connection = elim connection.credentials [
  | err e ↦ record { ipc = m; actions = []; acts = close connection.client_fd ∷ [] }
  | ok uid ↦ admit m connection.client_fd (connection.decoded uid)
]

-- The loop, over the connections up to the first `accept4` that fails.
unfoldable pub handle_ready : IpcModule → List Connection → Served
unfolding serve
handle_ready m [] = record { ipc = m; actions = []; acts = [] }
handle_ready m (connection ∷ connections) =
    let first = serve m connection in
    let rest = handle_ready first.ipc connections in
    record {
      ipc = rest.ipc;
      actions = first.actions ++ rest.actions;
      acts = first.acts ++ rest.acts;
    }

-- `Some(event.token) == self.server_token && event.readable`.
unfoldable pub handle_event : IpcModule → ℕ → Bool → List Connection → Served
unfolding handle_ready
handle_event m token readable connections = elim m.server_token [
  | none ↦ record { ipc = m; actions = []; acts = [] }
  | some server ↦
      if token == server && readable
      then handle_ready m connections
      else record { ipc = m; actions = []; acts = [] }
]

-- The client that waits for the job is answered and its descriptor closed, by dropping `fd_obj`.
-- `Fd::new` refuses only a negative descriptor, and none is kept.
unfoldable pub reply : IpcModule → ℕ → WireResponse → IpcModule × List Act
reply m id resp = elim (get id m.job_to_client) [
  | none ↦ (m, [])
  | some client ↦ elim (get client m.clients) [
    | none ↦ (record m { job_to_client = remove id m.job_to_client }, [])
    | some fd ↦ (
      record m { job_to_client = remove id m.job_to_client; clients = remove client m.clients },
      respond fd resp ∷ close fd ∷ [],
    )
  ]
]

unfoldable pub intercept_action : IpcModule → Action → IpcModule × List Act
unfolding reply
intercept_action m (Action.started id) = reply m id (WireResponse.exec id)
intercept_action m (Action.controlled id) = reply m id WireResponse.cancel_ok
intercept_action m (Action.query_result id result) = reply m id (WireResponse.result result)
intercept_action m (Action.rejected id) = reply m id WireResponse.error
intercept_action m (Action.finished id result) =
    reply m id (WireResponse.result (some (record { id = id; result = result })))
intercept_action m _ = (m, [])
