-- ===== src/MidLevel/Ipc/Answered.antt =====
-- Who is answered, and whose descriptor is closed (mid_level/ipc.rs).
use core_shift.Base.{
  ℕ, ◌≡◌, refl, ◌⊎◌, inl, inr, Option, none, some, [], ◌∷◌, Result, ok, err, sym, subst_some,
  Option-cases,
}
use core_shift.Base.HashMap.{get, insert, get-insert_self, get-remove_self}
use core_shift.Core.Types.{Action}
use core_shift.LowLevel.Libc.{SysError}
use core_shift.HighLevel.Api.{Command}
use core_shift.MidLevel.Router.{Request, exec, get_result, cancel, handle as route}
use core_shift.MidLevel.Wire.{WireResponse}
use core_shift.MidLevel.Ipc.{
  IpcModule, Connection, respond, close, Served, routed, mapped, admit, serve, reply,
  intercept_action,
}

-- The connection is turned away, closed and leaves no trace, or it is registered under the next
-- client id with one action to perform, and stays open.
abbrev pub Settled : IpcModule → ℕ → Served → Type 0
Settled m fd s =
    ((s.acts ≡ close fd ∷ []) × (s.actions ≡ []) × (s.ipc.clients ≡ m.clients))
    ⊎ ((a : Action) × (s.acts ≡ [])
        × (s.actions ≡ a ∷ [])
        × (s.ipc.clients ≡ insert m.next_client_id fd m.clients))

admit-Settled :
    (m : IpcModule) (fd : ℕ) (r : Result (Option Request) SysError) → Settled m fd (admit m fd r)
unfolding admit route
admit-Settled m fd (err e) = inl (refl, refl, refl)
admit-Settled m fd (ok none) = inl (refl, refl, refl)
admit-Settled m fd (ok (some (exec uid (Command.cmd service args)))) = inr (_, refl, refl, refl)
admit-Settled m fd (ok (some (exec uid (Command.dumpsys service args)))) = inr (_, refl, refl, refl)
admit-Settled m fd (ok (some (get_result uid id))) = inr (_, refl, refl, refl)
admit-Settled m fd (ok (some (cancel uid id))) = inr (_, refl, refl, refl)

-- Whatever its credentials and its bytes, a connection is either closed without a trace or
-- registered with exactly one action: no descriptor is left open that no client owns.
pub serve-Settled :
    (m : IpcModule) (connection : Connection) → Settled m connection.client_fd (serve m connection)
unfolding serve
serve-Settled m connection = by_credentials connection.credentials refl
  where
    by_credentials :
        (r : Result ℕ SysError)
        → connection.credentials ≡ r
        → Settled m connection.client_fd (serve m connection)
    by_credentials (err e) h = rw (h, serve) (inl (refl, refl, refl))
    by_credentials (ok uid) h =
        rw (h, serve) (admit-Settled m connection.client_fd (connection.decoded uid))

-- The job that an action answers for.
abbrev pub answers_for : Action → Option ℕ
answers_for (Action.started id) = some id
answers_for (Action.controlled id) = some id
answers_for (Action.query_result id result) = some id
answers_for (Action.rejected id) = some id
answers_for (Action.finished id result) = some id
answers_for _ = none

reply-forgets :
    (m : IpcModule) (id : ℕ) (resp : WireResponse) → get id (reply m id resp).0.job_to_client ≡ none
unfolding reply
reply-forgets m id resp = elim (Option-cases (get id m.job_to_client)) [
  | inl e ↦ rw (e, reply) e
  | inr (client, e) ↦ elim (Option-cases (get client m.clients)) [
    | inl f ↦ rw (e, f, reply) (get-remove_self id m.job_to_client)
    | inr (fd, f) ↦ rw (e, f, reply) (get-remove_self id m.job_to_client)
  ]
]

reply-silent :
    (m : IpcModule) (id : ℕ) (resp : WireResponse)
    → get id m.job_to_client ≡ none
    → (reply m id resp).1 ≡ []
unfolding reply
reply-silent m id resp e = rw (e, reply)

forgets_from :
    (m : IpcModule) (k id : ℕ) (resp : WireResponse)
    → some k ≡ some id
    → get id (reply m k resp).0.job_to_client ≡ none
forgets_from m k id resp h =
    subst_some (λ j. get j (reply m k resp).0.job_to_client ≡ none) k id h (reply-forgets m k resp)

silent_from :
    (m : IpcModule) (k id : ℕ) (resp : WireResponse)
    → some k ≡ some id
    → get id m.job_to_client ≡ none
    → (reply m k resp).1 ≡ []
silent_from m k id resp h e =
    reply-silent m k resp (subst_some (λ j. get j m.job_to_client ≡ none) id k (sym h) e)

intercept-forgets :
    (m : IpcModule) (a : Action) (id : ℕ)
    → answers_for a ≡ some id
    → get id (intercept_action m a).0.job_to_client ≡ none
unfolding intercept_action
intercept-forgets m (Action.started k) id h = forgets_from m k id (WireResponse.exec k) h
intercept-forgets m (Action.controlled k) id h = forgets_from m k id WireResponse.cancel_ok h
intercept-forgets m (Action.rejected k) id h = forgets_from m k id WireResponse.error h
intercept-forgets m (Action.query_result k result) id h =
    forgets_from m k id (WireResponse.result result) h
intercept-forgets m (Action.finished k result) id h =
    forgets_from m k id (WireResponse.result (some (record { id = k; result = result }))) h
intercept-forgets m _ id h = cc

intercept-silent :
    (m : IpcModule) (a : Action) (id : ℕ)
    → answers_for a ≡ some id
    → get id m.job_to_client ≡ none
    → (intercept_action m a).1 ≡ []
unfolding intercept_action
intercept-silent m (Action.started k) id h e = silent_from m k id (WireResponse.exec k) h e
intercept-silent m (Action.controlled k) id h e = silent_from m k id WireResponse.cancel_ok h e
intercept-silent m (Action.rejected k) id h e = silent_from m k id WireResponse.error h e
intercept-silent m (Action.query_result k result) id h e =
    silent_from m k id (WireResponse.result result) h e
intercept-silent m (Action.finished k result) id h e =
    silent_from m k id (WireResponse.result (some (record { id = k; result = result }))) h e
intercept-silent m _ id h e = cc

-- A client is answered once: after the first action that answers for a job, a second one for the
-- same job, whichever it is, writes to no descriptor and closes none.
pub answered_once :
    (m : IpcModule) (a a' : Action) (id : ℕ)
    → answers_for a ≡ some id
    → answers_for a' ≡ some id
    → (intercept_action (intercept_action m a).0 a').1 ≡ []
answered_once m a a' id h h' =
    intercept-silent (intercept_action m a).0 a' id h' (intercept-forgets m a id h)

pub reply_to :
    (m : IpcModule) (id client fd : ℕ) (resp : WireResponse)
    → get id m.job_to_client ≡ some client
    → get client m.clients ≡ some fd
    → (reply m id resp).1 ≡ respond fd resp ∷ close fd ∷ []
unfolding reply
reply_to m id client fd resp e f = rw (e, f, reply)

pub query-waits :
    (m : IpcModule) (fd uid id : ℕ)
    → get id (admit m fd (ok (some (get_result uid id)))).ipc.job_to_client ≡ some m.next_client_id
unfolding admit route routed mapped
query-waits m fd uid id = get-insert_self id m.next_client_id m.job_to_client

query-owns :
    (m : IpcModule) (fd uid id : ℕ)
    → get m.next_client_id (admit m fd (ok (some (get_result uid id)))).ipc.clients ≡ some fd
unfolding admit route routed mapped
query-owns m fd uid id = get-insert_self m.next_client_id fd m.clients

-- A client that asks for the result of a job takes the place of the client that waits for it:
-- the answer to the job's submission goes to the descriptor of the one that asked.
pub query_displaces_submitter :
    (m : IpcModule) (connection : Connection) (uid uid' id : ℕ)
    → connection.credentials ≡ ok uid
    → connection.decoded uid ≡ ok (some (get_result uid' id))
    → (intercept_action (serve m connection).ipc (Action.started id)).1
      ≡ respond connection.client_fd (WireResponse.exec id) ∷ close connection.client_fd ∷ []
unfolding serve intercept_action
query_displaces_submitter m connection uid uid' id h e =
    rw (h, e, serve)
      (reply_to (admit m connection.client_fd (ok (some (get_result uid' id)))).ipc id
        m.next_client_id connection.client_fd (WireResponse.exec id)
        (query-waits m connection.client_fd uid' id) (query-owns m connection.client_fd uid' id))
