-- ===== src/Daemon/Queries.antt =====
-- What a client that asks for a result gets of an iteration of run_daemon (lib.rs).
use core_shift.Base.{
  ℕ, ◌≡◌, refl, ap, sym, subst, ◌∙◌, Option, none, some, [], ◌∷◌, ◌++◌, ok, inl, inr, Option-cases,
}
use core_shift.Base.HashMap.{get, get-insert_self, get-remove_self}
use core_shift.Core.Types.{Action, ExecutionState, ExecOutcome, StoredResult}
use core_shift.Core.ResultStore
use core_shift.Core.Dispatcher.{dispatch}
use core_shift.Core.Effects.{resolve, resolve_effects}
use core_shift.LowLevel.Reactor
use core_shift.MidLevel.Router.{get_result, handle as route}
use core_shift.MidLevel.Wire.{WireResponse}
use core_shift.MidLevel.Ipc.{
  IpcModule, Connection, respond, close, routed, mapped, admit, intercept_action,
}
use core_shift.MidLevel.Ipc.Answered.{reply_to}
use core_shift.Daemon.Interface.{Executor}
use core_shift.Daemon.Rank.{Answers}
use core_shift.Daemon.Steps
use core_shift.Daemon.Replies.{Waits}
use core_shift.Daemon.Clients.{Requests, one, handle_all-one, iterate_calm}
use core_shift.Daemon.{
  Daemon, turn, drain_queue, intercept_all, handle_all, iterate, weigh, weigh_all,
}

abbrev outcome_of : ℕ → Option StoredResult → Option ExecOutcome
outcome_of id none = none
outcome_of id (some r) = some (record { id = id; result = r.result })

-- The result of a job that is stored.
abbrev pub stored : ExecutionState → ℕ → Option ExecOutcome
stored s id = outcome_of id (get id s.results)

query-result :
    (now later : ℕ) (s : ExecutionState) (id : ℕ)
    → let r = ResultStore.handle now later s (Action.query id) in
      (r.1 ≡ Action.query_result id (stored s id) ∷ []) × (get id r.0.results ≡ none)
unfolding ResultStore.handle
query-result now later s id = elim (Option-cases (get id s.results)) [
  | inl e ↦ rw (e, ResultStore.handle, e) (refl, refl)
  | inr (r, e) ↦ rw (e, ResultStore.handle) (refl, get-remove_self id s.results)
]

admit_query :
    (m : IpcModule) (fd uid id : ℕ)
    → let r = admit m fd (ok (some (get_result uid id))) in
      (r.actions ≡ Action.query id ∷ []) × (r.acts ≡ []) × Waits r.ipc id fd
unfolding admit route routed mapped
admit_query m fd uid id = (
  refl,
  refl,
  record {
    client = m.next_client_id;
    mapped = get-insert_self id m.next_client_id m.job_to_client;
    open_fd = get-insert_self m.next_client_id fd m.clients;
  },
)

module _ (x : Executor) (answers : Answers x) (clock : ℕ → ℕ × ℕ) where
  turn_query :
      (d : Daemon x) (id : ℕ)
      → (d' : Daemon x) × (turn x clock d (Action.query id)
          ≡ some (d', Action.query_result id (stored d.state id) ∷ [], []))
        × (d'.ipc ≡ d.ipc)
        × (get id d'.state.results ≡ none)
  unfolding dispatch intercept_all resolve_effects resolve intercept_action
  turn_query d id =
      let (d', e, has) = Steps.turn-Silent x answers clock d (Action.query id) tt in
      let (now, later) = clock d.rounds in
      let (answer, gone) = query-result now later d.state id in
      (
        d',
        e ∙ ap (λ l. some (d', l, [])) answer,
        has.ipc,
        ap (λ s. get id s.results) has.state ∙ gone,
      )

  turn_query_result :
      (d : Daemon x) (id fd : ℕ) (result : Option ExecOutcome)
      → Waits d.ipc id fd
      → (d' : Daemon x) × (turn x clock d (Action.query_result id result)
          ≡ some (d', [], respond fd (WireResponse.result result) ∷ close fd ∷ []))
        × (d'.state ≡ d.state)
  unfolding dispatch intercept_all resolve_effects resolve intercept_action
  turn_query_result d id fd result w =
      let (d', e, has) = Steps.turn-Silent x answers clock d (Action.query_result id result) tt in
      let acts = reply_to d.ipc id w.client fd (WireResponse.result result) w.mapped w.open_fd in
      (d', e ∙ ap (λ l. some (d', [], l ++ [])) acts, has.state)

  -- The queue of one such request.
  queue_query :
      (d : Daemon x) (id fd : ℕ)
      → Waits d.ipc id fd
      → (last : Daemon x) × (drain_queue x 3 clock d (Action.query id ∷ [])
          ≡ some (last, respond fd (WireResponse.result (stored d.state id)) ∷ close fd ∷ []))
        × (get id last.state.results ≡ none)
  unfolding drain_queue
  queue_query d id fd w =
      let answer = Action.query_result id (stored d.state id) in
      let (d', e, same, gone) = turn_query d id in
      let (last, f, kept) =
        turn_query_result d' id fd (stored d.state id) (subst (λ m. Waits m id fd) (sym same) w) in
      (
        last,
        Steps.drain_queue-cons x 2 clock d d' last (Action.query id) [] (answer ∷ []) [] _ e
            (Steps.drain_queue-cons x 1 clock d' last last answer [] [] _ [] f refl),
        ap (λ s. get id s.results) kept ∙ gone,
      )

  -- A client that asks for the result of a job, at an event that is about no stream, is told in the
  -- same iteration the result that is stored, or that there is none; its descriptor is closed, and
  -- the result is no longer stored.
  pub result_answered :
      (d : Daemon x) (e : Reactor.Event) (connection : Connection) (uid id : ℕ)
      → Requests d.ipc e connection (get_result uid id)
      → x.ready d.executor (e ∷ []) ≡ []
      → (last : Daemon x) × (iterate x clock d (ok (one e connection))
          ≡ some (
            last,
            respond connection.client_fd (WireResponse.result (stored d.state id))
                ∷ close connection.client_fd
                ∷ [],
          ))
        × (get id last.state.results ≡ none)
  unfolding weigh_all weigh
  result_answered d e connection uid id h f =
      let r = admit d.ipc connection.client_fd (ok (some (get_result uid id))) in
      let (a, b, w) = admit_query d.ipc connection.client_fd uid id in
      let served : handle_all d.ipc (one e connection) ≡ (r.ipc, Action.query id ∷ [], []) =
        handle_all-one d.ipc e connection (get_result uid id) h
        ∙ ap (λ l. (r.ipc, (l ++ []) ++ [], (r.acts ++ []) ++ [])) a
        ∙ ap (λ l. (r.ipc, Action.query id ∷ [], (l ++ []) ++ [])) b in
      let (last, g, gone) = queue_query (record d { ipc = r.ipc }) id connection.client_fd w in
      (
        last,
        iterate_calm x answers clock d last (one e connection) r.ipc (Action.query id ∷ []) [] _
            served f g,
        gone,
      )
