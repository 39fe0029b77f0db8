-- ===== src/Core/ResultStore/Once.antt =====
-- A finished job's result (core/result.rs) is handed out once.
use core_shift.Base.{ℕ, ◌-◌, ◌≤◌, ◌<◌, ◌≡◌, none, some, [], ◌∷◌, Result, length, arith, le→leb}
use core_shift.Base.HashMap.{
  HashMap, get, insert, remove, Distinct, get-insert_self, get-remove_self, insert-Distinct,
  length-insert-le,
}
use core_shift.Core.Types.{Action, ExecutionState, ExecResult, ExecError, JobState, StoredResult}
use core_shift.Core.ResultStore
use core_shift.Core.ResultStore.{retain_fresh, evict_results, ttl, max_results}
use core_shift.Core.ResultStore.Eviction.{
  get-retain_fresh, retain_fresh-Distinct, drop_oldest-keeps,
}
use core_shift.Core.Dispatcher.{Dispatcher, dispatch}

length-retain_fresh : (now : ℕ) (m : HashMap StoredResult) → length (retain_fresh now m) ≤ length m
unfolding retain_fresh
length-retain_fresh now [] = omega arith
length-retain_fresh now ((k, r) ∷ m) = ground (arith, length-retain_fresh now m)

-- A fresh result survives an eviction where there is room for all.
get-evict_results :
    (now k : ℕ) (r : StoredResult) (m : HashMap StoredResult)
    → Distinct m
    → length m ≤ max_results
    → now - r.created ≤ ttl
    → get k m ≡ some r
    → get k (evict_results now m) ≡ some r
unfolding evict_results
get-evict_results now k r m d room young e =
    rw
      (drop_oldest-keeps (retain_fresh now m) (retain_fresh-Distinct now m d)
        (omega (arith, length-retain_fresh now m)))
      (rw (get-retain_fresh now k m d, e) (rw (le→leb (now - r.created) ttl young)))

module _ (s : ExecutionState) (id : ℕ) where
  answered :
      (now later : ℕ) (d : Dispatcher) (r : StoredResult)
      → get id s.results ≡ some r
      → ((dispatch now later d s (Action.query id)).actions
          ≡ Action.query_result id (some (record { id = id; result = r.result })) ∷ [])
        × ((dispatch now later d s (Action.query id)).state.results ≡ remove id s.results)
  unfolding dispatch ResultStore.handle
  answered now later d r e = ground arith

  unanswered :
      (now later : ℕ) (d : Dispatcher)
      → get id s.results ≡ none
      → (dispatch now later d s (Action.query id)).actions ≡ Action.query_result id none ∷ []
  unfolding dispatch ResultStore.handle
  unanswered now later d e = ground arith

  stored :
      (now later : ℕ) (d : Dispatcher) (job : JobState) (result : Result ExecResult ExecError)
      → get id s.jobs ≡ some job
      → (dispatch now later d s (Action.finished id result)).state.results
        ≡ evict_results later
            (insert id (record { result = result; owner = job.owner; created = now }) s.results)
  unfolding dispatch ResultStore.handle
  stored now later d job result e = ground arith

-- Where fewer than a thousand results are stored, no two under one id, and the eviction reads the
-- clock within five minutes, a Finished of a job in the table stores its result: the next Query of
-- that id is answered by the result, and the one after that by none.
pub finished_queried_once :
    (s : ExecutionState) (id : ℕ) (job : JobState) (result : Result ExecResult ExecError)
    (d d' d'' : Dispatcher) (now later now' later' now'' later'' : ℕ)
    → Distinct s.results
    → length s.results < max_results
    → later - now ≤ ttl
    → get id s.jobs ≡ some job
    → let finished = dispatch now later d s (Action.finished id result) in
      let first = dispatch now' later' d' finished.state (Action.query id) in
      let second = dispatch now'' later'' d'' first.state (Action.query id) in
      (first.actions ≡ Action.query_result id (some (record { id = id; result = result })) ∷ [])
      × (second.actions ≡ Action.query_result id none ∷ [])
finished_queried_once s id job result d d' d'' now later now' later' now'' later'' ds room young e =
    (ans.0, unanswered _ id now'' later'' d'' (rw ans.1 (get-remove_self id _)))
  where
    r : StoredResult
    r = record { result = result; owner = job.owner; created = now }

    present : get id (dispatch now later d s (Action.finished id result)).state.results ≡ some r
    present = rw (stored s id now later d job result e) (
        get-evict_results later id r (insert id r s.results) (insert-Distinct id r s.results ds)
          (omega (arith, length-insert-le id r s.results)) young (get-insert_self id r s.results))

    ans :
        ((dispatch now' later' d'
            (dispatch now later d s (Action.finished id result)).state
            (Action.query id)).actions
          ≡ Action.query_result id (some (record { id = id; result = result })) ∷ [])
        × ((dispatch now' later' d'
              (dispatch now later d s (Action.finished id result)).state
              (Action.query id)).state.results
            ≡ remove id (dispatch now later d s (Action.finished id result)).state.results)
    ans = answered _ id now' later' d' r present
