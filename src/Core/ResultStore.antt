-- ===== src/Core/ResultStore.antt =====
-- core/result.rs: ResultModule, which stores results, hands each out once and evicts old ones.
pub mod Sorting
pub mod Eviction
pub mod Once
use core_shift.Base.{
  ℕ, ◌-◌, ◌*◌, Option, none, some, List, [], ◌∷◌, Result, ok, err, length, take, ltb, leb,
  if◌then◌else◌,
}
use core_shift.Base.Int.{ℤ}
use core_shift.Base.HashMap.{HashMap, get, insert, remove}
use core_shift.Core.Types.{
  Action, Event, ExecutionState, ExecResult, ExecError, StoredResult, LogLevel, LogEvent,
}

-- Five minutes, in nanoseconds.
abbrev pub ttl : ℕ
ttl = 300 * 1_000_000_000

abbrev pub max_results : ℕ
max_results = 1000

-- `results.retain(…)`; `duration_since` stops at zero.
unfoldable pub retain_fresh : ℕ → HashMap StoredResult → HashMap StoredResult
retain_fresh now [] = []
retain_fresh now ((k, r) ∷ m) =
    let rest = retain_fresh now m in if leb (now - r.created) ttl then (k, r) ∷ rest else rest

abbrev pub Stamped : Type 0
Stamped = List (ℕ × ℕ)

unfoldable pub stamps : HashMap StoredResult → Stamped
stamps [] = []
stamps ((k, r) ∷ m) = (k, r.created) ∷ stamps m

-- `sort_by_key` is stable: an entry goes behind those of its own key.
unfoldable pub insert_by_created : ℕ × ℕ → Stamped → Stamped
insert_by_created (k, c) [] = (k, c) ∷ []
insert_by_created (k, c) ((j, d) ∷ l) =
    let rest = insert_by_created (k, c) l in if leb c d then (k, c) ∷ (j, d) ∷ l else (j, d) ∷ rest

unfoldable pub sort_by_created : Stamped → Stamped
unfolding insert_by_created
sort_by_created [] = []
sort_by_created (e ∷ l) = insert_by_created e (sort_by_created l)

unfoldable pub remove_all : Stamped → HashMap StoredResult → HashMap StoredResult
remove_all [] m = m
remove_all ((k, c) ∷ l) m = remove_all l (remove k m)

unfoldable pub drop_oldest : HashMap StoredResult → HashMap StoredResult
unfolding remove_all sort_by_created stamps
drop_oldest m =
    if ltb max_results (length m)
    then remove_all (take (length m - max_results) (sort_by_created (stamps m))) m
    else m

unfoldable pub evict_results : ℕ → HashMap StoredResult → HashMap StoredResult
unfolding drop_oldest retain_fresh
evict_results now m = drop_oldest (retain_fresh now m)

-- `result.as_ref().ok().and_then(|r| r.status)`.
abbrev pub exit_status : Result ExecResult ExecError → Option ℤ
exit_status (ok r) = r.status
exit_status (err e) = none

-- `now` stamps the result, `later` is the clock of the eviction.
unfoldable pub handle : ℕ → ℕ → ExecutionState → Action → ExecutionState × List Action
handle now later s (Action.query id) = elim (get id s.results) [
  | none ↦ (s, Action.query_result id none ∷ [])
  | some r ↦ (
    record s { results = remove id s.results },
    Action.query_result id (some (record { id = id; result = r.result })) ∷ [],
  )
]
handle now later s (Action.finished id result) = elim (get id s.jobs) [
  | none ↦ (record s { results = evict_results later s.results }, [])
  | some job ↦ (
    record s {
      jobs = remove id s.jobs;
      results =
          evict_results later
            (insert id (record { result = result; owner = job.owner; created = now }) s.results);
    },
    Action.emit_log LogLevel.info (LogEvent.exit id (exit_status result)) ∷ [],
  )
]
handle now later s _ = (s, [])

unfoldable pub handle_event : ExecutionState → Event → List Action
handle_event s (Event.process_exited id status) = elim (get id s.jobs) [
  | none ↦ []
  | some job ↦
      Action.finished id
        (ok (record { status = status; stdout = []; stderr = []; timed_out = job.timed_out }))
      ∷ []
]
handle_event s _ = []
