-- ===== src/Core/ResultTests.antt =====
-- Runs of the result store (core/result.rs).
use core_shift.Base.{
  ℕ, ◌≤◌, ◌<◌, ◌≡◌, refl, zero, suc, false, none, some, [], ◌∷◌, Result, ok, length, arith,
}
use core_shift.Base.Int.{pos}
use core_shift.Base.HashMap.{HashMap, get, remove, Distinct}
use core_shift.Core.Types.{Action, ExecResult, ExecError, StoredResult}
use core_shift.Core.ResultStore
use core_shift.Core.ResultStore.{max_results, ttl, evict_results, retain_fresh}
use core_shift.Core.ResultStore.Eviction.{evict_results_oldest_first}
use core_shift.Core.ResultStore.Once.{finished_queried_once}
use core_shift.Core.Dispatcher
use core_shift.Core.Dispatcher.{dispatch}
use core_shift.Core.Tests.{job_7, running}

abbrev success : Result ExecResult ExecError
success = ok (record { status = some (pos 0); stdout = []; stderr = []; timed_out = false })

finished_queried_once_example :
    let finished = dispatch 5 6 Dispatcher.new running (Action.finished 7 success) in
    let first = dispatch 7 7 Dispatcher.new finished.state (Action.query 7) in
    let second = dispatch 8 8 Dispatcher.new first.state (Action.query 7) in
    (first.actions ≡ Action.query_result 7 (some (record { id = 7; result = success })) ∷ [])
    × (second.actions ≡ Action.query_result 7 none ∷ [])
unfolding get
finished_queried_once_example =
    finished_queried_once running 7 job_7 success Dispatcher.new Dispatcher.new Dispatcher.new 5 6 7
      7 8 8 tt (omega arith) (omega arith) refl

-- `count` results, the first one `j` under the id `j`, each a nanosecond younger than the one
-- before.
abbrev aged : ℕ → ℕ → HashMap StoredResult
aged j zero = []
aged j (suc count) = (j, record { result = success; owner = 0; created = j }) ∷ aged (suc j) count

get-aged : (j k count : ℕ) → k < j → get k (aged j count) ≡ none
unfolding get
get-aged j k zero h = refl
get-aged j k (suc count) h = ground (arith, get-aged (suc j) k count (omega arith))

aged-Distinct : (j count : ℕ) → Distinct (aged j count)
aged-Distinct j zero = tt
aged-Distinct j (suc count) =
    (ground (arith, get-aged (suc j) j count (omega arith)), aged-Distinct (suc j) count)

abbrev oldest : StoredResult
oldest = record { result = success; owner = 0; created = 0 }

-- Of 1001 fresh results the oldest goes.
oldest_dropped : get 0 (evict_results 0 (aged 0 1001)) ≡ none
unfolding get remove evict_results ResultStore.drop_oldest retain_fresh ResultStore.stamps
    ResultStore.sort_by_created ResultStore.insert_by_created ResultStore.remove_all
oldest_dropped = refl

evict_results_oldest_first_example :
    (max_results < length (retain_fresh 0 (aged 0 1001)))
    × ((k : ℕ) (r : StoredResult) → get k (evict_results 0 (aged 0 1001)) ≡ some r → 0 ≤ r.created)
unfolding get
evict_results_oldest_first_example =
    evict_results_oldest_first 0 (aged 0 1001) 0 oldest (aged-Distinct 0 1001) refl (omega arith)
      oldest_dropped
