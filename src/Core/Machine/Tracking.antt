-- ===== src/Core/Machine/Tracking.antt =====
-- The deadlines of core/policy.rs against the job table of core/mod.rs.
use core_shift.Base.{
  ℕ, ◌≡◌, refl, Option, none, some, List, [], ◌∷◌, Result, arith, if◌then◌else◌, ◌==◌, Bool-cases,
  inl, inr,
}
use core_shift.Base.HashMap.{HashMap, get, insert, get-insert, get-remove, map_laws}
use core_shift.Core.Types.{
  Action, Event, ExecutionState, ExecResult, ExecError, ExecSpec, ExecPolicy, JobState,
  StoredResult, ControlSignal,
}
use core_shift.Core.Timeout
use core_shift.Core.Timeout.{TimeoutEntry}
use core_shift.Core.Lifecycle
use core_shift.Core.ResultStore
use core_shift.Core.Dispatcher.{dispatch, dispatch_event}
use core_shift.Core.Machine.{Machine, Input, act, observe, initial, step, run}

-- A deadline stands under its job's id, and its job is in the table.
abbrev pub TrackFits : ℕ → Option TimeoutEntry → Option JobState → Type 0
TrackFits k none o = Unit
TrackFits k (some e) none = ⊥
TrackFits k (some e) (some job) = e.id ≡ k

abbrev pub Tracked : Machine → Type 0
Tracked m = (k : ℕ) → TrackFits k (get k m.dispatcher.timeout.tracking) (get k m.state.jobs)

-- Where a job fits, or none does, another job fits as well.
TrackFits-job :
    (k : ℕ) (t : Option TimeoutEntry) (o : Option JobState) (job : JobState)
    → TrackFits k t o
    → TrackFits k t (some job)
TrackFits-job k none o job h = tt
TrackFits-job k (some e) none job h = absurd h
TrackFits-job k (some e) (some old) job h = h

insert-TrackFits :
    (k j : ℕ) (t : Option TimeoutEntry) (jobs : HashMap JobState) (job : JobState)
    → TrackFits k t (get k jobs)
    → TrackFits k t (get k (insert j job jobs))
insert-TrackFits k j t jobs job h = elim (Bool-cases (j == k)) [
  | inl same ↦ rw (get-insert, same) (TrackFits-job k t (get k jobs) job h)
  | inr other ↦ rw (get-insert, other) h
]

signal-Tracked :
    (k : ℕ) (t : Option TimeoutEntry) (s : ExecutionState) (j : ℕ) (signal : ControlSignal)
    (o : Option JobState)
    → get j s.jobs ≡ o
    → TrackFits k t (get k s.jobs)
    → TrackFits k t (get k (Lifecycle.handle s (Action.signal_process j signal)).0.jobs)
unfolding Lifecycle.handle Lifecycle.note_signal
signal-Tracked k t s j signal none e h = rw (e, Lifecycle.handle) h
signal-Tracked k t s j ControlSignal.graceful_stop (some job) e h =
    rw (e, Lifecycle.handle) (insert-TrackFits k j t s.jobs _ h)
signal-Tracked k t s j ControlSignal.force_kill (some job) e h = rw (e, Lifecycle.handle) h

started-Tracked :
    (k : ℕ) (t : Option TimeoutEntry) (s : ExecutionState) (j process io : ℕ) (o : Option JobState)
    → get j s.jobs ≡ o
    → TrackFits k t (get k s.jobs)
    → TrackFits k t (get k (Lifecycle.handle_event s (Event.process_started j process io)).0.jobs)
unfolding Lifecycle.handle_event
started-Tracked k t s j process io none e h = rw (e, Lifecycle.handle_event) h
started-Tracked k t s j process io (some job) e h =
    rw (e, Lifecycle.handle_event) (insert-TrackFits k j t s.jobs _ h)

query-Tracked :
    (k : ℕ) (t : Option TimeoutEntry) (now later : ℕ) (s : ExecutionState) (j : ℕ)
    (o : Option StoredResult)
    → get j s.results ≡ o
    → TrackFits k t (get k s.jobs)
    → TrackFits k t (get k (ResultStore.handle now later s (Action.query j)).0.jobs)
unfolding ResultStore.handle
query-Tracked k t now later s j none e h = rw (e, ResultStore.handle) h
query-Tracked k t now later s j (some r) e h = rw (e, ResultStore.handle) h

-- The table loses the job, or never had it.
finished_jobs :
    (k now later : ℕ) (s : ExecutionState) (j : ℕ) (result : Result ExecResult ExecError)
    (o : Option JobState)
    → get j s.jobs ≡ o
    → get k (ResultStore.handle now later s (Action.finished j result)).0.jobs
      ≡ (if j == k then none else get k s.jobs)
unfolding ResultStore.handle
finished_jobs k now later s j result none e = rw (e, ResultStore.handle) (ground arith)
finished_jobs k now later s j result (some job) e =
    rw (e, ResultStore.handle) (get-remove j k s.jobs)

admit-Tracked :
    (k now id owner : ℕ) (exec : ExecSpec) (policy : ExecPolicy) (timeout : Option ℕ)
    (tracking : HashMap TimeoutEntry) (s : ExecutionState)
    → TrackFits k (get k tracking) (get k s.jobs)
    → TrackFits k
        (get k (Timeout.track now id policy timeout tracking))
        (get k (Lifecycle.handle s (Action.admitted id owner exec policy)).0.jobs)
unfolding Timeout.track Lifecycle.handle
admit-Tracked k now id owner exec policy none tracking s h =
    insert-TrackFits k id (get k tracking) s.jobs _ h
admit-Tracked k now id owner exec policy (some t) tracking s h = simp map_laws (ground arith)

act-Tracked :
    (m : Machine) (now later : ℕ) (a : Action) → Tracked m → Tracked (step m (act now later a)).0
unfolding step dispatch Timeout.handle
act-Tracked m now later (Action.admitted id owner exec policy) h = λ k.
    admit-Tracked k now id owner exec policy policy.timeout_ms m.dispatcher.timeout.tracking m.state
      (h k)
act-Tracked m now later (Action.signal_process id signal) h =
    λ k. signal-Tracked k _ m.state id signal (get id m.state.jobs) refl (h k)
act-Tracked m now later (Action.finished id result) h = λ k.
    rw (finished_jobs k now later m.state id result _ refl, get-remove)
      (elim (Bool-cases (id == k)) [ inl same ↦ rw same tt | inr other ↦ rw other (h k) ])
act-Tracked m now later (Action.query id) h =
    λ k. query-Tracked k _ now later m.state id (get id m.state.results) refl (h k)
act-Tracked m now later _ h = h

observe-Tracked : (m : Machine) (e : Event) → Tracked m → Tracked (step m (observe e)).0
unfolding step dispatch_event
observe-Tracked m (Event.process_started id process io) h =
    λ k. started-Tracked k _ m.state id process io (get id m.state.jobs) refl (h k)
observe-Tracked m (Event.process_spawn_failed id message) h = unfold Lifecycle.handle_event in h
observe-Tracked m (Event.process_exited id status) h = h
observe-Tracked m (Event.job_fd_ready id readable writable error) h = h

-- From a machine where every deadline is tracked under its own id and belongs to a job in the
-- table, this stays so, whatever is dispatched and observed.
pub run-Tracked : (m : Machine) (inputs : List Input) → Tracked m → Tracked (run m inputs).0
unfolding run
run-Tracked m [] h = h
run-Tracked m (act now later a ∷ inputs) h =
    run-Tracked (step m (act now later a)).0 inputs (act-Tracked m now later a h)
run-Tracked m (observe e ∷ inputs) h =
    run-Tracked (step m (observe e)).0 inputs (observe-Tracked m e h)

pub initial-Tracked : Tracked initial
unfolding initial get
initial-Tracked k = tt
