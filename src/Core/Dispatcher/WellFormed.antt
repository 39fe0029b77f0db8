-- ===== src/Core/Dispatcher/WellFormed.antt =====
-- The invariant of ExecutionState (core/mod.rs) that every dispatched action and event keeps.
use core_shift.Base.{
  ℕ, ◌≡◌, refl, true, false, Option, none, some, Result, arith, Option-cases, inl, inr, is_some,
}
use core_shift.Base.HashMap.{
  HashMap, get, insert, remove, Distinct, insert-Distinct, remove-Distinct, map_laws,
}
use core_shift.Core.Types.{
  Action, Event, ExecutionState, JobState, JobLifecycle, ControlSignal, ExecResult, ExecError,
  StoredResult, new_state,
}
use core_shift.Core.Lifecycle
use core_shift.Core.ResultStore
use core_shift.Core.Dispatcher.{Dispatcher, dispatch, dispatch_event}

-- A job in the table stands under its own id, has a lifecycle, has both handles or neither, and is
-- in no process group.
abbrev pub JobFits : ℕ → Option JobState → Option JobLifecycle → Type 0
JobFits k none l = Unit
JobFits k (some job) l =
    (job.id ≡ k)
    × (is_some l ≡ true)
    × (is_some job.process ≡ is_some job.io)
    × (job.pgroup ≡ none)
    × (job.isolated ≡ false)

pub record WellFormed (s : ExecutionState) : Type 0 where
  pub jobs_distinct : Distinct s.jobs
  pub lifecycle_distinct : Distinct s.lifecycle
  pub fits : (k : ℕ) → JobFits k (get k s.jobs) (get k s.lifecycle)

pub new_state-WellFormed : WellFormed new_state
unfolding get
new_state-WellFormed = record { jobs_distinct = tt; lifecycle_distinct = tt; fits = λ k. tt }

module _ (s : ExecutionState) (w : WellFormed s) where
  admit-WellFormed :
      (id : ℕ) (l : JobLifecycle) (job : JobState)
      → JobFits id (some job) (some l)
      → WellFormed (record s { jobs = insert id job s.jobs; lifecycle = insert id l s.lifecycle })
  admit-WellFormed id l job f = record {
    jobs_distinct = insert-Distinct id job s.jobs w.jobs_distinct;
    lifecycle_distinct = insert-Distinct id l s.lifecycle w.lifecycle_distinct;
    fits = λ k. simp map_laws (ground (arith, w.fits k));
  }

  note-WellFormed :
      (id : ℕ) (l : JobLifecycle) → WellFormed (record s { lifecycle = insert id l s.lifecycle })
  note-WellFormed id l = record {
    jobs_distinct = w.jobs_distinct;
    lifecycle_distinct = insert-Distinct id l s.lifecycle w.lifecycle_distinct;
    fits = λ k. simp map_laws (ground (arith, w.fits k));
  }

  drop-WellFormed :
      (id : ℕ) (results : HashMap StoredResult)
      → WellFormed (record s { jobs = remove id s.jobs; results = results })
  drop-WellFormed id results = record {
    jobs_distinct = remove-Distinct id s.jobs w.jobs_distinct;
    lifecycle_distinct = w.lifecycle_distinct;
    fits = λ k. simp map_laws (ground (arith, w.fits k));
  }

  results-WellFormed :
      (results : HashMap StoredResult) → WellFormed (record s { results = results })
  results-WellFormed results = record {
    jobs_distinct = w.jobs_distinct;
    lifecycle_distinct = w.lifecycle_distinct;
    fits = w.fits;
  }

  fits_at :
      (id : ℕ) (job : JobState)
      → get id s.jobs ≡ some job
      → JobFits id (some job) (get id s.lifecycle)
  fits_at id job e = rw e at (w.fits id)

  note_signal-WellFormed :
      (id : ℕ) (job : JobState) (signal : ControlSignal)
      → get id s.jobs ≡ some job
      → WellFormed (Lifecycle.note_signal id job signal s)
  unfolding Lifecycle.note_signal
  note_signal-WellFormed id job ControlSignal.graceful_stop e =
      admit-WellFormed id JobLifecycle.terminating (record job { timed_out = true })
        (ground (arith, fits_at id job e))
  note_signal-WellFormed id job ControlSignal.force_kill e = note-WellFormed id JobLifecycle.killed

  signal-WellFormed :
      (id : ℕ) (signal : ControlSignal)
      → WellFormed (Lifecycle.handle s (Action.signal_process id signal)).0
  unfolding Lifecycle.handle
  signal-WellFormed id signal = elim (Option-cases (get id s.jobs)) [
    | inl e ↦ rw (e, Lifecycle.handle) w
    | inr (job, e) ↦ rw (e, Lifecycle.handle) (note_signal-WellFormed id job signal e)
  ]

  finished-WellFormed :
      (now later id : ℕ) (result : Result ExecResult ExecError)
      → WellFormed (ResultStore.handle now later s (Action.finished id result)).0
  unfolding ResultStore.handle
  finished-WellFormed now later id result = elim (Option-cases (get id s.jobs)) [
    | inl e ↦ rw (e, ResultStore.handle) (results-WellFormed _)
    | inr (job, e) ↦ rw (e, ResultStore.handle) (drop-WellFormed id _)
  ]

  query-WellFormed :
      (now later id : ℕ) → WellFormed (ResultStore.handle now later s (Action.query id)).0
  unfolding ResultStore.handle
  query-WellFormed now later id = elim (Option-cases (get id s.results)) [
    | inl e ↦ rw (e, ResultStore.handle) w
    | inr (r, e) ↦ rw (e, ResultStore.handle) (results-WellFormed _)
  ]

  started-WellFormed :
      (id process io : ℕ)
      → WellFormed (Lifecycle.handle_event s (Event.process_started id process io)).0
  unfolding Lifecycle.handle_event
  started-WellFormed id process io = elim (Option-cases (get id s.jobs)) [
    | inl e ↦ rw (e, Lifecycle.handle_event) w
    | inr (job, e) ↦
        rw (e, Lifecycle.handle_event)
          (admit-WellFormed id JobLifecycle.running
            (record job { process = some process; io = some io })
            (ground (arith, fits_at id job e)))
  ]

  -- Every dispatched action, of whatever kind, keeps the execution state well formed.
  pub dispatch-WellFormed :
      (now later : ℕ) (d : Dispatcher) (a : Action) → WellFormed (dispatch now later d s a).state
  unfolding dispatch
  dispatch-WellFormed now later d (Action.admitted id owner exec policy) =
      unfold Lifecycle.handle in
      admit-WellFormed id JobLifecycle.admitted _ (refl, refl, refl, refl, refl)
  dispatch-WellFormed now later d (Action.signal_process id signal) = signal-WellFormed id signal
  dispatch-WellFormed now later d (Action.finished id result) =
      finished-WellFormed now later id result
  dispatch-WellFormed now later d (Action.query id) = query-WellFormed now later id
  dispatch-WellFormed now later d _ = w

  -- Every event, of whatever kind, keeps the execution state well formed.
  pub dispatch_event-WellFormed : (e : Event) → WellFormed (dispatch_event s e).0
  unfolding dispatch_event
  dispatch_event-WellFormed (Event.process_started id process io) = started-WellFormed id process io
  dispatch_event-WellFormed (Event.process_spawn_failed id message) =
      unfold Lifecycle.handle_event in note-WellFormed id JobLifecycle.finished
  dispatch_event-WellFormed (Event.process_exited id status) = w
  dispatch_event-WellFormed (Event.job_fd_ready id readable writable error) = w
