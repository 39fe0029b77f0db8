-- ===== src/Core/Machine/Stages.antt =====
-- The life of one job in the core (core/lifecycle.rs, core/result.rs), as a relation of steps.
pub mod Followed
pub mod Ends
use core_shift.Base.{
  ℕ, ◌≢◌, Bool, true, false, Option, none, some, Result, String, List, [], ◌∷◌, is_some,
}
use core_shift.Base.HashMap.{get}
use core_shift.Core.Types.{
  Action, Event, ExecutionState, ExecSpec, ExecPolicy, ExecResult, ExecError, JobState,
  JobLifecycle, ControlSignal,
}
use core_shift.Core.Machine.{Input, act, observe}

-- What is known of a job: its stage, and for a job in the table whether it has a process and whether
-- it has been asked to stop.
pub data Phase : Type 0 where
  unknown : Option JobLifecycle → Phase
  known : Bool → Bool → Option JobLifecycle → Phase

abbrev pub phase_of : Option JobState → Option JobLifecycle → Phase
phase_of none stage = unknown stage
phase_of (some job) stage = known (is_some job.process) job.timed_out stage

abbrev pub project : ℕ → ExecutionState → Phase
project id s = phase_of (get id s.jobs) (get id s.lifecycle)

-- An input that changes nothing of the job.
abbrev pub Elsewhere : ℕ → Input → Type 0
Elsewhere id (act now later (Action.admitted j owner exec policy)) = j ≢ id
Elsewhere id (act now later (Action.signal_process j signal)) = j ≢ id
Elsewhere id (act now later (Action.finished j result)) = j ≢ id
Elsewhere id (observe (Event.process_started j process io)) = j ≢ id
Elsewhere id (observe (Event.process_spawn_failed j message)) = j ≢ id
Elsewhere id _ = Unit

-- An input that asks for a job in the table.
abbrev pub NeedsJob : Input → Type 0
NeedsJob (act now later (Action.signal_process j signal)) = Unit
NeedsJob (act now later (Action.finished j result)) = Unit
NeedsJob (observe (Event.process_started j process io)) = Unit
NeedsJob _ = ⊥

pub data JobStep (id : ℕ) : Input → Phase → Phase → Type 0 where
  admit :
      (now later owner : ℕ) (exec : ExecSpec) (policy : ExecPolicy) (x : Phase)
      → JobStep id
          (act now later (Action.admitted id owner exec policy))
          x
          (known false false (some JobLifecycle.admitted))
  start :
      (process io : ℕ) (running asked : Bool) (stage : Option JobLifecycle)
      → JobStep id
          (observe (Event.process_started id process io))
          (known running asked stage)
          (known true asked (some JobLifecycle.running))
  stop :
      (now later : ℕ) (running asked : Bool) (stage : Option JobLifecycle)
      → JobStep id
          (act now later (Action.signal_process id ControlSignal.graceful_stop))
          (known running asked stage)
          (known running true (some JobLifecycle.terminating))
  kill :
      (now later : ℕ) (running asked : Bool) (stage : Option JobLifecycle)
      → JobStep id
          (act now later (Action.signal_process id ControlSignal.force_kill))
          (known running asked stage)
          (known running asked (some JobLifecycle.killed))
  fail :
      (message : String) (running asked : Bool) (stage : Option JobLifecycle)
      → JobStep id
          (observe (Event.process_spawn_failed id message))
          (known running asked stage)
          (known running asked (some JobLifecycle.finished))
  fail_unknown :
      (message : String) (stage : Option JobLifecycle)
      → JobStep id
          (observe (Event.process_spawn_failed id message))
          (unknown stage)
          (unknown (some JobLifecycle.finished))
  finish :
      (now later : ℕ) (result : Result ExecResult ExecError) (running asked : Bool)
      (stage : Option JobLifecycle)
      → JobStep id
          (act now later (Action.finished id result))
          (known running asked stage)
          (unknown stage)
  ignore :
      (i : Input) (stage : Option JobLifecycle)
      → NeedsJob i
      → JobStep id i (unknown stage) (unknown stage)
  pass : (i : Input) (x : Phase) → Elsewhere id i → JobStep id i x x

-- The steps of a job over a sequence of inputs.
pub data Life (id : ℕ) : List Input → Phase → Phase → Type 0 where
  done : (x : Phase) → Life id [] x x
  next :
      (i : Input) (inputs : List Input) (x y z : Phase)
      → JobStep id i x y
      → Life id inputs y z
      → Life id (i ∷ inputs) x z
