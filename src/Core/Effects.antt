-- ===== src/Core/Effects.antt =====
-- core/mod.rs: Core::resolve_effects, which splits actions into effects and answers for clients.
pub mod Targets
use core_shift.Base.{ℕ, Option, none, some, List, [], ◌∷◌, ◌++◌, ◌||◌, is_some}
use core_shift.Base.HashMap.{get}
use core_shift.Core.Types.{
  Action, Effect, ExecutionState, JobState, ProcessHandle, IoHandle, ControlSignal, IoStream,
}

-- The `if let Some(io) = job.io` and `if let Some(process) = job.process` of the arms.
abbrev pub with_io : Option JobState → (IoHandle → Effect) → List Effect
with_io none f = []
with_io (some job) f = elim job.io [ none ↦ [] | some io ↦ f io ∷ [] ]

abbrev pub with_process : Option JobState → (JobState → ProcessHandle → Effect) → List Effect
with_process none f = []
with_process (some job) f = elim job.process [ none ↦ [] | some process ↦ f job process ∷ [] ]

-- One round of the loop: what is pushed on `ipc_actions`, and on `effects`.
unfoldable pub resolve : ExecutionState → Action → List Action × List Effect
resolve s (Action.emit_log level event) = ([], Effect.log level event ∷ [])
resolve s (Action.register_interest id stream) =
    ([], with_io (get id s.jobs) (λ io. Effect.watch_stream id io stream))
resolve s (Action.remove_interest id stream) =
    ([], with_io (get id s.jobs) (λ io. Effect.unwatch_stream id io stream))
resolve s (Action.perform_io id) = ([], with_io (get id s.jobs) (λ io. Effect.perform_io id io))
resolve s (Action.start_process id exec policy) = ([], Effect.start_process id exec policy ∷ [])
resolve s (Action.signal_process id signal) = (
  [],
  with_process (get id s.jobs)
      (λ job process. Effect.kill_process id signal process (is_some job.pgroup || job.isolated)),
)
resolve s (Action.poll_process id) =
    ([], with_process (get id s.jobs) (λ job process. Effect.poll_process id process))
resolve s a = (a ∷ [], [])

unfoldable pub resolve_effects : ExecutionState → List Action → List Action × List Effect
unfolding resolve
resolve_effects s [] = ([], [])
resolve_effects s (action ∷ actions) =
    let (ipc, effects) = resolve s action in
    let (more_ipc, more_effects) = resolve_effects s actions in
    (ipc ++ more_ipc, effects ++ more_effects)
