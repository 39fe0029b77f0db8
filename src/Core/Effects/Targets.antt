-- ===== src/Core/Effects/Targets.antt =====
-- What Core::resolve_effects (core/mod.rs) aims at: only live handles, and never a process group.
use core_shift.Base.{
  ℕ, ◌+◌, ◌≤◌, ◌≡◌, refl, Bool, true, false, Option, none, some, List, [], ◌∷◌, length,
  length-append, All, All-append, arith, is_some, ◌||◌, if◌then◌else◌,
}
use core_shift.Base.HashMap.{get}
use core_shift.Core.Types.{Action, Effect, ExecutionState, JobState, ProcessHandle, IoHandle}
use core_shift.Core.Effects.{resolve, resolve_effects, with_io, with_process}
use core_shift.Core.Dispatcher.WellFormed.{WellFormed, JobFits}

-- The job `id` is in the table, with this process handle.
abbrev pub OwnsProcess : ExecutionState → ℕ → ProcessHandle → Type 0
OwnsProcess s id process =
    (job : JobState) × (get id s.jobs ≡ some job) × (job.process ≡ some process)

abbrev pub OwnsIo : ExecutionState → ℕ → IoHandle → Type 0
OwnsIo s id io = (job : JobState) × (get id s.jobs ≡ some job) × (job.io ≡ some io)

-- The effect reaches only what its job owns, and a signal goes to the process alone.
abbrev pub Aimed : ExecutionState → Effect → Type 0
Aimed s (Effect.kill_process id signal process is_group) =
    OwnsProcess s id process × (is_group ≡ false)
Aimed s (Effect.poll_process id process) = OwnsProcess s id process
Aimed s (Effect.watch_stream id io stream) = OwnsIo s id io
Aimed s (Effect.unwatch_stream id io stream) = OwnsIo s id io
Aimed s (Effect.perform_io id io) = OwnsIo s id io
Aimed s (Effect.log level event) = Unit
Aimed s (Effect.start_process id exec policy) = Unit

abbrev io_effects : Option IoHandle → (IoHandle → Effect) → List Effect
io_effects p f = elim p [ none ↦ [] | some io ↦ f io ∷ [] ]

module _ (s : ExecutionState) (w : WellFormed s) (id : ℕ) where
  io-Aimed :
      (f : IoHandle → Effect)
      → ((io : IoHandle) → OwnsIo s id io → Aimed s (f io))
      → (o : Option JobState) → get id s.jobs ≡ o
      → All (Aimed s) (with_io o f)
  io-Aimed f aim none e = tt
  io-Aimed f aim (some job) e = owned job.io refl
    where
      owned : (p : Option IoHandle) → job.io ≡ p → All (Aimed s) (io_effects p f)
      owned none q = tt
      owned (some io) q = (aim io (job, e, q), tt)

  process-Aimed :
      (f : JobState → ProcessHandle → Effect)
      → ((job : JobState) (p : ProcessHandle)
          → get id s.jobs ≡ some job
          → job.process ≡ some p
          → Aimed s (f job p))
      → (o : Option JobState) → get id s.jobs ≡ o
      → All (Aimed s) (with_process o f)
  process-Aimed f aim none e = tt
  process-Aimed f aim (some job) e = owned job.process refl
    where
      owned :
          (p : Option ProcessHandle)
          → job.process ≡ p
          → All (Aimed s) (elim p [ none ↦ [] | some process ↦ f job process ∷ [] ])
      owned none q = tt
      owned (some p) q = (aim job p e q, tt)

  -- The invariant leaves no job in a group.
  ungrouped :
      (job : JobState) → get id s.jobs ≡ some job → (is_some job.pgroup || job.isolated) ≡ false
  ungrouped job e =
      let fits : JobFits id (some job) (get id s.lifecycle) = rw e at (w.fits id) in
      ground (arith, fits)

resolve-Aimed : (s : ExecutionState) (a : Action) → WellFormed s → All (Aimed s) (resolve s a).1
unfolding resolve
resolve-Aimed s (Action.emit_log level event) w = (tt, tt)
resolve-Aimed s (Action.register_interest id stream) w =
    io-Aimed s w id _ (λ io owns. owns) (get id s.jobs) refl
resolve-Aimed s (Action.remove_interest id stream) w =
    io-Aimed s w id _ (λ io owns. owns) (get id s.jobs) refl
resolve-Aimed s (Action.perform_io id) w = io-Aimed s w id _ (λ io owns. owns) (get id s.jobs) refl
resolve-Aimed s (Action.start_process id exec policy) w = (tt, tt)
resolve-Aimed s (Action.signal_process id signal) w =
    process-Aimed s w id _ (λ job p e q. ((job, e, q), ungrouped s w id job e)) (get id s.jobs) refl
resolve-Aimed s (Action.poll_process id) w =
    process-Aimed s w id _ (λ job p e q. (job, e, q)) (get id s.jobs) refl
resolve-Aimed s _ w = tt

-- In a well-formed state every resolved effect carries a handle that its job owns, and every signal
-- goes to a single process, never to a group.
pub resolve_effects-Aimed :
    (s : ExecutionState) (actions : List Action)
    → WellFormed s
    → All (Aimed s) (resolve_effects s actions).1
unfolding resolve_effects
resolve_effects-Aimed s [] w = tt
resolve_effects-Aimed s (a ∷ actions) w =
    All-append (Aimed s) (resolve s a).1 (resolve_effects s actions).1 (resolve-Aimed s a w)
      (resolve_effects-Aimed s actions w)

-- The actions that ask for an effect.
abbrev pub is_intent : Action → Bool
is_intent (Action.emit_log level event) = true
is_intent (Action.register_interest id stream) = true
is_intent (Action.remove_interest id stream) = true
is_intent (Action.perform_io id) = true
is_intent (Action.start_process id exec policy) = true
is_intent (Action.signal_process id signal) = true
is_intent (Action.poll_process id) = true
is_intent _ = false

-- The other actions, in their order.
abbrev pub answers : List Action → List Action
answers [] = []
answers (a ∷ actions) = let rest = answers actions in if is_intent a then rest else a ∷ rest

abbrev pub intents : List Action → ℕ
intents [] = 0
intents (a ∷ actions) = (if is_intent a then 1 else 0) + intents actions

resolve_ipc :
    (s : ExecutionState) (a : Action) → (resolve s a).0 ≡ (if is_intent a then [] else a ∷ [])
unfolding resolve
resolve_ipc s (Action.emit_log level event) = refl
resolve_ipc s _ = refl

length-resolve :
    (s : ExecutionState) (a : Action) → length (resolve s a).1 ≤ (if is_intent a then 1 else 0)
unfolding resolve
length-resolve s (Action.emit_log level event) = omega arith
length-resolve s _ = ground arith

-- Whatever the state, the actions split: those that ask for no effect go on to the clients, in
-- their order and each once, and each of the others resolves to one effect at most.
pub resolve_effects_split :
    (s : ExecutionState) (actions : List Action)
    → ((resolve_effects s actions).0 ≡ answers actions)
      × (length (resolve_effects s actions).1 ≤ intents actions)
unfolding resolve_effects
resolve_effects_split s [] = (refl, omega arith)
resolve_effects_split s (a ∷ actions) =
    let (ipc, count) = resolve_effects_split s actions in
    (
      rw (resolve_ipc s a, ipc) (ground arith),
      omega (
        arith,
        count,
        length-resolve s a,
        length-append (resolve s a).1 (resolve_effects s actions).1,
      ),
    )
