-- ===== src/Daemon/Interface.antt =====
-- What run_daemon (lib.rs) needs of an executor of effects (runtime.rs): an event comes only of the
-- start or the poll of a process, about that job, and the start of
-- one always gives one; what is ready concerns streams only.
use core_shift.Base.{◌≡◌, Option, none, some, List, All}
use core_shift.Core.Types.{Effect, Event}
use core_shift.LowLevel.Reactor

-- The events that an effect may give.
abbrev pub Fits : Effect → Option Event → Type 0
Fits (Effect.start_process id exec policy) none = ⊥
Fits _ none = Unit
Fits (Effect.start_process id exec policy) (some (Event.process_started j process io)) = j ≡ id
Fits (Effect.start_process id exec policy) (some (Event.process_spawn_failed j message)) = j ≡ id
Fits (Effect.poll_process id process) (some (Event.process_exited j status)) = j ≡ id
Fits _ (some event) = ⊥

abbrev pub IsReady : Event → Type 0
IsReady (Event.job_fd_ready id readable writable error) = Unit
IsReady _ = ⊥

-- `none`: what the system answers is described no further.
pub record Executor : Type 1 where
  pub State : Type 0
  pub apply : State → Effect → Option (State × Option Event)
  pub ready : State → List Reactor.Event → List Event
  pub apply-Fits :
      (s : State) (effect : Effect) (s' : State) (event : Option Event)
      → apply s effect ≡ some (s', event)
      → Fits effect event
  pub ready-IsReady : (s : State) (events : List Reactor.Event) → All IsReady (ready s events)
