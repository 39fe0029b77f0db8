-- ===== src/Core/Machine/Stages/Ends.antt =====
-- The stage of a job at its end (core/lifecycle.rs).
use core_shift.Base.{ℕ, ◌≡◌, ◌≢◌, refl, sym, subst, Option, none, some, List, [], ◌∷◌}
use core_shift.Base.HashMap.{get}
use core_shift.Core.Types.{Event, JobState, JobLifecycle}
use core_shift.Core.Machine.{Machine, Input, observe, run}
use core_shift.Core.Machine.Stages.{
  Phase, unknown, known, phase_of, JobStep, Life, admit, start, stop, kill, fail, fail_unknown,
  finish, ignore, pass, done, next,
}
use core_shift.Core.Machine.Stages.Followed.{run-Life}

-- The input is no failed start of the job.
abbrev pub Starts : ℕ → Input → Type 0
Starts id (observe (Event.process_spawn_failed j message)) = j ≢ id
Starts id _ = Unit

abbrev pub AllStart : ℕ → List Input → Type 0
AllStart id [] = Unit
AllStart id (i ∷ inputs) = Starts id i × AllStart id inputs

-- There is a stage, and it is not the last one.
abbrev pub Unfinished : Option JobLifecycle → Type 0
Unfinished none = ⊥
Unfinished (some JobLifecycle.finished) = ⊥
Unfinished (some _) = Unit

abbrev stage_of : Phase → Option JobLifecycle
stage_of (unknown stage) = stage
stage_of (known running asked stage) = stage

step-Unfinished :
    (id : ℕ) (i : Input) (x y : Phase)
    → JobStep id i x y
    → Starts id i
    → Unfinished (stage_of x)
    → Unfinished (stage_of y)
step-Unfinished id _ _ _ (admit now later owner exec policy x) s u = tt
step-Unfinished id _ _ _ (start process io running asked stage) s u = tt
step-Unfinished id _ _ _ (stop now later running asked stage) s u = tt
step-Unfinished id _ _ _ (kill now later running asked stage) s u = tt
step-Unfinished id _ _ _ (fail message running asked stage) s u = absurd (s refl)
step-Unfinished id _ _ _ (fail_unknown message stage) s u = absurd (s refl)
step-Unfinished id _ _ _ (finish now later result running asked stage) s u = u
step-Unfinished id _ _ _ (ignore i stage n) s u = u
step-Unfinished id _ _ _ (pass i x e) s u = u

Life-Unfinished :
    (id : ℕ) (inputs : List Input) (x y : Phase)
    → Life id inputs x y
    → AllStart id inputs
    → Unfinished (stage_of x)
    → Unfinished (stage_of y)
Life-Unfinished id _ _ _ (done x) s u = u
Life-Unfinished id _ _ _ (next i inputs x y z step rest) s u =
    Life-Unfinished id inputs y z rest s.1 (step-Unfinished id i x y step s.0 u)

stage_of-phase_of :
    (o : Option JobState) (stage : Option JobLifecycle) → stage_of (phase_of o stage) ≡ stage
stage_of-phase_of none stage = refl
stage_of-phase_of (some job) stage = refl

-- Whatever is dispatched and observed, the end of the job included, as long as no start of it fails: a
-- job that has a stage other than the last keeps one, so its entry stays in the table of stages, and
-- it never gets to the last.
pub run-Unfinished :
    (id : ℕ) (m : Machine) (inputs : List Input)
    → AllStart id inputs
    → Unfinished (get id m.state.lifecycle)
    → Unfinished (get id (run m inputs).0.state.lifecycle)
run-Unfinished id m inputs s u =
    subst Unfinished (stage_of-phase_of (get id (run m inputs).0.state.jobs) _) (
      Life-Unfinished id inputs _ _ (run-Life id m inputs) s
        (subst Unfinished (sym (stage_of-phase_of (get id m.state.jobs) _)) u))
