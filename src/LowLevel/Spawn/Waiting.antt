-- ===== src/LowLevel/Spawn/Waiting.antt =====
-- Process::wait_step and wait_blocking (low_level/spawn/mod.rs).
use core_shift.Base.{
  ◌≡◌, ◌≢◌, refl, Option, none, some, List, [], ◌∷◌, Result, ok, err, arith, ◌⊎◌, inl, inr,
  Bool-cases, ◌==◌,
}
use core_shift.LowLevel.Libc.{Errno, SysError}
use core_shift.LowLevel.Spawn.{
  StatusMacros, ExitStatus, Waited, unchanged, changed, failed, wait_step, wait_blocking,
}

-- What a blocking wait makes of the answer of a step.
abbrev pub Agrees :
    Option (Result (Option ExitStatus) SysError × List Waited)
    → Option (Result ExitStatus SysError × List Waited)
    → Type 0
Agrees none blocking = blocking ≡ none
Agrees (some (ok none, rest)) blocking = Unit
Agrees (some (ok (some status), rest)) blocking = blocking ≡ some (ok status, rest)
Agrees (some (err e, rest)) blocking = (e' : SysError) × (blocking ≡ some (err e', rest))

-- On the same answers of the system, a blocking wait and a step agree: both give the same status,
-- both fail, or both wait on, except where the child is still running.
pub wait_step-Agrees :
    (c : Errno) (w : StatusMacros) (answers : List Waited)
    → Agrees (wait_step c w answers) (wait_blocking c w answers)
unfolding wait_step wait_blocking
wait_step-Agrees c w [] = refl
wait_step-Agrees c w (unchanged ∷ answers) = tt
wait_step-Agrees c w (changed status ∷ answers) = refl
wait_step-Agrees c w (failed e ∷ answers) = elim (Bool-cases (e == c.eintr)) [
  | inl retry ↦ rw (retry, wait_step, wait_blocking) (wait_step-Agrees c w answers)
  | inr stop ↦ elim (Bool-cases (e == c.echild)) [
    | inl gone ↦ rw (stop, gone, wait_step, wait_blocking) refl
    | inr other ↦ rw (stop, other, wait_step, wait_blocking) (_, refl)
  ]
]

-- The answers hold one other than EINTR.
abbrev pub Answers : Errno → List Waited → Type 0
Answers c [] = ⊥
Answers c (unchanged ∷ answers) = Unit
Answers c (changed status ∷ answers) = Unit
Answers c (failed e ∷ answers) = (e ≢ c.eintr) ⊎ Answers c answers

-- A step returns, provided that the system at some point answers with anything but EINTR.
pub wait_step-returns :
    (c : Errno) (w : StatusMacros) (answers : List Waited)
    → Answers c answers
    → (out : Result (Option ExitStatus) SysError × List Waited) × (wait_step c w answers ≡ some out)
unfolding wait_step
wait_step-returns c w [] h = absurd h
wait_step-returns c w (unchanged ∷ answers) h = (_, refl)
wait_step-returns c w (changed status ∷ answers) h = (_, refl)
wait_step-returns c w (failed e ∷ answers) h = elim (Bool-cases (e == c.eintr)) [
  | inl retry ↦ elim h [
    | inl other ↦ absurd (ground (arith, retry, other))
    | inr later ↦ rw (retry, wait_step) (wait_step-returns c w answers later)
  ]
  | inr stop ↦ elim (Bool-cases (e == c.echild)) [
    | inl gone ↦ rw (stop, gone, wait_step) (_, refl)
    | inr other ↦ rw (stop, other, wait_step) (_, refl)
  ]
]
