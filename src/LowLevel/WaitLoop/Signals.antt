-- ===== src/LowLevel/WaitLoop/Signals.antt =====
-- The signals of the whole of wait_loop (low_level/spawn/mod.rs).
use core_shift.Base.{
  ℕ, ◌≡◌, refl, sym, subst, Option, none, some, List, [], ◌∷◌, Result, ok, err, Ensures,
  Ensures-some, is_some, Bool, true, false, if◌then◌else◌,
}
use mathlib.Core.List.{append-nil}
use core_shift.LowLevel.Libc.{Errno, SysError}
use core_shift.LowLevel.Io.Drain.{DrainState, is_done}
use core_shift.LowLevel.Spawn.{StatusMacros, ExitStatus, Waited, wait_step}
use core_shift.LowLevel.WaitLoop.{
  KillState, Options, Watch, round, rounds, target_is_group, wait_timeout,
}
use core_shift.LowLevel.WaitLoop.Escalation.{Allowed, rounds_escalate}
use core_shift.LowLevel.WaitLoop.Loop.{
  Output, Tick, Finished, output, or_end, after_signals, handle_all, poll_status, final_status,
  loop, watching, wait_loop,
}

-- The signals are those of rounds at some readings of the clock.
abbrev Traced : Options → Watch → Finished → Type 0
Traced o watch (r, signals) =
    (readings : List (ℕ × Result (Unit {0}) SysError)) × (signals ≡ (rounds o readings watch).1)

module _ (o : Options) (watch : Watch) (now : ℕ) (killed : Result (Unit {0}) SysError) where
  -- A round that is the last.
  last-Traced :
      (r : Result Output SysError) → Traced o watch (r, (round o now killed watch).signals)
  unfolding rounds
  last-Traced r = ((now, killed) ∷ [], sym (append-nil (round o now killed watch).signals))

  more-Traced :
      (out : Option Finished)
      → Ensures (Traced o (round o now killed watch).watch) out
      → Ensures (Traced o watch) (after_signals (round o now killed watch).signals out)
  unfolding rounds
  more-Traced none t = tt
  more-Traced (some (r, signals)) (readings, e) = ((now, killed) ∷ readings, rw (e) refl)

  or_end-Traced :
      {A : Type 0} (r : Option (Result A SysError)) (go_on : A → Option Finished)
      → ((a : A) → Ensures (Traced o watch) (go_on a))
      → Ensures (Traced o watch) (or_end (round o now killed watch).signals r go_on)
  or_end-Traced none go_on t = tt
  or_end-Traced (some (err e)) go_on t = last-Traced (err e)
  or_end-Traced (some (ok a)) go_on t = t a

  if-Traced :
      (b : Bool) (out more : Option Finished)
      → Ensures (Traced o watch) out
      → Ensures (Traced o watch) more
      → Ensures (Traced o watch) (if b then out else more)
  if-Traced true out more t u = t
  if-Traced false out more t u = u

module _ (c : Errno) (w : StatusMacros) (o : Options) (pid : ℕ) where
  loop-Traced :
      (ticks : List Tick) (d : DrainState) (status_raw : Option ExitStatus) (watch : Watch)
      → Ensures (Traced o watch) (loop c w o pid d status_raw watch ticks)
  unfolding loop
  loop-Traced [] d status_raw watch = tt
  loop-Traced (t ∷ ticks) d status_raw watch =
      let r = round o t.now t.killed watch in
      or_end-Traced o watch t.now t.killed (poll_status c w status_raw t.waited) _ (λ status.
        if-Traced o watch t.now t.killed (is_done d) _ _
          (or_end-Traced o watch t.now t.killed (final_status c w status t.blocking) _
            (λ s. last-Traced o watch t.now t.killed (ok (output pid d r.watch.timed_out s))))
          (or_end-Traced o watch t.now t.killed
            (some (t.polled (wait_timeout (is_some status) r.poll_timeout))) _
            (λ events. or_end-Traced o watch t.now t.killed (handle_all c d events) _ (λ d'.
              more-Traced o watch t.now t.killed (loop c w o pid d' status r.watch ticks)
                (loop-Traced ticks d' status r.watch)))))

-- Whenever the loop returns, with an output or an error, and whatever was answered: the policy to do
-- nothing has sent nothing, the policy to kill nothing or one SIGKILL, and the graceful one nothing,
-- one SIGTERM, or one SIGTERM and after it one SIGKILL; each to the group exactly if there is one.
pub wait_loop_escalates :
    (c : Errno) (w : StatusMacros) (o : Options) (pid : ℕ) (d : DrainState) (first : List Waited)
    (ticks : List Tick) (out : Finished)
    → wait_loop c w o pid d first ticks ≡ some out
    → Allowed (target_is_group o) o.cancel KillState.not_sent out.1
unfolding wait_loop rounds
wait_loop_escalates c w o pid d first ticks out e =
    let (readings, s) =
      Ensures-some (Traced o watching) (wait_loop c w o pid d first ticks) out e
        (traced (wait_step c w first)) in
    subst (Allowed (target_is_group o) o.cancel KillState.not_sent) (sym s)
      (rounds_escalate o readings)
  where
    traced :
        (r : Option (Result (Option ExitStatus) SysError × List Waited))
        → Ensures (Traced o watching) (elim r [
          | none ↦ none
          | some (err e, rest) ↦ some (err e, [])
          | some (ok status, rest) ↦ loop c w o pid d status watching ticks
        ])
    traced none = tt
    traced (some (err x, rest)) = ([], refl)
    traced (some (ok status, rest)) = loop-Traced c w o pid ticks d status watching
