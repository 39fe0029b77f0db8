-- ===== src/LowLevel/Synchronous/Unlimited.antt =====
-- What a call of spawn (low_level/spawn/mod.rs) gives, whose drain is emptied before the wait.
use core_shift.Base.{
  ℕ, ◌+◌, ◌*◌, ◌<◌, ◌≡◌, refl, subst, ap, Bool, true, false, Option, none, some, List, [], ◌∷◌,
  Result, ok, err, if◌then◌else◌, Ensures, Ensures-some, arith,
}
use core_shift.LowLevel.Libc.{Errno, SysError}
use core_shift.LowLevel.Io.Buffer
use core_shift.LowLevel.Io.Buffer.{EarlyExit, BufferState}
use core_shift.LowLevel.Io.Drain.{DrainState, is_done, take_all_slots, into_parts}
use core_shift.LowLevel.Launch.{SpawnOptions, Running, spawn_start}
use core_shift.LowLevel.Sys.{CancelPolicy, ProcessGroup}
use core_shift.LowLevel.Spawn.{StatusMacros, ExitStatus, Waited, wait_step}
use core_shift.LowLevel.WaitLoop.{Signal, Options, Watch, round}
use core_shift.LowLevel.WaitLoop.Loop.{
  Output, Tick, Finished, options, output, or_end, poll_status, final_status, loop, watching,
  wait_loop,
}
use core_shift.LowLevel.Synchronous.{Answers, register, after_start, spawn}
use core_shift.LowLevel.Synchronous.Fresh.{Fresh, InResult, FreshRunning, spawn_start-Fresh}

abbrev NoOutput : Output → Type 0
NoOutput out = (out.stdout ≡ []) × (out.stderr ≡ [])

-- What is true of a call that is over.
abbrev Ended : (List Signal → Type 0) → Finished → Type 0
Ended Q (r, signals) = InResult NoOutput r × Q signals

output-NoOutput :
    (pid : ℕ) (d : DrainState) (timed_out : Bool) (status : ExitStatus)
    → Fresh d
    → NoOutput (output pid d timed_out status)
unfolding Fresh take_all_slots into_parts Buffer.into_parts
output-NoOutput pid d timed_out status f = (ap (λ t. t.0) f, ap (λ t. t.1) f)

module _ (Q : List Signal → Type 0) where
  or_end-Ended :
      {A : Type 0} (signals : List Signal) (r : Option (Result A SysError))
      (go_on : A → Option Finished)
      → Q signals
      → ((a : A) → Ensures (Ended Q) (go_on a))
      → Ensures (Ended Q) (or_end signals r go_on)
  or_end-Ended signals none go_on q h = tt
  or_end-Ended signals (some (err e)) go_on q h = (tt, q)
  or_end-Ended signals (some (ok a)) go_on q h = h a

  if-Ended :
      (b : Bool) (out more : Option Finished)
      → b ≡ true
      → Ensures (Ended Q) out
      → Ensures (Ended Q) (if b then out else more)
  if-Ended b out more e h = rw (e) h

  -- The drain is done already, and so the first round is the last.
  loop-Ended :
      (c : Errno) (w : StatusMacros) (o : Options) (pid : ℕ) (d : DrainState)
      (status_raw : Option ExitStatus) (watch : Watch) (t : Tick) (ticks : List Tick)
      → Fresh d
      → is_done d ≡ true
      → Q (round o t.now t.killed watch).signals
      → Ensures (Ended Q) (loop c w o pid d status_raw watch (t ∷ ticks))
  unfolding loop
  loop-Ended c w o pid d status_raw watch t ticks f done q =
      let signals = (round o t.now t.killed watch).signals in
      or_end-Ended signals (poll_status c w status_raw t.waited) _ q (λ status.
        if-Ended (is_done d) _ _ done (
          or_end-Ended signals (final_status c w status t.blocking) _ q
            (λ s. (output-NoOutput pid d (round o t.now t.killed watch).watch.timed_out s f, q))))

  wait_loop-Ended :
      (c : Errno) (w : StatusMacros) (o : Options) (pid : ℕ) (d : DrainState) (first : List Waited)
      (ticks : List Tick)
      → Fresh d
      → is_done d ≡ true
      → Q []
      → ((t : Tick) (more : List Tick)
          → ticks ≡ t ∷ more
          → Q (round o t.now t.killed watching).signals)
      → Ensures (Ended Q) (wait_loop c w o pid d first ticks)
  unfolding wait_loop
  wait_loop-Ended c w o pid d first ticks f done q h = entered (wait_step c w first) ticks h
    where
      entered :
          (r : Option (Result (Option ExitStatus) SysError × List Waited)) (ticks : List Tick)
          → ((t : Tick) (more : List Tick)
              → ticks ≡ t ∷ more
              → Q (round o t.now t.killed watching).signals)
          → Ensures (Ended Q) (elim r as (λ _. Option Finished) [
            | none ↦ none
            | some (err e, rest) ↦ some (err e, [])
            | some (ok status, rest) ↦ loop c w o pid d status watching ticks
          ])
      entered none ticks h = tt
      entered (some (err e, rest)) ticks h = (tt, q)
      entered (some (ok status, rest)) [] h = tt
      entered (some (ok status, rest)) (t ∷ more) h =
          loop-Ended c w o pid d status watching t more f done (h t more refl)

Fresh-parts : (d : DrainState) → Fresh d → ((into_parts d).0 ≡ []) × ((into_parts d).1 ≡ [])
unfolding Fresh
Fresh-parts d f = (ap (λ t. t.0) f, ap (λ t. t.1) f)

taken_is_done : (d : DrainState) → is_done (take_all_slots d).1 ≡ true
unfolding is_done take_all_slots
taken_is_done d = refl

taken-Fresh : (d : DrainState) → Fresh d → Fresh (take_all_slots d).1
unfolding Fresh take_all_slots into_parts
taken-Fresh d f = f

module _ (Q : List Signal → Type 0) where
  registered-Ended :
      (r : Result (Unit {0}) SysError) (out : Option Finished)
      → Q []
      → Ensures (Ended Q) out
      → Ensures
          (Ended Q)
          (elim r as (λ _. Option Finished) [ err e ↦ some (err e, []) | ok _ ↦ out ])
  registered-Ended (err e) out q h = (tt, q)
  registered-Ended (ok u) out q h = h

  either-Ended :
      (b : Bool) (waited given : Option Finished)
      → Ensures (Ended Q) waited
      → Ensures (Ended Q) given
      → Ensures (Ended Q) (if b then waited else given)
  either-Ended true waited given h g = h
  either-Ended false waited given h g = g

module _ (Q : List Signal → Type 0) (c : Errno) (w : StatusMacros) (a : Answers)
    (opts : SpawnOptions) (q : Q [])
    (h : (t : Tick) (more : List Tick)
      → a.ticks ≡ t ∷ more
      → Q
          (round
            (options a.start opts.timeout_ms opts.kill_grace_ms opts.cancel opts.pgroup)
            t.now
            t.killed
            watching).signals) where
  after_start-Ended :
      (running : Running)
      → FreshRunning running
      → Ensures (Ended Q) (after_start c w a opts running)
  unfolding after_start FreshRunning
  after_start-Ended (pid, d) f =
      let drain = (take_all_slots d).1 in
      let fresh = taken-Fresh d f in
      registered-Ended Q (register a.epoll (take_all_slots d).0) _ q (
        either-Ended Q opts.wait _ _
          (wait_loop-Ended Q c w
            (options a.start opts.timeout_ms opts.kill_grace_ms opts.cancel opts.pgroup) pid drain
            a.first a.ticks fresh (taken_is_done d) q h)
          (Fresh-parts drain fresh, q))

  started-Ended :
      (r : Result Running SysError)
      → InResult FreshRunning r
      → Ensures (Ended Q) (elim r as (λ _. Option Finished) [
        | err e ↦ some (err e, [])
        | ok running ↦ after_start c w a opts running
      ])
  started-Ended (err e) f = (tt, q)
  started-Ended (ok running) f = after_start-Ended running f

  spawn-Ended : Ensures (Ended Q) (spawn c w a opts)
  unfolding spawn
  spawn-Ended =
      registered-Ended Q a.reactor _ q
        (started-Ended (spawn_start a.system 0 opts).result (spawn_start-Fresh a.system 0 opts))

-- Whatever is asked for and however the system answers: a call that returns an output has captured
-- nothing, also one that was to wait for the end of the process and to capture what it writes.
pub spawn_captures_nothing :
    (c : Errno) (w : StatusMacros) (a : Answers) (opts : SpawnOptions) (out : Output)
    (signals : List Signal)
    → spawn c w a opts ≡ some (ok out, signals)
    → (out.stdout ≡ []) × (out.stderr ≡ [])
spawn_captures_nothing c w a opts out signals e =
    (Ensures-some (Ended (λ _. Unit)) (spawn c w a opts) (ok out, signals) e
      (spawn-Ended (λ _. Unit) c w a opts tt (λ t more f. tt))).0

-- The first round comes before this time.
abbrev pub Before : ℕ → List Tick → Type 0
Before dl [] = Unit
Before dl (t ∷ ticks) = t.now < dl

before_signals :
    (start ms now : ℕ) (killed : Result (Unit {0}) SysError) (grace : ℕ) (cancel : CancelPolicy)
    (g : ProcessGroup)
    → now < start + ms * 1_000_000
    → (round (options start (some ms) grace cancel g) now killed watching).signals ≡ []
unfolding round options
before_signals start ms now killed grace cancel g l = ground arith

-- With a timeout that has not passed at the first round of the loop, a call that is over has sent no
-- signal, however long it has waited: the timeout is not enforced.
pub spawn_never_kills :
    (c : Errno) (w : StatusMacros) (a : Answers) (opts : SpawnOptions) (ms : ℕ) (out : Finished)
    → opts.timeout_ms ≡ some ms
    → Before (a.start + ms * 1_000_000) a.ticks
    → spawn c w a opts ≡ some out
    → out.1 ≡ []
spawn_never_kills c w a opts ms out m b e =
    (Ensures-some (Ended (λ s. s ≡ [])) (spawn c w a opts) out e (
      spawn-Ended (λ s. s ≡ []) c w a opts refl
        (λ t more f.
          let l : t.now < a.start + ms * 1_000_000 =
            subst (Before (a.start + ms * 1_000_000)) f b in
          rw (m) (
            before_signals a.start ms t.now t.killed opts.kill_grace_ms opts.cancel opts.pgroup
              l)))).1
