-- ===== src/LowLevel/Launch/Attributes.antt =====
-- The signals and the process group of a program that low_level/spawn/mod.rs starts: the attributes of
-- spawn_posix_internal, and the calls of the child of spawn_fork_internal. posix_spawn is a parameter
-- that applies the attributes whose flag is set.
use core_shift.Base.{
  ℕ, ◌≡◌, ◌≢◌, refl, ◌∙◌, Bool, true, false, Option, none, some, List, [], ◌∷◌, ◌++◌, not, ◌||◌,
  is_some, String, ◌==◌, inl, inr, sym, ap, subst, Bool-cases,
}
use native.Mathlib.Decide.{ℕ_discrete}
use core_shift.LowLevel.Sys.{ProcessGroup}
use core_shift.LowLevel.Signals.{
  SignalKernel, sigpipe, empty_set, set_with, add_all, unblock_all, reset_default,
}
use core_shift.LowLevel.Launch.{SpawnOptions, Ends, Pipes}
use core_shift.LowLevel.Launch.Child.{
  Call, dup2, close_range, setsid, unblock_all as unblock, reset_sigpipe, chdir, setpgid, execve,
  exit, dup_read, dup_write, enter_session, enter_group, run_program, enter_directory, child_calls,
}

module _ (k : SignalKernel) where
  pub record Attributes : Type 0 where
    pub pgroup : Option ℕ
    pub sigmask : k.SigSet
    pub sigdefault : k.SigSet

  -- POSIX_SPAWN_SETPGROUP goes with a leader; the flags of the signals are always set.
  unfoldable pub attributes : ProcessGroup → Attributes
  unfolding empty_set set_with
  attributes g = record {
    pgroup = g.leader;
    sigmask = empty_set k;
    sigdefault = set_with k (sigpipe ∷ []);
  }

  abbrev pub in_group : Option ℕ → k.State → k.State
  in_group none s = s
  in_group (some pg) s = k.setpgid pg s

  -- What the calls of a forked child do up to exec.
  unfoldable pub signals : List Call → k.State → Option k.State
  unfolding unblock_all reset_default
  signals [] s = none
  signals (dup2 old new ∷ calls) s = signals calls s
  signals (close_range ∷ calls) s = signals calls s
  signals (setsid ∷ calls) s = signals calls (k.setsid s)
  signals (unblock ∷ calls) s = signals calls (unblock_all k s)
  signals (reset_sigpipe ∷ calls) s = signals calls (reset_default k sigpipe s)
  signals (chdir cwd ∷ calls) s = signals calls s
  signals (setpgid pg ∷ calls) s = signals calls (k.setpgid pg s)
  signals (execve argv envp ∷ calls) s = some s
  signals (exit code ∷ calls) s = none

  signals-dup_read :
      (ends : Ends) (target : ℕ) (calls : List Call) (s : k.State)
      → signals (dup_read ends target ++ calls) s ≡ signals calls s
  unfolding signals dup_read
  signals-dup_read none target calls s = refl
  signals-dup_read (some (r, w)) target calls s = elim (Bool-cases (r == target)) [
    | inl e ↦ rw (e) refl
    | inr e ↦ rw (e) refl
  ]

  signals-dup_write :
      (ends : Ends) (target : ℕ) (calls : List Call) (s : k.State)
      → signals (dup_write ends target ++ calls) s ≡ signals calls s
  unfolding signals dup_write
  signals-dup_write none target calls s = refl
  signals-dup_write (some (r, w)) target calls s = elim (Bool-cases (w == target)) [
    | inl e ↦ rw (e) refl
    | inr e ↦ rw (e) refl
  ]

  abbrev session : Bool → k.State → k.State
  session true s = k.setsid s
  session false s = s

  -- The child's state at exec.
  abbrev forked : ProcessGroup → k.State → k.State
  forked g s =
      k.signal_default sigpipe (k.set_mask k.sigemptyset (in_group g.leader (session g.isolated s)))

  signals-enter_session :
      (isolated : Bool) (calls : List Call) (s : k.State)
      → signals (enter_session isolated ++ calls) s ≡ signals calls (session isolated s)
  unfolding signals enter_session
  signals-enter_session true calls s = refl
  signals-enter_session false calls s = refl

  signals-enter_group :
      (leader : Option ℕ) (calls : List Call) (s : k.State)
      → signals (enter_group leader ++ calls) s ≡ signals calls (in_group leader s)
  unfolding signals enter_group
  signals-enter_group none calls s = refl
  signals-enter_group (some pg) calls s = refl

  signals-run_program :
      (opts : SpawnOptions) (s : k.State)
      → signals (run_program opts) s
        ≡ some (k.signal_default sigpipe (k.set_mask k.sigemptyset (in_group opts.pgroup.leader s)))
  unfolding signals run_program unblock_all reset_default empty_set
  signals-run_program opts s = signals-enter_group opts.pgroup.leader _ s

  signals-enter_directory :
      (entered : Bool) (cwd : Option String) (opts : SpawnOptions) (s : k.State)
      → (entered || not (is_some cwd)) ≡ true
      → signals (enter_directory entered cwd opts) s
        ≡ some (k.signal_default sigpipe (k.set_mask k.sigemptyset (in_group opts.pgroup.leader s)))
  unfolding signals enter_directory
  signals-enter_directory true none opts s e = signals-run_program opts s
  signals-enter_directory false none opts s e = signals-run_program opts s
  signals-enter_directory true (some cwd) opts s e = signals-run_program opts s
  signals-enter_directory false (some cwd) opts s e = cc

  signals-child_calls :
      (entered : Bool) (p : Pipes) (opts : SpawnOptions) (s : k.State)
      → (entered || not (is_some opts.ctx.cwd)) ≡ true
      → signals (child_calls entered p opts) s ≡ some (forked opts.pgroup s)
  unfolding child_calls signals
  signals-child_calls entered p opts s e =
      signals-dup_read p.stdin 0 _ s
      ∙ signals-dup_write p.stdout 1 _ s
      ∙ signals-dup_write p.stderr 2 _ s
      ∙ signals-enter_session opts.pgroup.isolated _ s
      ∙ signals-enter_directory entered opts.ctx.cwd opts _ e

  -- What posix_spawn makes of the attributes.
  pub record Applied (a : Attributes) (s started : k.State) : Type 0 where
    pub masked : (sig : ℕ) → k.blocked started sig ≡ k.has a.sigmask sig
    pub defaulted : (sig : ℕ) → k.has a.sigdefault sig ≡ true → k.ignored started sig ≡ false
    pub kept : (sig : ℕ) → k.has a.sigdefault sig ≡ false → k.ignored started sig ≡ k.ignored s sig
    pub grouped : k.group started ≡ k.group (in_group a.pgroup s)

  -- Two programs that start with the same signals blocked and ignored.
  pub record SameSignals (a b : k.State) : Type 0 where
    pub blocked : (sig : ℕ) → k.blocked a sig ≡ k.blocked b sig
    pub ignored : (sig : ℕ) → k.ignored a sig ≡ k.ignored b sig

  forked-blocked : (g : ProcessGroup) (s : k.State) (sig : ℕ) → k.blocked (forked g s) sig ≡ false
  forked-blocked g s sig =
      k.blocked-signal_default sigpipe sig _
      ∙ k.blocked-set_mask k.sigemptyset _ sig
      ∙ k.has-sigemptyset sig

  in_group-ignored :
      (leader : Option ℕ) (s : k.State) (sig : ℕ)
      → k.ignored (in_group leader s) sig ≡ k.ignored s sig
  in_group-ignored none s sig = refl
  in_group-ignored (some pg) s sig = k.ignored-setpgid pg sig s

  session-ignored :
      (b : Bool) (s : k.State) (sig : ℕ) → k.ignored (session b s) sig ≡ k.ignored s sig
  session-ignored true s sig = k.ignored-setsid sig s
  session-ignored false s sig = refl

  forked-ignored :
      (g : ProcessGroup) (s : k.State) (sig : ℕ)
      → sigpipe ≢ sig
      → k.ignored (forked g s) sig ≡ k.ignored s sig
  forked-ignored g s sig ne =
      k.ignored-signal_default_ne sigpipe sig _ ne
      ∙ k.ignored-set_mask k.sigemptyset _ sig
      ∙ in_group-ignored g.leader _ sig
      ∙ session-ignored g.isolated s sig

  Applied-ignored :
      (g : ProcessGroup) (s posix : k.State)
      → Applied (attributes g) s posix
      → (sig : ℕ) → k.ignored (forked g s) sig ≡ k.ignored posix sig
  unfolding attributes set_with add_all
  Applied-ignored g s posix a sig = elim (ℕ_discrete sigpipe sig) [
    | yes q ↦
        subst (λ j. k.ignored (forked g s) j ≡ k.ignored posix j) q
          (k.ignored-signal_default sigpipe _
            ∙ sym (a.defaulted sigpipe (k.has-sigaddset k.sigemptyset sigpipe)))
    | no ne ↦
        forked-ignored g s sig ne
        ∙ sym (a.kept sig (k.has-sigaddset_ne k.sigemptyset sigpipe sig ne ∙ k.has-sigemptyset sig))
  ]

  forked-group :
      (g : ProcessGroup) (s : k.State)
      → g.isolated ≡ false
      → k.group (forked g s) ≡ k.group (in_group g.leader s)
  forked-group g s e =
      k.group-signal_default sigpipe _
      ∙ k.group-set_mask k.sigemptyset _
      ∙ ap (λ b. k.group (in_group g.leader (session b s))) e

  -- A program that is not to run in a session of its own, and takes the parent's directory or one that
  -- can be entered, starts with the same signals blocked and ignored and in the same process group
  -- whichever backend starts it: none is blocked, and SIGPIPE is not ignored.
  pub attributes_agree :
      (entered : Bool) (p : Pipes) (opts : SpawnOptions) (s posix : k.State)
      → (entered || not (is_some opts.ctx.cwd)) ≡ true
      → opts.pgroup.isolated ≡ false
      → Applied (attributes opts.pgroup) s posix
      → (started : k.State) × (signals (child_calls entered p opts) s ≡ some started)
        × SameSignals started posix
        × (k.group started ≡ k.group posix)
        × ((sig : ℕ) → k.blocked started sig ≡ false)
        × (k.ignored started sigpipe ≡ false)
  unfolding attributes empty_set
  attributes_agree entered p opts s posix e shared a = (
    forked opts.pgroup s,
    signals-child_calls entered p opts s e,
    record {
      blocked =
          λ sig. forked-blocked opts.pgroup s sig ∙ sym (a.masked sig ∙ k.has-sigemptyset sig);
      ignored = Applied-ignored opts.pgroup s posix a;
    },
    forked-group opts.pgroup s shared ∙ sym a.grouped,
    forked-blocked opts.pgroup s,
    k.ignored-signal_default sigpipe _,
  )
