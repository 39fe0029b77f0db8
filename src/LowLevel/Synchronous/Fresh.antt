-- ===== src/LowLevel/Synchronous/Fresh.antt =====
-- The drain of a process that has just been started (low_level/spawn/mod.rs).
use core_shift.Base.{ℕ, ◌≡◌, refl, Option, none, some, List, [], Result, ok, err, ◌>>=◌}
use core_shift.LowLevel.Libc.{SysError, syscall}
use core_shift.LowLevel.Io.Buffer
use core_shift.LowLevel.Io.Buffer.{EarlyExit, BufferState}
use core_shift.LowLevel.Io.Drain
use core_shift.LowLevel.Io.Drain.{DrainState, slot, used_stdin, is_done, take_all_slots, into_parts}
use core_shift.LowLevel.Launch.{
  System, SpawnOptions, Backend, Pipes, Outcome, Running, adopt, attach, given_up, with_pipes,
  new_pipes, posix_calls, action_ops, attribute_ops, with_attributes, with_actions, by_backend,
  resolve_backend, spawn_posix_internal, spawn_fork_internal, spawn_start,
}

-- A drain that has captured nothing.
unfoldable pub Fresh : DrainState → Type 0
Fresh d = into_parts d ≡ ([], [])

-- What is true of a result, if there is one.
abbrev pub InResult : {A : Type 0} → (A → Type 0) → Result A SysError → Type 0
InResult P (err e) = Unit
InResult P (ok a) = P a

bind-InResult :
    {A B : Type 0} (P : B → Type 0) (r : Result A SysError) (f : A → Result B SysError)
    → ((a : A) → InResult P (f a))
    → InResult P (r >>= f)
bind-InResult P (err e) f h = tt
bind-InResult P (ok a) f h = h a

new-Fresh :
    (f : ℕ → Result (Unit {0}) SysError) (job_id : ℕ) (stdin_fd : Option ℕ) (buf : Option (List ℕ))
    (out error : Option ℕ) (limit : ℕ) (early : EarlyExit)
    → InResult Fresh (Drain.new f job_id stdin_fd buf out error limit early)
unfolding Drain.new Fresh into_parts Buffer.new Buffer.into_parts
new-Fresh f job_id stdin_fd buf out error limit early =
    bind-InResult Fresh (slot f job_id 1 (used_stdin stdin_fd buf)) _ (λ a.
      bind-InResult Fresh (slot f job_id 2 out) _
        (λ b. bind-InResult Fresh (slot f job_id 3 error) _ (λ d. refl)))

unfoldable pub FreshRunning : Running → Type 0
FreshRunning (pid, d) = Fresh d

adopt-Fresh :
    (pid : ℕ) (p : Pipes) (used : Option ℕ) (r : Result DrainState SysError)
    → InResult Fresh r
    → InResult FreshRunning (adopt pid p used r).result
unfolding FreshRunning
adopt-Fresh pid p used (err e) h = tt
adopt-Fresh pid p used (ok d) h = h

module _ (sys : System) (job_id : ℕ) (opts : SpawnOptions) where
  attach-Fresh : (p : Pipes) → InResult FreshRunning (attach sys job_id opts p).result
  unfolding attach
  attach-Fresh p =
      adopt-Fresh sys.pid p _ _
        (new-Fresh sys.set_nonblock job_id _ opts.stdin _ _ opts.max_output opts.early_exit)

  with_pipes-Fresh :
      (r : Result Pipes SysError) (pipes : Outcome Pipes) (go_on : Pipes → Outcome Running)
      → ((p : Pipes) → InResult FreshRunning (go_on p).result)
      → InResult FreshRunning (with_pipes r pipes go_on).result
  with_pipes-Fresh (err e) pipes go_on h = tt
  with_pipes-Fresh (ok p) pipes go_on h = h p

  with_attributes-Fresh :
      (p : Pipes) (r : Result (Unit {0}) SysError)
      → InResult FreshRunning (with_attributes sys job_id opts p r).result
  with_attributes-Fresh p (err e) = tt
  with_attributes-Fresh p (ok u) = attach-Fresh p

  with_actions-Fresh :
      (p : Pipes) (r : Result (Unit {0}) SysError)
      → InResult FreshRunning (with_actions sys job_id opts p r).result
  with_actions-Fresh p (err e) = tt
  with_actions-Fresh p (ok u) =
      with_attributes-Fresh p (posix_calls sys.posix (attribute_ops opts.pgroup))

  after_fork-Fresh :
      (p : Pipes) (r : Option ℕ)
      → InResult FreshRunning
          (elim r as (λ _. Outcome Running) [
            | some e ↦ given_up p (syscall e "fork")
            | none ↦ attach sys job_id opts p
          ]).result
  after_fork-Fresh p (some e) = tt
  after_fork-Fresh p none = attach-Fresh p

  by_backend-Fresh :
      (backend : Backend) → InResult FreshRunning (by_backend sys job_id opts backend).result
  unfolding spawn_posix_internal spawn_fork_internal
  by_backend-Fresh Backend.posix_spawn =
      with_pipes-Fresh _ (new_pipes sys opts.stdin opts.capture_stdout opts.capture_stderr) _
        (λ p. with_actions-Fresh p (posix_calls sys.posix (action_ops p)))
  by_backend-Fresh Backend.fork =
      with_pipes-Fresh _ (new_pipes sys opts.stdin opts.capture_stdout opts.capture_stderr) _
        (λ p. after_fork-Fresh p sys.fork)

  pub spawn_start-Fresh : InResult FreshRunning (spawn_start sys job_id opts).result
  unfolding spawn_start
  spawn_start-Fresh = by_backend-Fresh (resolve_backend sys opts)
