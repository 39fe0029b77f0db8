-- ===== src/LowLevel/Launch/Program.antt =====
-- The child of spawn_fork_internal (low_level/spawn/mod.rs) up to exec, on its table of descriptors.
use core_shift.Base.{
  ℕ, ◌<◌, ◌≤◌, ◌≡◌, refl, ◌∙◌, Bool, true, false, Option, none, some, List, [], ◌∷◌, ◌++◌, not,
  ◌||◌, ◌==◌, is_some, inl, inr, Bool-cases, Option-cases, String, if◌then◌else◌,
}
use core_shift.LowLevel.Launch.Table.{Table}
use core_shift.LowLevel.Launch.Closing.{last_fd, Closing, close_range_fast}
use core_shift.LowLevel.Launch.Closing.Complete.{Works}
use core_shift.LowLevel.Launch.{SpawnOptions, Ends, Pipes}
use core_shift.LowLevel.Launch.Child.{
  Call, dup2, close_range, setsid, unblock_all, reset_sigpipe, chdir, setpgid, execve, exit,
  dup_read, dup_write, enter_session, enter_group, run_program, enter_directory, child_calls,
}
use core_shift.LowLevel.Launch.Streams.{
  read_end, write_end, redirect, redirected, stream, AreEnds, Shows-exec, exec-none, child_table,
  child_table-Streams, Streams,
}

module _ (t : Table) where
  -- The table with which the program starts, unless the child exits before that.
  unfoldable pub program : Closing → List Call → t.State → Option t.State
  program c [] s = none
  program c (dup2 old new ∷ calls) s = program c calls (t.dup2 s old new)
  program c (close_range ∷ calls) s = program c calls (close_range_fast t c none s)
  program c (setsid ∷ calls) s = program c calls s
  program c (unblock_all ∷ calls) s = program c calls s
  program c (reset_sigpipe ∷ calls) s = program c calls s
  program c (chdir cwd ∷ calls) s = program c calls s
  program c (setpgid pg ∷ calls) s = program c calls s
  program c (execve argv envp ∷ calls) s = some (t.exec s)
  program c (exit code ∷ calls) s = none

  -- The calls up to exec, for the table.
  program-dup_read :
      (c : Closing) (ends : Ends) (target : ℕ) (calls : List Call) (s : t.State)
      → program c (dup_read ends target ++ calls) s
        ≡ program c calls (redirect t (read_end ends) target s)
  unfolding program dup_read
  program-dup_read c none target calls s = refl
  program-dup_read c (some (r, w)) target calls s = elim (Bool-cases (r == target)) [
    | inl e ↦ rw (e) refl
    | inr e ↦ rw (e) refl
  ]

  program-dup_write :
      (c : Closing) (ends : Ends) (target : ℕ) (calls : List Call) (s : t.State)
      → program c (dup_write ends target ++ calls) s
        ≡ program c calls (redirect t (write_end ends) target s)
  unfolding program dup_write
  program-dup_write c none target calls s = refl
  program-dup_write c (some (r, w)) target calls s = elim (Bool-cases (w == target)) [
    | inl e ↦ rw (e) refl
    | inr e ↦ rw (e) refl
  ]

  program-enter_session :
      (c : Closing) (b : Bool) (calls : List Call) (s : t.State)
      → program c (enter_session b ++ calls) s ≡ program c calls s
  unfolding program enter_session
  program-enter_session c true calls s = refl
  program-enter_session c false calls s = refl

  program-run_program :
      (c : Closing) (opts : SpawnOptions) (s : t.State)
      → program c (run_program opts) s ≡ some (t.exec s)
  unfolding program run_program enter_group
  program-run_program c opts s = elim (Option-cases opts.pgroup.leader) [
    | inl e ↦ rw (e) refl
    | inr (pg, e) ↦ rw (e) refl
  ]

  program-enter_directory :
      (c : Closing) (entered : Bool) (cwd : Option String) (opts : SpawnOptions) (s : t.State)
      → program c (enter_directory entered cwd opts) s
        ≡ (if entered || not (is_some cwd) then some (t.exec s) else none)
  unfolding program enter_directory
  program-enter_directory c true none opts s = program-run_program c opts s
  program-enter_directory c false none opts s = program-run_program c opts s
  program-enter_directory c true (some cwd) opts s = program-run_program c opts s
  program-enter_directory c false (some cwd) opts s = refl

  program-child_calls :
      (c : Closing) (entered : Bool) (p : Pipes) (opts : SpawnOptions) (s : t.State)
      → program c (child_calls entered p opts) s ≡ (
          if entered || not (is_some opts.ctx.cwd)
          then some (t.exec (child_table t c p s))
          else none)
  unfolding child_calls program
  program-child_calls c entered p opts s =
      program-dup_read c p.stdin 0 _ s
      ∙ program-dup_write c p.stdout 1 _ _
      ∙ program-dup_write c p.stderr 2 _ _
      ∙ program-enter_session c opts.pgroup.isolated _ _
      ∙ program-enter_directory c entered opts.ctx.cwd opts _

  -- What the program finds open.
  pub record Given (p : Pipes) (s started : t.State) : Type 0 where
    pub stdin : t.file started 0 ≡ stream t (read_end p.stdin) 0 s
    pub stdout : t.file started 1 ≡ stream t (write_end p.stdout) 1 s
    pub stderr : t.file started 2 ≡ stream t (write_end p.stderr) 2 s
    pub rest : (k : ℕ) → 2 < k → k ≤ last_fd → t.file started k ≡ none

  pub Streams-Given :
      (p : Pipes) (s after : t.State) → Streams t p s after → Given p s (t.exec after)
  Streams-Given p s after g = record {
    stdin = Shows-exec t (read_end p.stdin) 0 s after g.stdin;
    stdout = Shows-exec t (write_end p.stdout) 1 s after g.stdout;
    stderr = Shows-exec t (write_end p.stderr) 2 s after g.stderr;
    rest = λ k above within. exec-none t after k (g.rest k above within);
  }

  pub child_calls-streams :
      (c : Closing) (entered : Bool) (p : Pipes) (opts : SpawnOptions) (s : t.State)
      → AreEnds t p s
      → Works t c none (redirected t p s)
      → (entered || not (is_some opts.ctx.cwd)) ≡ true
      → (started : t.State) × (program c (child_calls entered p opts) s ≡ some started)
        × Given p s started
  child_calls-streams c entered p opts s a w e = (
    t.exec (child_table t c p s),
    program-child_calls c entered p opts s ∙ rw (e) refl,
    Streams-Given p s _ (child_table-Streams t c p s a w),
  )
