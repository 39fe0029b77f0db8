-- ===== src/LowLevel/Launch/Actions/Backends.antt =====
-- The file actions of spawn_posix_internal and the child of spawn_fork_internal
-- (low_level/spawn/mod.rs) side by side.
use core_shift.Base.{
  ℕ, zero, suc, ◌<◌, ◌≤◌, ◌≡◌, refl, ◌∙◌, sym, Bool, true, Option, none, some, not, ◌||◌, is_some,
  arith,
}
use core_shift.LowLevel.Launch.{Listing, SpawnOptions, Pipes}
use core_shift.LowLevel.Launch.Table.{Table}
use core_shift.LowLevel.Launch.Closing.{last_fd, Closing}
use core_shift.LowLevel.Launch.Closing.Complete.{Lists, Works}
use core_shift.LowLevel.Launch.Streams.{
  read_end, write_end, redirected, AreEnds, Same, Same-trans, Shows-Same, Streams,
}
use core_shift.LowLevel.Launch.Child.{child_calls}
use core_shift.LowLevel.Launch.Program.{program, Given, Streams-Given, child_calls-streams}
use core_shift.LowLevel.Launch.Actions.{
  stdin_actions, output_actions, open_actions, file_actions, perform,
}
use core_shift.LowLevel.Launch.Actions.Stages.{
  Separate, origin, low-Outside, perform-append, stdin_actions-Stage, output_actions-Stage,
  origin-Same, open_actions-Same, open_actions-closed,
}

module _ (t : Table) where
  file_actions-perform :
      (proc : Option Listing) (p : Pipes) (s : t.State)
      → perform t (file_actions proc p) s
        ≡ perform t (open_actions proc) (
            perform t
              (output_actions p.stderr 2)
              (perform t (output_actions p.stdout 1) (perform t (stdin_actions p.stdin) s)))
  unfolding file_actions
  file_actions-perform proc p s =
      perform-append t (stdin_actions p.stdin) _ s
      ∙ perform-append t (output_actions p.stdout 1) _ _
      ∙ perform-append t (output_actions p.stderr 2) _ _

  file_actions-Streams :
      (proc : Option Listing) (p : Pipes) (s : t.State)
      → AreEnds t p s
      → Separate p
      → Lists t s proc
      → Streams t p s (perform t (file_actions proc p) s)
  file_actions-Streams proc p s a d l =
      let g0 = stdin_actions-Stage t p.stdin d.stdin_above in
      let g1 = output_actions-Stage t p.stdout 1 (omega arith) d.stdout_above in
      let g2 = output_actions-Stage t p.stderr 2 (omega arith) d.stderr_above in
      let s1 = perform t (stdin_actions p.stdin) s in
      let s2 = perform t (output_actions p.stdout 1) s1 in
      let s3 = perform t (output_actions p.stderr 2) s2 in
      let s4 = perform t (open_actions proc) s3 in
      let last : (k : ℕ) → k ≤ 2 → Same t k s3 s4 = λ k h. open_actions-Same t proc s s3 k l h in
      let third : (k : ℕ) → k < 2 → Same t k s2 s4 = λ k h.
        Same-trans t k s2 s3 s4
          (g2.same k s2 (λ e. omega (arith, e))
            (low-Outside p.stderr k d.stderr_above (omega arith)))
          (last k (omega arith)) in
      let second : Same t 0 s1 s4 =
        Same-trans t 0 s1 s2 s4
          (g1.same 0 s1 (λ e. omega (arith, e))
            (low-Outside p.stdout 0 d.stdout_above (omega arith)))
          (third 0 (omega arith)) in
      let o1 = origin (write_end p.stdout) 1 in
      let o2 = origin (write_end p.stderr) 2 in
      let same1 : Same t o1 s s1 =
        origin-Same t p.stdin _ (write_end p.stdout) 0 1 _ s s g0 d.stdin_above d.stdin_stdout
          a.stdout_end (omega arith) (omega arith) in
      let same2 : Same t o2 s s2 =
        Same-trans t o2 s s1 s2
          (origin-Same t p.stdin _ (write_end p.stderr) 0 2 _ s s g0 d.stdin_above d.stdin_stderr
            a.stderr_end (omega arith) (omega arith))
          (origin-Same t p.stdout _ (write_end p.stderr) 1 2 _ s s1 g1 d.stdout_above
            d.stdout_stderr a.stderr_end (omega arith) (omega arith)) in
      rw (file_actions-perform) (record {
        stdin =
            Shows-Same t (read_end p.stdin) 0 s s1 s4 second
              (g0.shows s s a.stdin_end (record { file = refl; cloexec = refl }));
        stdout =
            Shows-Same t (write_end p.stdout) 1 s s2 s4 (third 1 (omega arith))
              (g1.shows s s1 a.stdout_end same1);
        stderr =
            Shows-Same t (write_end p.stderr) 2 s s3 s4 (last 2 (omega arith))
              (g2.shows s s2 a.stderr_end same2);
        rest = λ k above within.
            open_actions-closed t proc s s3 k l above
              (λ e. g2.closed k s2 above (g1.closed k s1 above (g0.closed k s above e)));
      })

  Given-agree :
      (p : Pipes) (s a b : t.State)
      → Given t p s a
      → Given t p s b
      → (k : ℕ) → k ≤ last_fd
      → t.file a k ≡ t.file b k
  Given-agree p s a b x y zero h = x.stdin ∙ sym y.stdin
  Given-agree p s a b x y (suc zero) h = x.stdout ∙ sym y.stdout
  Given-agree p s a b x y (suc (suc zero)) h = x.stderr ∙ sym y.stderr
  Given-agree p s a b x y (suc (suc (suc k))) h =
      x.rest (suc (suc (suc k))) (omega arith) h ∙ sym (y.rest (suc (suc (suc k))) (omega arith) h)

  -- Where the pipes' ends are open, all different and above the standard streams, the directory of
  -- open descriptors can be read, and the rest can be closed, a program that takes the parent's
  -- directory finds the same file at each descriptor whichever backend starts it.
  pub backends_agree :
      (c : Closing) (entered : Bool) (p : Pipes) (opts : SpawnOptions) (s : t.State)
      → AreEnds t p s
      → Separate p
      → Works t c none (redirected t p s)
      → Lists t s c.proc
      → (entered || not (is_some opts.ctx.cwd)) ≡ true
      → (started : t.State) × (program t c (child_calls entered p opts) s ≡ some started)
        × ((k : ℕ)
            → k ≤ last_fd
            → t.file started k ≡ t.file (t.exec (perform t (file_actions c.proc p) s)) k)
  backends_agree c entered p opts s a d w l e =
      let (started, runs, given) = child_calls-streams t c entered p opts s a w e in
      let posix = Streams-Given t p s _ (file_actions-Streams c.proc p s a d l) in
      (started, runs, Given-agree p s started _ given posix)
