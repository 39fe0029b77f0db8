-- ===== src/LowLevel/Launch/Streams.antt =====
-- The standard streams of the child in low_level/spawn/mod.rs, on its table of descriptors: the
-- redirections of spawn_fork_internal, and what exec leaves.
use core_shift.Base.{
  ℕ, ◌<◌, ◌≤◌, ◌≡◌, ◌≢◌, refl, ◌∙◌, sym, Bool, true, false, Option, none, some, ◌==◌, arith, inl,
  inr, ◌⊎◌, Bool-cases, if◌then◌else◌,
}
use core_shift.LowLevel.Launch.Table.{Table}
use core_shift.LowLevel.Launch.Closing.{last_fd, Closing, close_range_fast}
use core_shift.LowLevel.Launch.Closing.Complete.{Works, Cleared, close_range_fast-Cleared}
use core_shift.LowLevel.Launch.{Ends, Pipes}

abbrev pub read_end : Ends → Option ℕ
read_end none = none
read_end (some (r, w)) = some r

abbrev pub write_end : Ends → Option ℕ
write_end none = none
write_end (some (r, w)) = some w

if-same {ℓ} : {A : Type ℓ} (b : Bool) (x : A) → (if b then x else x) ≡ x
if-same true x = refl
if-same false x = refl

module _ (t : Table) where
  abbrev pub redirect : Option ℕ → ℕ → t.State → t.State
  redirect none target s = s
  redirect (some fd) target s = if fd == target then s else t.dup2 s fd target

  abbrev pub redirected : Pipes → t.State → t.State
  redirected p s =
      redirect (write_end p.stderr) 2
        (redirect (write_end p.stdout) 1 (redirect (read_end p.stdin) 0 s))

  -- A stream of the program: the pipe's end, or what the parent has there and does not close.
  abbrev pub stream : Option ℕ → ℕ → t.State → Option t.File
  stream none target s = t.file (t.exec s) target
  stream (some fd) target s = t.file s fd

  -- A pipe's end is open, and is none of the standard streams.
  abbrev pub IsEnd : Option ℕ → t.State → Type 0
  IsEnd none s = Unit {0}
  IsEnd (some fd) s = (2 < fd) × ((f : t.File) × (t.file s fd ≡ some f))

  pub record AreEnds (p : Pipes) (s : t.State) : Type 0 where
    pub stdin_end : IsEnd (read_end p.stdin) s
    pub stdout_end : IsEnd (write_end p.stdout) s
    pub stderr_end : IsEnd (write_end p.stderr) s

  -- `target` in `after` is what it should be, and whether exec closes it too.
  abbrev pub Shows : Option ℕ → ℕ → t.State → t.State → Type 0
  Shows none target s after =
      (t.file after target ≡ t.file s target)
      × ((t.file s target ≡ none) ⊎ (t.cloexec after target ≡ t.cloexec s target))
  Shows (some fd) target s after =
      (t.file after target ≡ t.file s fd) × (t.cloexec after target ≡ false)

  pub exec-none : (s : t.State) (k : ℕ) → t.file s k ≡ none → t.file (t.exec s) k ≡ none
  exec-none s k n = t.file-exec s k ∙ rw (n) (if-same (t.cloexec s k) none)

  pub Shows-exec :
      (o : Option ℕ) (target : ℕ) (s after : t.State)
      → Shows o target s after
      → t.file (t.exec after) target ≡ stream o target s
  Shows-exec none target s after (e, inl n) =
      exec-none after target (e ∙ n) ∙ sym (exec-none s target n)
  Shows-exec none target s after (e, inr f) =
      t.file-exec after target ∙ rw (e, f) (sym (t.file-exec s target))
  Shows-exec (some fd) target s after (e, f) = t.file-exec after target ∙ rw (e, f) refl

  -- What leaves a descriptor alone leaves a stream alone.
  pub record Same (k : ℕ) (s after : t.State) : Type 0 where
    pub file : t.file after k ≡ t.file s k
    pub cloexec : t.cloexec after k ≡ t.cloexec s k

  pub Shows-Same :
      (o : Option ℕ) (target : ℕ) (s mid after : t.State)
      → Same target mid after
      → Shows o target s mid
      → Shows o target s after
  Shows-Same none target s mid after m (e, inl n) = (m.file ∙ e, inl n)
  Shows-Same none target s mid after m (e, inr f) = (m.file ∙ e, inr (m.cloexec ∙ f))
  Shows-Same (some fd) target s mid after m (e, f) = (m.file ∙ e, m.cloexec ∙ f)

  redirect-Same :
      (o : Option ℕ) (target k : ℕ) (s : t.State) → target ≢ k → Same k s (redirect o target s)
  redirect-Same none target k s ne = record { file = refl; cloexec = refl }
  redirect-Same (some fd) target k s ne = elim (Bool-cases (fd == target)) [
    | inl e ↦ rw (e) (record { file = refl; cloexec = refl })
    | inr e ↦ rw (e) (record {
      file = t.file-dup2_ne s fd target k ne;
      cloexec = t.cloexec-dup2_ne s fd target k ne;
    })
  ]

  redirect-Shows :
      (o : Option ℕ) (target : ℕ) (s mid : t.State)
      → target ≤ 2
      → IsEnd o s
      → ((k : ℕ) → target ≤ k → Same k s mid)
      → Shows o target s (redirect o target mid)
  redirect-Shows none target s mid l i same =
      let m = same target (omega arith) in (m.file, inr m.cloexec)
  redirect-Shows (some fd) target s mid l (above, (f, e)) same =
      let differs : (fd == target) ≡ false = ground arith in
      let ne : fd ≢ target = λ q. omega (arith, q) in
      rw (differs) (
        t.file-dup2 mid fd target f ((same fd (omega arith)).file ∙ e) ∙ sym e,
        t.cloexec-dup2 mid fd target f ne ((same fd (omega arith)).file ∙ e),
      )

  -- The streams of the program, and nothing else open.
  pub record Streams (p : Pipes) (s after : t.State) : Type 0 where
    pub stdin : Shows (read_end p.stdin) 0 s after
    pub stdout : Shows (write_end p.stdout) 1 s after
    pub stderr : Shows (write_end p.stderr) 2 s after
    pub rest : (k : ℕ) → 2 < k → k ≤ last_fd → t.file after k ≡ none

  pub Same-trans :
      (k : ℕ) (s mid after : t.State) → Same k s mid → Same k mid after → Same k s after
  Same-trans k s mid after a b = record { file = b.file ∙ a.file; cloexec = b.cloexec ∙ a.cloexec }

  redirected-Shows :
      (p : Pipes) (s : t.State)
      → AreEnds p s
      → Shows (read_end p.stdin) 0 s (redirected p s)
        × Shows (write_end p.stdout) 1 s (redirected p s)
        × Shows (write_end p.stderr) 2 s (redirected p s)
  redirected-Shows p s a =
      let i = read_end p.stdin in
      let o = write_end p.stdout in
      let e = write_end p.stderr in
      let s1 = redirect i 0 s in
      let s2 = redirect o 1 s1 in
      let s3 = redirect e 2 s2 in
      let first : (k : ℕ) → 1 ≤ k → Same k s s1 =
        λ k l. redirect-Same i 0 k s (λ q. omega (arith, q)) in
      let second : (k : ℕ) → 2 ≤ k → Same k s s2 = λ k l.
        Same-trans k s s1 s2 (first k (omega arith))
          (redirect-Same o 1 k s1 (λ q. omega (arith, q))) in
      let zero_one = redirect-Same o 1 0 s1 (λ q. omega (arith, q)) in
      let zero_two = redirect-Same e 2 0 s2 (λ q. omega (arith, q)) in
      let one_two = redirect-Same e 2 1 s2 (λ q. omega (arith, q)) in
      (
        Shows-Same i 0 s s1 s3 (Same-trans 0 s1 s2 s3 zero_one zero_two) (
            redirect-Shows i 0 s s (omega arith) a.stdin_end
              (λ k l. record { file = refl; cloexec = refl })),
        Shows-Same o 1 s s2 s3 one_two (redirect-Shows o 1 s s1 (omega arith) a.stdout_end first),
        redirect-Shows e 2 s s2 (omega arith) a.stderr_end second,
      )

  -- Clearing the rest leaves the streams.
  Shows-Cleared :
      (o : Option ℕ) (target : ℕ) (s mid after : t.State)
      → target ≤ 2
      → IsEnd o s
      → Cleared t none mid after
      → Shows o target s mid
      → Shows o target s after
  Shows-Cleared none target s mid after l i d (e, x) = (
    d.spared target (inl l) ∙ e,
    elim (d.flags target (inl l)) [
      | inl n ↦ inl (sym e ∙ n)
      | inr f ↦ elim x [ inl n ↦ inl n | inr g ↦ inr (f ∙ g) ]
    ],
  )
  Shows-Cleared (some fd) target s mid after l (above, (f, i)) d (e, x) =
      (d.spared target (inl l) ∙ e, elim (d.flags target (inl l)) [ inl n ↦ cc | inr y ↦ y ∙ x ])

  -- `close_range_fast(None)` once the streams are redirected.
  abbrev pub child_table : Closing → Pipes → t.State → t.State
  child_table c p s = close_range_fast t c none (redirected p s)

  pub child_table-Streams :
      (c : Closing) (p : Pipes) (s : t.State)
      → AreEnds p s
      → Works t c none (redirected p s)
      → Streams p s (child_table c p s)
  child_table-Streams c p s a w =
      let d = close_range_fast-Cleared t c none (redirected p s) (λ fd e. cc) w in
      let (i, o, e) = redirected-Shows p s a in
      record {
        stdin = Shows-Cleared (read_end p.stdin) 0 s _ _ (omega arith) a.stdin_end d i;
        stdout = Shows-Cleared (write_end p.stdout) 1 s _ _ (omega arith) a.stdout_end d o;
        stderr = Shows-Cleared (write_end p.stderr) 2 s _ _ (omega arith) a.stderr_end d e;
        rest = λ k above within. d.gone k above within refl;
      }
