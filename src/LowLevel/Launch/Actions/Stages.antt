-- ===== src/LowLevel/Launch/Actions/Stages.antt =====
-- The file actions of spawn_posix_internal (low_level/spawn/mod.rs), pipe by pipe.
use core_shift.Base.{
  ℕ, ◌<◌, ◌≤◌, ◌≡◌, ◌≢◌, refl, ◌∙◌, sym, Option, none, some, List, [], ◌∷◌, ◌++◌, not, ◌&&◌, ◌==◌,
  ltb, arith, inl, inr, ◌⊎◌, Bool-cases,
}
use native.Mathlib.Decide.{ℕ_discrete}
use core_shift.LowLevel.Launch.{Listing, Ends, Pipes}
use core_shift.LowLevel.Launch.Table.{Table}
use core_shift.LowLevel.Launch.Closing.{close_listed}
use core_shift.LowLevel.Launch.Closing.Complete.{
  In, Lists, close_listed-kept, close_listed-closed, spared-picked,
}
use core_shift.LowLevel.Launch.Streams.{read_end, write_end, IsEnd, Shows, Same}
use core_shift.LowLevel.Launch.Actions.{
  Action, adddup2, addclose, end_actions, stdin_actions, output_actions, listed_actions,
  open_actions, perform,
}

-- Both ends of a pipe are above the standard streams.
abbrev pub Above : Ends → Type 0
Above none = Unit {0}
Above (some (r, w)) = (2 < r) × (2 < w)

-- A descriptor is none of a pipe's ends.
abbrev pub Outside : Ends → ℕ → Type 0
Outside none k = Unit {0}
Outside (some (r, w)) k = (r ≢ k) × (w ≢ k)

abbrev pub Apart : Ends → Option ℕ → Type 0
Apart ends none = Unit {0}
Apart ends (some fd) = Outside ends fd

-- The pipes of one start: their ends are different descriptors.
pub record Separate (p : Pipes) : Type 0 where
  pub stdin_above : Above p.stdin
  pub stdout_above : Above p.stdout
  pub stderr_above : Above p.stderr
  pub stdin_stdout : Apart p.stdin (write_end p.stdout)
  pub stdin_stderr : Apart p.stdin (write_end p.stderr)
  pub stdout_stderr : Apart p.stdout (write_end p.stderr)

-- Where a stream comes from.
abbrev pub origin : Option ℕ → ℕ → ℕ
origin none target = target
origin (some fd) target = fd

pub low-Outside : (ends : Ends) (k : ℕ) → Above ends → k ≤ 2 → Outside ends k
low-Outside none k a l = tt
low-Outside (some (r, w)) k (a, b) l = (λ e. omega (arith, e), λ e. omega (arith, e))

module _ (t : Table) where
  pub perform-append :
      (xs ys : List Action) (s : t.State) → perform t (xs ++ ys) s ≡ perform t ys (perform t xs s)
  unfolding perform
  perform-append [] ys s = refl
  perform-append (adddup2 a b ∷ xs) ys s = perform-append xs ys (t.dup2 s a b)
  perform-append (addclose a ∷ xs) ys s = perform-append xs ys (t.close s a)

  close-none : (s : t.State) (j k : ℕ) → t.file s k ≡ none → t.file (t.close s j) k ≡ none
  close-none s j k e = elim (ℕ_discrete j k) [
    | yes q ↦ rw (q) (t.file-close s k)
    | no ne ↦ t.file-close_ne s j k ne ∙ e
  ]

  -- One pipe's three actions.
  end_actions-Same :
      (fd other target k : ℕ) (s : t.State)
      → fd ≢ k
      → other ≢ k
      → target ≢ k
      → Same t k s (perform t (end_actions fd other target) s)
  unfolding perform
  end_actions-Same fd other target k s a b c = record {
    file = t.file-close_ne _ other k b ∙ t.file-close_ne _ fd k a ∙ t.file-dup2_ne s fd target k c;
    cloexec =
        t.cloexec-close_ne _ other k b
        ∙ t.cloexec-close_ne _ fd k a
        ∙ t.cloexec-dup2_ne s fd target k c;
  }

  end_actions-none :
      (fd other target k : ℕ) (s : t.State)
      → target ≤ 2
      → 2 < k
      → t.file s k ≡ none
      → t.file (perform t (end_actions fd other target) s) k ≡ none
  unfolding perform
  end_actions-none fd other target k s l above e =
      close-none _ other k
        (close-none _ fd k (t.file-dup2_ne s fd target k (λ q. omega (arith, q)) ∙ e))

  end_actions-Shows :
      (fd other target : ℕ) (s mid : t.State)
      → target ≤ 2
      → 2 < fd
      → 2 < other
      → (f : t.File) → t.file s fd ≡ some f
      → Same t fd s mid
      → Shows t (some fd) target s (perform t (end_actions fd other target) mid)
  unfolding perform
  end_actions-Shows fd other target s mid l a b f e same =
      let ne1 : other ≢ target = λ q. omega (arith, q) in
      let ne2 : fd ≢ target = λ q. omega (arith, q) in
      (
        t.file-close_ne _ other target ne1
            ∙ t.file-close_ne _ fd target ne2
            ∙ t.file-dup2 mid fd target f (same.file ∙ e)
            ∙ sym e,
        t.cloexec-close_ne _ other target ne1
            ∙ t.cloexec-close_ne _ fd target ne2
            ∙ t.cloexec-dup2 mid fd target f ne2 (same.file ∙ e),
      )

  -- The actions for what is listed close it as close_range_fast's own loop does.
  listed_actions-perform :
      (dir_fd : ℕ) (entries : List ℕ) (s : t.State)
      → perform t (listed_actions dir_fd entries) s ≡ close_listed t none dir_fd entries s
  unfolding perform listed_actions close_listed
  listed_actions-perform dir_fd [] s = refl
  listed_actions-perform dir_fd (fd ∷ entries) s =
      elim (Bool-cases (ltb 2 fd && not (fd == dir_fd))) [
        | inl e ↦ rw (e) (listed_actions-perform dir_fd entries (t.close s fd))
        | inr e ↦ rw (e) (listed_actions-perform dir_fd entries s)
      ]

  -- What one pipe's actions do.
  pub record Stage (ends : Ends) (o : Option ℕ) (target : ℕ) (actions : List Action) : Type 0 where
    pub same :
        (k : ℕ) (s : t.State) → target ≢ k → Outside ends k → Same t k s (perform t actions s)
    pub closed :
        (k : ℕ) (s : t.State) → 2 < k → t.file s k ≡ none → t.file (perform t actions s) k ≡ none
    pub shows :
        (s mid : t.State)
        → IsEnd t o s
        → Same t (origin o target) s mid
        → Shows t o target s (perform t actions mid)

  no_actions-Stage : (target : ℕ) → Stage none none target []
  unfolding perform
  no_actions-Stage target = record {
    same = λ k s ne out. record { file = refl; cloexec = refl };
    closed = λ k s above e. e;
    shows = λ s mid i m. (m.file, inr m.cloexec);
  }

  pub stdin_actions-Stage :
      (ends : Ends) → Above ends → Stage ends (read_end ends) 0 (stdin_actions ends)
  unfolding stdin_actions
  stdin_actions-Stage none a = no_actions-Stage 0
  stdin_actions-Stage (some (r, w)) (a, b) = record {
    same = λ k s ne out. end_actions-Same r w 0 k s out.0 out.1 ne;
    closed = λ k s above e. end_actions-none r w 0 k s (omega arith) above e;
    shows = λ s mid i m. end_actions-Shows r w 0 s mid (omega arith) a b i.1.0 i.1.1 m;
  }

  pub output_actions-Stage :
      (ends : Ends) (target : ℕ)
      → target ≤ 2
      → Above ends
      → Stage ends (write_end ends) target (output_actions ends target)
  unfolding output_actions
  output_actions-Stage none target l a = no_actions-Stage target
  output_actions-Stage (some (r, w)) target l (a, b) = record {
    same = λ k s ne out. end_actions-Same w r target k s out.1 out.0 ne;
    closed = λ k s above e. end_actions-none w r target k s l above e;
    shows = λ s mid i m. end_actions-Shows w r target s mid l b a i.1.0 i.1.1 m;
  }

  -- A stream's origin is not touched for an earlier stream.
  pub origin-Same :
      (ends : Ends) (o o2 : Option ℕ) (target target2 : ℕ) (actions : List Action) (s mid : t.State)
      → Stage ends o target actions
      → Above ends
      → Apart ends o2
      → IsEnd t o2 s
      → target < target2
      → target2 ≤ 2
      → Same t (origin o2 target2) mid (perform t actions mid)
  origin-Same ends o none target target2 actions s mid g a q i l h =
      g.same target2 mid (λ e. omega (arith, e)) (low-Outside ends target2 a h)
  origin-Same ends o (some fd) target target2 actions s mid g a q (above, i) l h =
      g.same fd mid (λ e. omega (arith, e)) q

  -- The listed descriptors, once the pipes are done.
  pub open_actions-Same :
      (proc : Option Listing) (s mid : t.State) (k : ℕ)
      → Lists t s proc
      → k ≤ 2
      → Same t k mid (perform t (open_actions proc) mid)
  unfolding open_actions
  open_actions-Same proc s mid k l h =
      let (f, x) =
        close_listed-kept t none l.dir_fd l.entries mid k
          (spared-picked t none l.dir_fd k (inl h)) in
      rw (l.is_listed, open_actions, listed_actions-perform) (record { file = f; cloexec = x })

  pub open_actions-closed :
      (proc : Option Listing) (s mid : t.State) (k : ℕ)
      → Lists t s proc
      → 2 < k
      → (t.file s k ≡ none → t.file mid k ≡ none)
      → t.file (perform t (open_actions proc) mid) k ≡ none
  unfolding open_actions
  open_actions-closed proc s mid k l above kept =
      rw (l.is_listed, open_actions, listed_actions-perform)
        (elim (ℕ_discrete k l.dir_fd) [
          | yes e ↦
              (close_listed-kept t none l.dir_fd l.entries mid k (ground (arith, e))).0
              ∙ kept (rw (e) l.fresh)
          | no ne ↦
              close_listed-closed t none l.dir_fd l.entries mid k (shift (l.complete k))
                (ground arith)
        ])
    where
      shift : (t.file s k ≡ none) ⊎ In k l.entries → (t.file mid k ≡ none) ⊎ In k l.entries
      shift (inl e) = inl (kept e)
      shift (inr i) = inr i
