-- ===== src/LowLevel/Launch/Child.antt =====
-- The child of spawn_fork_internal (low_level/spawn/mod.rs): the calls that it makes in turn. `pointers`
-- of the environment are none where the parent's environment is passed on.
use core_shift.Base.{
  ℕ, ◌+◌, String, Bool, true, false, Option, none, some, List, [], ◌∷◌, ◌++◌, ◌≡◌, refl, ◌∙◌, ◌==◌,
  ◌||◌, not, is_some, arith, if◌then◌else◌,
}
use core_shift.LowLevel.Exec.{get_argv_ptrs, get_envp_ptrs}
use core_shift.LowLevel.Launch.{SpawnOptions, Ends, Pipes}

pub data Call : Type 0 where
  dup2 : ℕ → ℕ → Call
  close_range setsid unblock_all reset_sigpipe : Call
  chdir : String → Call
  setpgid : ℕ → Call
  execve : List (Option String) → Option (List (Option String)) → Call
  exit : ℕ → Call

-- A pipe's end becomes a standard stream, unless it is that already.
unfoldable pub dup_read : Ends → ℕ → List Call
dup_read none target = []
dup_read (some (r, w)) target = if r == target then [] else dup2 r target ∷ []

unfoldable pub dup_write : Ends → ℕ → List Call
dup_write none target = []
dup_write (some (r, w)) target = if w == target then [] else dup2 w target ∷ []

unfoldable pub enter_session : Bool → List Call
enter_session true = setsid ∷ []
enter_session false = []

unfoldable pub enter_group : Option ℕ → List Call
enter_group none = []
enter_group (some pg) = setpgid pg ∷ []

-- From the process group on. `execve` comes back only if it fails.
unfoldable pub run_program : SpawnOptions → List Call
unfolding enter_group get_argv_ptrs get_envp_ptrs
run_program opts =
    enter_group opts.pgroup.leader
    ++ (unblock_all
        ∷ reset_sigpipe
        ∷ execve (get_argv_ptrs opts.ctx) (get_envp_ptrs opts.ctx)
        ∷ exit 127
        ∷ [])

-- `entered`: whether `chdir` succeeds.
unfoldable pub enter_directory : Bool → Option String → SpawnOptions → List Call
unfolding run_program
enter_directory entered none opts = run_program opts
enter_directory true (some cwd) opts = chdir cwd ∷ run_program opts
enter_directory false (some cwd) opts = chdir cwd ∷ exit 127 ∷ []

unfoldable pub child_calls : Bool → Pipes → SpawnOptions → List Call
unfolding dup_read dup_write enter_session enter_directory
child_calls entered p opts =
    dup_read p.stdin 0
    ++ (dup_write p.stdout 1
        ++ (dup_write p.stderr 2
            ++ (close_range ∷ enter_session opts.pgroup.isolated
                ++ enter_directory entered opts.ctx.cwd opts)))

-- How often a program is run.
abbrev pub execs : List Call → ℕ
execs [] = 0
execs (execve argv envp ∷ calls) = 1 + execs calls
execs (_ ∷ calls) = execs calls

execs-append : (xs ys : List Call) → execs (xs ++ ys) ≡ execs xs + execs ys
execs-append [] ys = omega arith
execs-append (dup2 a b ∷ xs) ys = execs-append xs ys
execs-append (close_range ∷ xs) ys = execs-append xs ys
execs-append (setsid ∷ xs) ys = execs-append xs ys
execs-append (unblock_all ∷ xs) ys = execs-append xs ys
execs-append (reset_sigpipe ∷ xs) ys = execs-append xs ys
execs-append (chdir s ∷ xs) ys = execs-append xs ys
execs-append (setpgid pg ∷ xs) ys = execs-append xs ys
execs-append (execve argv envp ∷ xs) ys = omega (arith, execs-append xs ys)
execs-append (exit code ∷ xs) ys = execs-append xs ys

execs-none : (xs ys : List Call) → execs xs ≡ 0 → execs (xs ++ ys) ≡ execs ys
execs-none xs ys e = omega (arith, execs-append xs ys)

dup_read-execs : (ends : Ends) (target : ℕ) → execs (dup_read ends target) ≡ 0
unfolding dup_read
dup_read-execs none target = refl
dup_read-execs (some (r, w)) target = ground arith

dup_write-execs : (ends : Ends) (target : ℕ) → execs (dup_write ends target) ≡ 0
unfolding dup_write
dup_write-execs none target = refl
dup_write-execs (some (r, w)) target = ground arith

enter_session-execs : (b : Bool) → execs (enter_session b) ≡ 0
unfolding enter_session
enter_session-execs true = refl
enter_session-execs false = refl

enter_group-execs : (g : Option ℕ) → execs (enter_group g) ≡ 0
unfolding enter_group
enter_group-execs none = refl
enter_group-execs (some pg) = refl

run_program-execs : (opts : SpawnOptions) → execs (run_program opts) ≡ 1
unfolding run_program
run_program-execs opts =
    omega
      (arith, execs-append (enter_group opts.pgroup.leader) _, enter_group-execs opts.pgroup.leader)

enter_directory-execs :
    (entered : Bool) (cwd : Option String) (opts : SpawnOptions)
    → execs (enter_directory entered cwd opts) ≡ (if entered || not (is_some cwd) then 1 else 0)
unfolding enter_directory
enter_directory-execs true none opts = run_program-execs opts
enter_directory-execs false none opts = run_program-execs opts
enter_directory-execs true (some cwd) opts = run_program-execs opts
enter_directory-execs false (some cwd) opts = refl

-- Where a directory is asked for that cannot be entered, the child runs no program, and otherwise it
-- tries one, once.
pub child_calls-execs :
    (entered : Bool) (p : Pipes) (opts : SpawnOptions)
    → execs (child_calls entered p opts) ≡ (if entered || not (is_some opts.ctx.cwd) then 1 else 0)
unfolding child_calls
child_calls-execs entered p opts =
    execs-none (dup_read p.stdin 0) _ (dup_read-execs p.stdin 0)
    ∙ execs-none (dup_write p.stdout 1) _ (dup_write-execs p.stdout 1)
    ∙ execs-none (dup_write p.stderr 2) _ (dup_write-execs p.stderr 2)
    ∙ execs-none (enter_session opts.pgroup.isolated) _ (enter_session-execs opts.pgroup.isolated)
    ∙ enter_directory-execs entered opts.ctx.cwd opts
