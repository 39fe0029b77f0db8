-- ===== src/LowLevel/Launch.antt =====
-- spawn_start of low_level/spawn/mod.rs: the choice of the backend, the pipes, the directory of open
-- descriptors, and both backends as
-- the parent sees them. What the system answers is an argument. A descriptor is a number, and what is
-- opened and closed in the parent is recorded; a descriptor that goes out of scope is closed.
pub mod Descriptors
pub mod Child
pub mod Table
pub mod Closing
pub mod Streams
pub mod Program
pub mod Actions
pub mod Attributes
use core_shift.Base.{
  ℕ, String, Bool, true, false, Option, none, some, List, [], ◌∷◌, ◌++◌, Result, ok, err, ltb, ◌==◌,
  ◌||◌, is_some, if◌then◌else◌,
}
use core_shift.LowLevel.Libc.{SysError, syscall}
use core_shift.LowLevel.Sys.{ProcessGroup}
use core_shift.LowLevel.Sys
use core_shift.LowLevel.Exec.{ExecContext}
use core_shift.LowLevel.Io.Buffer.{EarlyExit}
use core_shift.LowLevel.Io.Drain
use core_shift.LowLevel.Io.Drain.{DrainState, used_stdin}

pub data SpawnBackend : Type 0 where
  auto posix_spawn fork : SpawnBackend

pub record SpawnOptions : Type 0 where
  pub ctx : ExecContext
  pub stdin : Option (List ℕ)
  pub capture_stdout : Bool
  pub capture_stderr : Bool
  pub wait : Bool
  pub pgroup : ProcessGroup
  pub max_output : ℕ
  pub timeout_ms : Option ℕ
  pub kill_grace_ms : ℕ
  pub cancel : Sys.CancelPolicy
  pub backend : SpawnBackend
  pub early_exit : EarlyExit

pub data Backend : Type 0 where
  posix_spawn fork : Backend

-- `pipe2`: the end to read and the end to write, or an error.
pub data Piped : Type 0 where
  pipe : ℕ → ℕ → Piped
  failed : ℕ → Piped

-- What opening /proc/self/fd gives: the directory's descriptor, and the numbers in it if it can be
-- read.
pub record Listing : Type 0 where
  pub dir_fd : ℕ
  pub entries : Option (List ℕ)

-- The answers to the calls of one start. `sdk` is the API level that the property gives on Android;
-- `posix` is what each of the posix calls returns, by the name that the code gives it; `listing` is
-- none where /proc/self/fd cannot be opened.
pub record System : Type 0 where
  pub sdk : Option ℕ
  pub stdin_pipe : Piped
  pub stdout_pipe : Piped
  pub stderr_pipe : Piped
  pub posix : String → ℕ
  pub listing : Option Listing
  pub fork : Option ℕ
  pub pid : ℕ
  pub set_nonblock : ℕ → Result (Unit {0}) SysError

unfoldable pub select_backend : System → Backend
select_backend sys = elim sys.sdk [
  | none ↦ Backend.posix_spawn
  | some api ↦ if ltb api 32 then Backend.fork else Backend.posix_spawn
]

unfoldable pub force_fork : SpawnOptions → Bool
force_fork opts = opts.pgroup.isolated || is_some opts.ctx.cwd

abbrev pub chosen : System → SpawnBackend → Backend
chosen sys SpawnBackend.auto = select_backend sys
chosen sys SpawnBackend.posix_spawn = Backend.posix_spawn
chosen sys SpawnBackend.fork = Backend.fork

unfoldable pub resolve_backend : System → SpawnOptions → Backend
unfolding force_fork
resolve_backend sys opts = if force_fork opts then Backend.fork else chosen sys opts.backend

-- The ends of a pipe, to read and to write.
abbrev pub Ends : Type 0
Ends = Option (ℕ × ℕ)

pub record Pipes : Type 0 where
  pub stdin : Ends
  pub stdout : Ends
  pub stderr : Ends

abbrev pub reading : Ends → List ℕ
reading none = []
reading (some (r, w)) = r ∷ []

abbrev pub writing : Ends → List ℕ
writing none = []
writing (some (r, w)) = w ∷ []

abbrev pub both : Ends → List ℕ
both none = []
both (some (r, w)) = r ∷ w ∷ []

unfoldable pub make_pipe : Piped → Result (ℕ × ℕ) SysError
make_pipe (pipe r w) = ok (r, w)
make_pipe (failed e) = err (syscall e "pipe2")

unfoldable pub pipe_if : Bool → Piped → Result Ends SysError
unfolding make_pipe
pipe_if false p = ok none
pipe_if true p = elim (make_pipe p) [ err e ↦ err e | ok ends ↦ ok (some ends) ]

-- What has been opened and closed in the parent, and the result.
pub record Outcome (R : Type 0) : Type 0 where
  pub result : Result R SysError
  pub opened : List ℕ
  pub closed : List ℕ

-- The pipes that are there already are closed when a later one fails.
unfoldable pub new_pipes : System → Option (List ℕ) → Bool → Bool → Outcome Pipes
unfolding pipe_if
new_pipes sys in_buf out error = elim (pipe_if (is_some in_buf) sys.stdin_pipe) [
  | err e ↦ record { result = err e; opened = []; closed = [] }
  | ok stdin ↦ elim (pipe_if out sys.stdout_pipe) [
    | err e ↦ record { result = err e; opened = both stdin; closed = both stdin }
    | ok stdout ↦ elim (pipe_if error sys.stderr_pipe) [
      | err e ↦ record {
        result = err e;
        opened = both stdin ++ both stdout;
        closed = both stdin ++ both stdout;
      }
      | ok stderr ↦ record {
        result = ok (record { stdin = stdin; stdout = stdout; stderr = stderr });
        opened = both stdin ++ (both stdout ++ both stderr);
        closed = [];
      }
    ]
  ]
]

unfoldable pub close_all : Pipes → List ℕ
close_all p = both p.stdin ++ (both p.stdout ++ both p.stderr)

-- `posix_ret` of the calls in turn, up to the first that fails.
unfoldable pub posix_calls : (String → ℕ) → List String → Result (Unit {0}) SysError
posix_calls answer [] = ok tt
posix_calls answer (op ∷ ops) =
    let rest = posix_calls answer ops in
    if answer op == 0 then rest else err (syscall (answer op) op)

abbrev when : Bool → List String → List String
when true ops = ops
when false ops = []

-- The calls of the posix backend whose failure is looked at: those before the list of open
-- descriptors, and those after it.
unfoldable pub action_ops : Pipes → List String
action_ops p =
    "file_actions_init"
      ∷ when (is_some p.stdin) ("dup2 stdin" ∷ "close stdin pipe" ∷ "close stdin write pipe" ∷ [])
    ++ when (is_some p.stdout) ("dup2 stdout" ∷ "close stdout pipe" ∷ "close stdout read pipe" ∷ [])
    ++ when (is_some p.stderr) ("dup2 stderr" ∷ "close stderr pipe" ∷ "close stderr read pipe" ∷ [])

unfoldable pub attribute_ops : ProcessGroup → List String
attribute_ops g =
    ("attr_init" ∷ [])
    ++ when (is_some g.leader) ("setpgroup" ∷ [])
    ++ ("setflags" ∷ "setsigmask" ∷ "setsigdefault" ∷ "posix_spawn" ∷ [])

-- A child that runs, with its drain.
abbrev pub Running : Type 0
Running = ℕ × DrainState

abbrev pub end_of : List ℕ → Option ℕ
end_of [] = none
end_of (d ∷ ds) = some d

-- `pipes.stdin_w.take().and_then(…)`.
abbrev pub stdin_end : Ends → Option (List ℕ) → Option ℕ
stdin_end ends none = none
stdin_end ends (some buf) = end_of (writing ends)

-- What `and_then` and `DrainState::new` drop of the end to write.
abbrev pub unused : List ℕ → Option ℕ → List ℕ
unused ds none = ds
unused ds (some d) = []

abbrev pub all_ends : Pipes → List ℕ
all_ends p = both p.stdin ++ (both p.stdout ++ both p.stderr)

-- The parent's ends go to the drain, which closes them if it cannot be made; the child's are closed.
abbrev pub adopt : ℕ → Pipes → Option ℕ → Result DrainState SysError → Outcome Running
adopt pid p used (err e) = record {
  result = err e;
  opened = all_ends p;
  closed =
      (reading p.stdin ++ (writing p.stdout ++ writing p.stderr))
      ++ (writing p.stdin ++ (reading p.stdout ++ reading p.stderr));
}
adopt pid p used (ok drain) = record {
  result = ok (pid, drain);
  opened = all_ends p;
  closed =
      (reading p.stdin ++ (writing p.stdout ++ writing p.stderr)) ++ unused (writing p.stdin) used;
}

-- The parent after the start, in both backends.
unfoldable pub attach : System → ℕ → SpawnOptions → Pipes → Outcome Running
unfolding Drain.new
attach sys job_id opts p =
    let stdin_fd = stdin_end p.stdin opts.stdin in
    adopt sys.pid p (used_stdin stdin_fd opts.stdin) (
      Drain.new sys.set_nonblock job_id stdin_fd opts.stdin (end_of (reading p.stdout))
        (end_of (reading p.stderr)) opts.max_output opts.early_exit)

-- An error once the pipes are there.
abbrev pub given_up : Pipes → SysError → Outcome Running
given_up p e = record { result = err e; opened = all_ends p; closed = close_all p }

-- `Pipes::new(…)?`.
abbrev pub with_pipes :
    Result Pipes SysError → Outcome Pipes → (Pipes → Outcome Running) → Outcome Running
with_pipes (err e) pipes go_on = record {
  result = err e;
  opened = pipes.opened;
  closed = pipes.closed;
}
with_pipes (ok p) pipes go_on = go_on p

-- The directory of open descriptors, which is closed once it has been gone through, or at once if it
-- cannot be.
unfoldable pub opened_directory : Option Listing → List ℕ
opened_directory none = []
opened_directory (some l) = l.dir_fd ∷ []

unfoldable pub closed_directory : Option Listing → List ℕ
closed_directory none = []
closed_directory (some l) = elim l.entries [ none ↦ l.dir_fd ∷ [] | some entries ↦ l.dir_fd ∷ [] ]

abbrev pub with_directory : Option Listing → Outcome Running → Outcome Running
with_directory listing o = record {
  result = o.result;
  opened = opened_directory listing ++ o.opened;
  closed = closed_directory listing ++ o.closed;
}

-- From the calls for the attributes on.
abbrev pub with_attributes :
    System → ℕ → SpawnOptions → Pipes → Result (Unit {0}) SysError → Outcome Running
with_attributes sys job_id opts p (err e) = given_up p e
with_attributes sys job_id opts p (ok _) = attach sys job_id opts p

-- From the list of open descriptors on.
abbrev pub with_actions :
    System → ℕ → SpawnOptions → Pipes → Result (Unit {0}) SysError → Outcome Running
with_actions sys job_id opts p (err e) = given_up p e
with_actions sys job_id opts p (ok _) =
    with_directory sys.listing
      (with_attributes sys job_id opts p (posix_calls sys.posix (attribute_ops opts.pgroup)))

unfoldable pub spawn_posix_internal : System → ℕ → SpawnOptions → Outcome Running
unfolding new_pipes attach posix_calls action_ops attribute_ops close_all opened_directory
    closed_directory
spawn_posix_internal sys job_id opts =
    let pipes = new_pipes sys opts.stdin opts.capture_stdout opts.capture_stderr in
    with_pipes pipes.result pipes
      (λ p. with_actions sys job_id opts p (posix_calls sys.posix (action_ops p)))

-- `fork`: none, or its error.
unfoldable pub spawn_fork_internal : System → ℕ → SpawnOptions → Outcome Running
unfolding new_pipes attach close_all
spawn_fork_internal sys job_id opts =
    let pipes = new_pipes sys opts.stdin opts.capture_stdout opts.capture_stderr in
    with_pipes pipes.result pipes (λ p. elim sys.fork [
      | some e ↦ given_up p (syscall e "fork")
      | none ↦ attach sys job_id opts p
    ])

abbrev pub by_backend : System → ℕ → SpawnOptions → Backend → Outcome Running
by_backend sys job_id opts Backend.posix_spawn = spawn_posix_internal sys job_id opts
by_backend sys job_id opts Backend.fork = spawn_fork_internal sys job_id opts

unfoldable pub spawn_start : System → ℕ → SpawnOptions → Outcome Running
unfolding resolve_backend spawn_posix_internal spawn_fork_internal
spawn_start sys job_id opts = by_backend sys job_id opts (resolve_backend sys opts)
