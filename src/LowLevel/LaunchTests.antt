-- ===== src/LowLevel/LaunchTests.antt =====
-- Runs of the start of a process and of the wait for it (low_level/sys, low_level/spawn).
use core_shift.Base.{ℕ, ◌≡◌, refl, true, false, none, some, List, [], ◌∷◌, ◌++◌, ok, take, arith}
use mathlib.Core.Option.{map as map_option}
use core_shift.Base.Int.{pos}
use core_shift.LowLevel.Libc.{linux}
use core_shift.LowLevel.Sys
use core_shift.LowLevel.Sys.{default_group}
use core_shift.LowLevel.Exec.{ExecContext, get_argv_ptrs, get_envp_ptrs}
use core_shift.LowLevel.Exec.Tables.{pointers, get_argv_ptrs_truncated}
use core_shift.LowLevel.Io.Buffer
use core_shift.LowLevel.Io.Drain.{DrainState}
use core_shift.LowLevel.Io.Drain
use core_shift.LowLevel.Launch
use core_shift.LowLevel.Launch.{System, SpawnOptions, SpawnBackend, pipe, spawn_start}
use core_shift.LowLevel.Launch.Descriptors.{Accounted, in_list, spawn_start-Accounted}
use core_shift.LowLevel.Spawn.{StatusMacros, unchanged, changed, exited}
use core_shift.LowLevel.WaitLoop.{KillState, Options, target_is_group, sigterm, sigkill}
use core_shift.LowLevel.WaitLoop.Escalation.{Allowed}
use core_shift.LowLevel.WaitLoop.Loop.{Tick, Ready, Finished, Output, wait_loop}
use core_shift.LowLevel.WaitLoop.Signals.{wait_loop_escalates}
use core_shift.LowLevel.Synchronous.{Answers, spawn}
use core_shift.LowLevel.Synchronous.Unlimited.{spawn_captures_nothing, spawn_never_kills}

abbrev battery : ExecContext
battery = record { argv = "dumpsys" ∷ "battery" ∷ []; envp = some ("A=1" ∷ []); cwd = none }

get_argv_ptrs_truncated_example :
    (get_argv_ptrs battery ≡ take 63 (pointers battery.argv) ++ (none ∷ []))
    × (get_envp_ptrs battery
        ≡ map_option (λ envp. take 63 (pointers envp) ++ (none ∷ [])) battery.envp)
get_argv_ptrs_truncated_example = get_argv_ptrs_truncated battery

-- A process whose standard output and error stream are captured.
abbrev options : SpawnOptions
options = record {
  ctx = battery;
  stdin = none;
  capture_stdout = true;
  capture_stderr = true;
  wait = true;
  pgroup = default_group;
  max_output = 4096;
  timeout_ms = some 500;
  kill_grace_ms = 100;
  cancel = Sys.CancelPolicy.graceful;
  backend = SpawnBackend.auto;
  early_exit = none;
}

abbrev pub system : System
system = record {
  sdk = none;
  stdin_pipe = pipe 3 4;
  stdout_pipe = pipe 5 6;
  stderr_pipe = pipe 7 8;
  posix = λ op. 0;
  listing = some (record { dir_fd = 9; entries = some (0 ∷ 1 ∷ 2 ∷ 3 ∷ 9 ∷ []) });
  fork = none;
  pid = 500;
  set_nonblock = λ fd. ok tt;
}

-- The descriptor of the directory.
spawn_start-Accounted_example : Accounted 9 (spawn_start system 0 options)
spawn_start-Accounted_example = spawn_start-Accounted 9 system 0 options

directory_opened : in_list 9 (spawn_start system 0 options).opened ≡ 1
unfolding spawn_start Launch.resolve_backend Launch.force_fork Launch.select_backend
    Launch.spawn_posix_internal Launch.new_pipes Launch.pipe_if Launch.make_pipe Launch.posix_calls
    Launch.action_ops Launch.attribute_ops Launch.opened_directory Launch.closed_directory
    Launch.attach Drain.new
directory_opened = refl

abbrev pub exits_only : StatusMacros
exits_only = record {
  wifexited = λ s. true;
  wexitstatus = λ s. s;
  wifsignaled = λ s. false;
  wtermsig = λ s. pos 0;
}

-- The process exits long after its timeout, while the loop waits for it.
abbrev late : Tick
late = record {
  now = 1_000_000;
  killed = ok tt;
  waited = unchanged ∷ [];
  blocking = changed (pos 0) ∷ [];
  polled = λ timeout. ok [];
}

abbrev answers : Answers
answers = record {
  reactor = ok tt;
  system = system;
  epoll = λ fd. none;
  start = 0;
  first = unchanged ∷ [];
  ticks = late ∷ [];
}

abbrev given : Output
given = record {
  pid = 500;
  status = some (exited (pos 0));
  stdout = [];
  stderr = [];
  timed_out = false;
}

returned : spawn linux exits_only answers options ≡ some (ok given, [])
unfolding spawn core_shift.LowLevel.Launch.select_backend Buffer.new
returned = refl

spawn_captures_nothing_example : (given.stdout ≡ []) × (given.stderr ≡ [])
spawn_captures_nothing_example =
    spawn_captures_nothing linux exits_only answers options given [] returned

abbrev ended : Finished
ended = (ok given, [])

spawn_never_kills_example : ended.1 ≡ []
spawn_never_kills_example =
    spawn_never_kills linux exits_only answers options 500 ended refl (omega arith) returned

-- A drain whose standard output is read.
abbrev reading : DrainState
reading = record {
  stdout_slot = some (record { token = 9; fd = 5 });
  stderr_slot = none;
  stdin_slot = none;
  buffer = record { stdout = []; stderr = []; limit = 4096 };
  writer = record { buf = none; off = 0 };
  early_exit = none;
}

abbrev graceful : Options
graceful = record {
  deadline = some 500_000_000;
  kill_grace_ms = 100;
  cancel = Sys.CancelPolicy.graceful;
  isolated = false;
  leader = none;
}

-- A round at that time, at which the child still runs and the poll gives these events.
abbrev tick : ℕ → List Ready → Tick
tick now events = record {
  now = now;
  killed = ok tt;
  waited = unchanged ∷ [];
  blocking = changed (pos 9) ∷ [];
  polled = λ timeout. ok events;
}

-- The stream of token 9 is shut at the other end.
abbrev shut : Ready
shut = record {
  event = record { token = 9; readable = true; writable = true; error = true };
  source = record { pending = []; answers = [] };
  sink = record { written = []; answers = [] };
}

abbrev overdue : List Tick
overdue = tick 600_000_000 [] ∷ tick 800_000_000 (shut ∷ []) ∷ tick 810_000_000 [] ∷ []

abbrev killed : Finished
killed = (
  ok (record {
    pid = 500;
    status = some (exited (pos 9));
    stdout = [];
    stderr = [];
    timed_out = true;
  }),
  sigterm false ∷ sigkill false ∷ [],
)

waited : wait_loop linux exits_only graceful 500 reading (unchanged ∷ []) overdue ≡ some killed
unfolding wait_loop core_shift.LowLevel.Spawn.decode_status Buffer.into_parts
waited = refl

wait_loop_escalates_example :
    Allowed (target_is_group graceful) graceful.cancel KillState.not_sent killed.1
wait_loop_escalates_example =
    wait_loop_escalates linux exits_only graceful 500 reading (unchanged ∷ []) overdue killed waited
