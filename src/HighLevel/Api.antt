-- ===== src/HighLevel/Api.antt =====
-- high_level/api.rs: capabilities, and the commands that a client may ask for.
use core_shift.Base.{◌*◌, String, Bool, true, none, List}
use core_shift.Core.Types.{ExecSpec, ExecPolicy, CancelPolicy}
use core_shift.HighLevel.Android
use core_shift.HighLevel.Android.{AndroidExecRequest, ExecConfig}

pub record Capability : Type 0 where
  pub allow_cmd : Bool
  pub allow_dumpsys : Bool

unfoldable pub default : Capability
default = record { allow_cmd = true; allow_dumpsys = true }

pub data Command : Type 0 where
  cmd dumpsys : String → List String → Command

-- The tuple that both arms build of their request.
unfoldable pub split : AndroidExecRequest → ExecSpec × ExecPolicy
split req = (
  record {
    argv = req.argv;
    stdin = req.stdin;
    capture_stdout = req.capture_stdout;
    capture_stderr = req.capture_stderr;
    max_output = req.max_output;
  },
  record { timeout_ms = req.timeout_ms; kill_grace_ms = req.kill_grace_ms; cancel = req.cancel },
)

unfoldable pub map_to_exec : Command → ExecSpec × ExecPolicy
unfolding split Android.cmd Android.dumpsys
map_to_exec (Command.cmd service args) =
    let cfg : ExecConfig = record {
      timeout_ms = none;
      kill_grace_ms = 1000;
      cancel = CancelPolicy.graceful;
      max_output = 1024 * 1024;
    } in
    split (Android.cmd service args cfg)
map_to_exec (Command.dumpsys service args) =
    let cfg : ExecConfig = record {
      timeout_ms = none;
      kill_grace_ms = 1000;
      cancel = CancelPolicy.graceful;
      max_output = 4 * 1024 * 1024;
    } in
    split (Android.dumpsys service args cfg)
