-- ===== src/Runtime/Messages.antt =====
-- The texts that runtime.rs makes: of a log event, and of an error of the system.
use Prim.Native.String.{◌++◌ as append}
use core_shift.Base.{suc, String, Option, none, some}
use core_shift.Base.Int.{ℤ, pos, negsuc}
use core_shift.Base.Text.{to_string}
use core_shift.Core.Types.{LogEvent}
use core_shift.LowLevel.Libc.{SysError, syscall}

abbrev show_i32 : ℤ → String
show_i32 (pos n) = to_string n
show_i32 (negsuc n) = append "-" (to_string (suc n))

-- `{:?}` of an `Option<i32>`.
abbrev show_status : Option ℤ → String
show_status none = "None"
show_status (some status) = append "Some(" (append (show_i32 status) ")")

unfoldable pub message : LogEvent → String
unfolding to_string
message (LogEvent.submit id) = append "Submit id=" (to_string id)
message (LogEvent.spawn id pid) =
    append "Spawn id=" (append (to_string id) (append ", pid=" (show_i32 pid)))
message (LogEvent.cancel id) = append "Cancel id=" (to_string id)
message (LogEvent.force_kill id) = append "ForceKill id=" (to_string id)
message (LogEvent.exit id status) =
    append "Exit id=" (append (to_string id) (append ", status=" (show_status status)))
message (LogEvent.timeout id) = append "Timeout id=" (to_string id)
message (LogEvent.error id e) = append "Error id=" (append (to_string id) (append ", err=" e))

-- `{}` of a `SysError`.
unfoldable pub display : SysError → String
unfolding to_string
display (syscall code op) = append op (append " failed (code=" (append (to_string code) ")"))
