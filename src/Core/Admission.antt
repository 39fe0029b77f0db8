-- ===== src/Core/Admission.antt =====
-- core/policy.rs: AdmissionControlModule, which gates submissions by the number of active jobs.
use Prim.Native.String.{◌++◌ as concat}
use core_shift.Base.{ℕ, ◌+◌, ◌-◌, List, [], ◌∷◌, ltb, leb, if◌then◌else◌}
use core_shift.Base.Text.{to_string}
use core_shift.Core.Types.{Action, Event, LogLevel, LogEvent}

pub record AdmissionControlModule : Type 0 where
  pub max_jobs : ℕ
  pub active_jobs : ℕ

unfoldable pub default : AdmissionControlModule
default = record { max_jobs = 64; active_jobs = 0 }

unfoldable pub handle : AdmissionControlModule → Action → AdmissionControlModule × List Action
handle m (Action.submit id owner exec policy) =
    if leb m.max_jobs m.active_jobs
    then (
      m,
      Action.rejected id
          ∷ Action.emit_log LogLevel.error
              (LogEvent.error id (concat "max_jobs " (concat (to_string m.max_jobs) " reached")))
          ∷ [],
    )
    else (record m { active_jobs = m.active_jobs + 1 }, Action.admitted id owner exec policy ∷ [])
handle m (Action.finished id result) =
    if ltb 0 m.active_jobs then (record m { active_jobs = m.active_jobs - 1 }, []) else (m, [])
handle m _ = (m, [])

unfoldable pub handle_event : AdmissionControlModule → Event → AdmissionControlModule × List Action
handle_event m event = (m, [])
