-- ===== src/Core/Io.antt =====
-- core/io.rs: IoModule, which asks for the streams of a started process to be watched.
use core_shift.Base.{List, [], ◌∷◌, if◌then◌else◌}
use core_shift.Base.HashMap.{contains_key}
use core_shift.Core.Types.{Action, Event, ExecutionState, IoStream}

unfoldable pub handle : ExecutionState → Action → List Action
handle s action = []

unfoldable pub handle_event : ExecutionState → Event → List Action
handle_event s (Event.process_started id _ _) =
    Action.register_interest id IoStream.stdout
    ∷ Action.register_interest id IoStream.stderr
    ∷ Action.register_interest id IoStream.stdin
    ∷ []
handle_event s (Event.job_fd_ready job_id _ _ _) =
    if contains_key job_id s.jobs then Action.perform_io job_id ∷ [] else []
handle_event s _ = []
