-- ===== src/Daemon/Starved.antt =====
-- Places and results over the loop of run_daemon (lib.rs).
use core_shift.Base.{ℕ, ◌≤◌, ◌≡◌, ◌∙◌, some, List, [], ◌∷◌, Result, arith, All, All}
use core_shift.Core.Types.{Action}
use core_shift.Core.Machine.Exits.{settles, settling}
use core_shift.Daemon.Interface.{Executor}
use core_shift.LowLevel.Libc.{SysError}
use core_shift.LowLevel.Reactor
use core_shift.MidLevel.Ipc.{Act, Connection}
use core_shift.Daemon.Requests.{handle_all-settling, observe_all-settling}
use core_shift.Daemon.{Daemon, run_daemon, handle_all, observe_all}
use core_shift.Core.Dispatcher.{dispatch, dispatch_event}
use core_shift.Daemon.Preserved.{Invariant, run_daemon-Holds}
use core_shift.Daemon.Unsettled.{
  dispatch-settling, dispatch-active, dispatch-results, dispatch_event-results, event-settling,
  resolved-Unpolled, Unpolled, active,
}

-- No place has been freed since `n` were active, and no result is stored.
IsStarved : {x : Executor} → ℕ → Daemon x → Type 0
IsStarved n d = (n ≤ active d.core) × (d.state.results ≡ [])

Unsettling : Action → Type 0
Unsettling a = settles a ≡ 0

Unsettling-All : (actions : List Action) → settling actions ≡ 0 → All Unsettling actions
unfolding Unsettling
Unsettling-All [] h = tt
Unsettling-All (a ∷ actions) h = (omega arith, Unsettling-All actions (omega arith))

-- Nothing on the queue settles a job, and no process is polled.
starved : (x : Executor) → ℕ → Invariant x
unfolding IsStarved Unsettling
starved x n = record {
  Holds = IsStarved n;
  Allowed = Unsettling;
  Safe = Unpolled;
  on_executor = λ d s h. h;
  on_event = λ d effect e f u h. (
    (h.0, dispatch_event-results d.state e ∙ h.1),
    Unsettling-All (dispatch_event d.state e).1 (event-settling d.state effect e f u),
  );
  on_action = λ d now later a ipc g h.
      let r = dispatch now later d.core d.state a in
      (
        (
          omega (arith, h.0, dispatch-active now later d.core d.state a g),
          dispatch-results now later d.core d.state a g h.1,
        ),
        Unsettling-All r.actions (dispatch-settling now later d.core d.state a),
        resolved-Unpolled r.state a g,
      );
  on_requests = λ m events. Unsettling-All (handle_all m events).1 (handle_all-settling m events);
  on_ready = λ d ready ipc f h.
      let (calm, same) = observe_all-settling d.state ready f in
      ((h.0, same ∙ h.1), Unsettling-All (observe_all d.state ready).1 calm);
}

-- From a daemon that stores no result, as at the start: whatever the executor, the reactor, the
-- clients and the clock give, the daemon stores no result in any later iteration, and the count of
-- active jobs never falls.
pub daemon_starves :
    (x : Executor) (clock : ℕ → ℕ × ℕ) (d : Daemon x)
    (polled : List (Result (List (Reactor.Event × List Connection)) SysError))
    (out : Daemon x × List Act)
    → d.state.results ≡ []
    → run_daemon x clock d polled ≡ some out
    → (out.0.state.results ≡ []) × (d.core.admission.active_jobs ≤ out.0.core.admission.active_jobs)
unfolding active IsStarved starved
daemon_starves x clock d polled out e r =
    let (busy, empty) =
      run_daemon-Holds x (starved x d.core.admission.active_jobs) clock d polled out
        (omega arith, e) r in
    (empty, busy)
