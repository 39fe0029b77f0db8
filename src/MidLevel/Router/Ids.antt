-- ===== src/MidLevel/Router/Ids.antt =====
-- The ids that Router::handle (mid_level/router.rs) gives to jobs, and what it asks for.
use core_shift.Base.{
  ℕ, zero, suc, ◌+◌, ◌%◌, ◌^◌, ◌<◌, ◌≡◌, refl, ◌∙◌, ap, true, Option, none, some, List, [], ◌∷◌,
  String, arith,
}
use core_shift.Core.Types.{Action, CancelPolicy, ControlSignal}
use core_shift.HighLevel.Api.{Command, map_to_exec}
use core_shift.MidLevel.Router.{Request, exec, get_result, cancel, Router, handle, handle_all}

-- The ids of the submissions.
abbrev submitted : Option Action → List ℕ → List ℕ
submitted (some (Action.submit id owner spec policy)) ids = id ∷ ids
submitted _ ids = ids

abbrev pub submissions : List (Option Action) → List ℕ
submissions [] = []
submissions (a ∷ actions) = submitted a (submissions actions)

-- n, n + 1, …, `count` of them.
abbrev pub consecutive : ℕ → ℕ → List ℕ
consecutive n zero = []
consecutive n (suc count) = n ∷ consecutive (suc n) count

abbrev pub exec_count : List Request → ℕ
exec_count [] = 0
exec_count (exec uid command ∷ requests) = suc (exec_count requests)
exec_count (_ ∷ requests) = exec_count requests

next_small : (n k : ℕ) → n + suc k < 2 ^ 64 → (n + 1) % 2 ^ 64 ≡ suc n
next_small n k h = omega arith

module _ (r : Router) (k : ℕ) (fits : r.next_id + suc k < 2 ^ 64) where
  abbrev next : Router
  next = record { next_id = (r.next_id + 1) % 2 ^ 64 }

  next_fits : next.next_id + k < 2 ^ 64
  next_fits = omega arith

  cons-consecutive :
      (ids : List ℕ)
      → ids ≡ consecutive next.next_id k
      → r.next_id ∷ ids ≡ consecutive r.next_id (suc k)
  cons-consecutive ids e =
      ap (λ l. r.next_id ∷ l) (e ∙ ap (λ n. consecutive n k) (next_small r.next_id k fits))

-- As long as the 64-bit counter does not run out, the commands of any requests are submitted under
-- consecutive ids, from the router's next one: no id is given twice, none is passed over, and no
-- command is turned away.
pub handle_all-consecutive :
    (r : Router) (requests : List Request)
    → r.next_id + exec_count requests < 2 ^ 64
    → submissions (handle_all r requests).0 ≡ consecutive r.next_id (exec_count requests)
unfolding handle_all
handle_all-consecutive r [] h = refl
handle_all-consecutive r (exec uid (Command.cmd service args) ∷ requests) h =
    cons-consecutive r (exec_count requests) h _ (
      handle_all-consecutive (next r (exec_count requests) h) requests
        (next_fits r (exec_count requests) h))
handle_all-consecutive r (exec uid (Command.dumpsys service args) ∷ requests) h =
    cons-consecutive r (exec_count requests) h _ (
      handle_all-consecutive (next r (exec_count requests) h) requests
        (next_fits r (exec_count requests) h))
handle_all-consecutive r (get_result uid id ∷ requests) h = handle_all-consecutive r requests h
handle_all-consecutive r (cancel uid id ∷ requests) h = handle_all-consecutive r requests h

-- The program and argument list of a command.
abbrev pub command_line : Command → List String
command_line (Command.cmd service args) = "/system/bin/cmd" ∷ service ∷ args
command_line (Command.dumpsys service args) = "/system/bin/dumpsys" ∷ service ∷ args

-- An action that a request may become: a submission of one of the two tools without any deadline,
-- with a grace of a second and both streams captured; a query; or a graceful stop.
abbrev pub Routed : Action → Type 0
Routed (Action.submit id owner spec policy) =
    ((command : Command) × (spec.argv ≡ command_line command))
    × (policy.timeout_ms ≡ none)
    × (policy.kill_grace_ms ≡ 1000)
    × (policy.cancel ≡ CancelPolicy.graceful)
    × (spec.capture_stdout ≡ true)
    × (spec.capture_stderr ≡ true)
    × (spec.stdin ≡ none)
Routed (Action.query id) = Unit
Routed (Action.control id signal) = signal ≡ ControlSignal.graceful_stop
Routed _ = ⊥

abbrev pub RoutedOption : Option Action → Type 0
RoutedOption none = Unit
RoutedOption (some a) = Routed a

-- Every request becomes a routed action: no submission carries a timeout, and no control request
-- asks for a kill.
pub handle-Routed : (r : Router) (q : Request) → RoutedOption (handle r q).0
unfolding handle map_to_exec
handle-Routed r (exec uid (Command.cmd service args)) =
    ((Command.cmd service args, refl), refl, refl, refl, refl, refl, refl)
handle-Routed r (exec uid (Command.dumpsys service args)) =
    ((Command.dumpsys service args, refl), refl, refl, refl, refl, refl, refl)
handle-Routed r (get_result uid id) = tt
handle-Routed r (cancel uid id) = refl
