-- ===== src/MidLevel/Router.antt =====
-- mid_level/router.rs: Router, which turns requests into actions and hands out job ids.
pub mod Ids
use core_shift.Base.{
  ℕ, ◌+◌, ◌%◌, ◌^◌, Bool, true, false, not, Option, none, some, List, [], ◌∷◌, if◌then◌else◌,
}
use core_shift.Core.Types.{Action, ControlSignal}
use core_shift.HighLevel.Api
use core_shift.HighLevel.Api.{Capability, Command, map_to_exec}

pub data Request : Type 0 where
  exec : ℕ → Command → Request
  get_result cancel : ℕ → ℕ → Request

pub record Router : Type 0 where
  pub next_id : ℕ

unfoldable pub new : Router
new = record { next_id = 1 }

-- `fetch_add(1)` on an AtomicU64 gives the old value and wraps.
unfoldable pub next_id : Router → ℕ × Router
next_id r = (r.next_id, record { next_id = (r.next_id + 1) % 2 ^ 64 })

-- The match on the command: `true` if a guard returns.
unfoldable pub denied : Capability → Command → Bool
denied cap (Command.cmd service args) = not cap.allow_cmd
denied cap (Command.dumpsys service args) = not cap.allow_dumpsys

unfoldable pub handle : Router → Request → Option Action × Router
unfolding next_id denied Api.default
handle r (exec uid command) =
    if denied Api.default command
    then (none, r)
    else let (spec, policy) = map_to_exec command in
      let (id, r') = next_id r in (some (Action.submit id uid spec policy), r')
handle r (get_result uid id) = (some (Action.query id), r)
handle r (cancel uid id) = (some (Action.control id ControlSignal.graceful_stop), r)

-- The requests of a connection after the other.
unfoldable pub handle_all : Router → List Request → List (Option Action) × Router
unfolding handle
handle_all r [] = ([], r)
handle_all r (q ∷ requests) =
    let (a, r') = handle r q in let (more, last) = handle_all r' requests in (a ∷ more, last)
