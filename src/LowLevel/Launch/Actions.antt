-- ===== src/LowLevel/Launch/Actions.antt =====
-- The file actions of spawn_posix_internal (low_level/spawn/mod.rs), and what they do to the table of
-- descriptors of the child. posix_spawn is a parameter: it performs the actions in turn, and passes
-- over a descriptor to close that is not open.
pub mod Stages
pub mod Backends
use core_shift.Base.{
  ℕ, ◌∷◌, [], List, ◌++◌, Option, none, some, ◌&&◌, not, ltb, ◌==◌, if◌then◌else◌,
}
use core_shift.LowLevel.Launch.{Listing, Ends, Pipes}
use core_shift.LowLevel.Launch.Table.{Table}

pub data Action : Type 0 where
  adddup2 : ℕ → ℕ → Action
  addclose : ℕ → Action

-- The child's end, the parent's, and the stream.
abbrev pub end_actions : ℕ → ℕ → ℕ → List Action
end_actions fd other target = adddup2 fd target ∷ addclose fd ∷ addclose other ∷ []

unfoldable pub stdin_actions : Ends → List Action
stdin_actions none = []
stdin_actions (some (r, w)) = end_actions r w 0

unfoldable pub output_actions : Ends → ℕ → List Action
output_actions none target = []
output_actions (some (r, w)) target = end_actions w r target

-- Every other descriptor that the directory lists.
unfoldable pub listed_actions : ℕ → List ℕ → List Action
listed_actions dir_fd [] = []
listed_actions dir_fd (fd ∷ entries) =
    let rest = listed_actions dir_fd entries in
    if ltb 2 fd && not (fd == dir_fd) then addclose fd ∷ rest else rest

unfoldable pub open_actions : Option Listing → List Action
unfolding listed_actions
open_actions none = []
open_actions (some l) = elim l.entries [
  | none ↦ []
  | some entries ↦ listed_actions l.dir_fd entries
]

unfoldable pub file_actions : Option Listing → Pipes → List Action
unfolding stdin_actions output_actions open_actions
file_actions proc p =
    stdin_actions p.stdin
    ++ (output_actions p.stdout 1 ++ (output_actions p.stderr 2 ++ open_actions proc))

module _ (t : Table) where
  unfoldable pub perform : List Action → t.State → t.State
  perform [] s = s
  perform (adddup2 old new ∷ actions) s = perform actions (t.dup2 s old new)
  perform (addclose fd ∷ actions) s = perform actions (t.close s fd)
