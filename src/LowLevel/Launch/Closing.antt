-- ===== src/LowLevel/Launch/Closing.antt =====
-- close_range_fast of low_level/spawn/mod.rs. Whether close_range is there, and what /proc/self/fd
-- lists, are arguments; its own descriptor is closed again.
pub mod Complete
use core_shift.Base.{
  ℕ, suc, ◌+◌, ◌-◌, ◌^◌, ◌<◌, ◌≤◌, ◌≡◌, ◌≢◌, refl, ◌∙◌, sym, Bool, true, false, Option, none, some,
  List, [], ◌∷◌, ◌&&◌, not, ltb, ◌==◌, max, arith, inl, inr, ◌⊎◌, Bool-cases, Option-cases,
  if◌then◌else◌,
}
use core_shift.LowLevel.Launch.{Listing}
use core_shift.LowLevel.Launch.Table.{Table}

-- `!0u32`.
abbrev pub last_fd : ℕ
last_fd = 2 ^ 32 - 1

-- `below` and `above` tell whether the calls of close_range return 0; with nothing to keep, only
-- `above` is asked.
pub record Closing : Type 0 where
  pub below : Bool
  pub above : Bool
  pub proc : Option Listing

abbrev is_kept : Option ℕ → ℕ → Bool
is_kept none fd = false
is_kept (some keep) fd = fd == keep

module _ (t : Table) where
  unfoldable pub range_if : Bool → t.State → ℕ → ℕ → t.State
  range_if done s lo hi = if done then t.close_range s lo hi else s

  unfoldable pub close_listed : Option ℕ → ℕ → List ℕ → t.State → t.State
  close_listed keep dir_fd [] s = s
  close_listed keep dir_fd (fd ∷ entries) s =
      close_listed keep dir_fd entries
        (if ltb 2 fd && (not (is_kept keep fd) && not (fd == dir_fd)) then t.close s fd else s)

  unfoldable pub close_by_listing : Option ℕ → Option Listing → t.State → t.State
  unfolding close_listed
  close_by_listing keep none s = s
  close_by_listing keep (some l) s = elim l.entries [
    | none ↦ t.close s l.dir_fd
    | some entries ↦ t.close (close_listed keep l.dir_fd entries s) l.dir_fd
  ]

  unfoldable pub close_range_fast : Closing → Option ℕ → t.State → t.State
  unfolding range_if close_by_listing
  close_range_fast c none s =
      if c.above then t.close_range s 3 last_fd else close_by_listing none c.proc s
  close_range_fast c (some fd) s =
      let s1 = range_if c.below s 3 (max (fd - 1) 2) in
      let s2 = range_if c.above s1 (fd + 1) last_fd in
      if c.below && c.above then s2 else close_by_listing (some fd) c.proc s2
