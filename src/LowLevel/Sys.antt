-- ===== src/LowLevel/Sys.antt =====
-- The cancel policy and the process groups of low_level/sys/mod.rs.
use core_shift.Base.{ℕ, Bool, false, Option}

pub data CancelPolicy : Type 0 where
  none graceful kill : CancelPolicy

pub record ProcessGroup : Type 0 where
  pub leader : Option ℕ
  pub isolated : Bool

-- `ProcessGroup::default()`.
abbrev pub default_group : ProcessGroup
default_group = record { leader = Option.none; isolated = false }
