-- ===== src/LowLevel/Launch/Table.antt =====
-- The table of descriptors of a process, as the calls that low_level/spawn/mod.rs makes between fork
-- and exec change it. The kernel is a parameter: the laws are those of dup(2), close(2),
-- close_range(2) and execve(2).
use core_shift.Base.{ℕ, ◌<◌, ◌≤◌, ◌≡◌, ◌≢◌, Bool, false, Option, none, some, if◌then◌else◌}

pub record Table : Type 1 where
  pub State : Type 0
  pub File : Type 0
  -- What a descriptor refers to, if it is open, and whether it is closed by exec.
  pub file : State → ℕ → Option File
  pub cloexec : State → ℕ → Bool
  pub dup2 : State → ℕ → ℕ → State
  pub close : State → ℕ → State
  pub close_range : State → ℕ → ℕ → State
  pub exec : State → State
  pub file-dup2 :
      (s : State) (old new : ℕ) (f : File)
      → file s old ≡ some f
      → file (dup2 s old new) new ≡ some f
  pub file-dup2_ne : (s : State) (old new k : ℕ) → new ≢ k → file (dup2 s old new) k ≡ file s k
  pub cloexec-dup2 :
      (s : State) (old new : ℕ) (f : File)
      → old ≢ new
      → file s old ≡ some f
      → cloexec (dup2 s old new) new ≡ false
  pub cloexec-dup2_ne :
      (s : State) (old new k : ℕ) → new ≢ k → cloexec (dup2 s old new) k ≡ cloexec s k
  pub file-close : (s : State) (k : ℕ) → file (close s k) k ≡ none
  pub file-close_ne : (s : State) (j k : ℕ) → j ≢ k → file (close s j) k ≡ file s k
  pub cloexec-close_ne : (s : State) (j k : ℕ) → j ≢ k → cloexec (close s j) k ≡ cloexec s k
  pub file-close_range :
      (s : State) (lo hi k : ℕ) → lo ≤ k → k ≤ hi → file (close_range s lo hi) k ≡ none
  pub file-close_range_lt :
      (s : State) (lo hi k : ℕ) → k < lo → file (close_range s lo hi) k ≡ file s k
  pub file-close_range_gt :
      (s : State) (lo hi k : ℕ) → hi < k → file (close_range s lo hi) k ≡ file s k
  pub cloexec-close_range_lt :
      (s : State) (lo hi k : ℕ) → k < lo → cloexec (close_range s lo hi) k ≡ cloexec s k
  pub cloexec-close_range_gt :
      (s : State) (lo hi k : ℕ) → hi < k → cloexec (close_range s lo hi) k ≡ cloexec s k
  pub file-exec : (s : State) (k : ℕ) → file (exec s) k ≡ (if cloexec s k then none else file s k)
