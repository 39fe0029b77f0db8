-- ===== src/LowLevel/Signals.antt =====
-- SignalRuntime of low_level/sys/mod.rs. The sets of signals of libc and what the kernel keeps of a
-- process are a parameter; the laws are those of sigemptyset(3), sigaddset(3), sigprocmask(2),
-- signal(2), setpgid(2) and setsid(2).
use core_shift.Base.{ℕ, ◌≡◌, ◌≢◌, Bool, true, false, List, [], ◌∷◌}

pub record SignalKernel : Type 1 where
  pub SigSet : Type 0
  pub State : Type 0
  pub sigemptyset : SigSet
  pub sigaddset : SigSet → ℕ → SigSet
  pub has : SigSet → ℕ → Bool
  -- Whether a signal is blocked, and whether it is ignored; the process group.
  pub blocked : State → ℕ → Bool
  pub ignored : State → ℕ → Bool
  pub group : State → ℕ
  -- `sigprocmask` with SIG_SETMASK, and `signal` with SIG_DFL.
  pub set_mask : SigSet → State → State
  pub signal_default : ℕ → State → State
  pub setpgid : ℕ → State → State
  pub setsid : State → State
  pub has-sigemptyset : (sig : ℕ) → has sigemptyset sig ≡ false
  pub has-sigaddset : (set : SigSet) (sig : ℕ) → has (sigaddset set sig) sig ≡ true
  pub has-sigaddset_ne :
      (set : SigSet) (sig other : ℕ) → sig ≢ other → has (sigaddset set sig) other ≡ has set other
  pub blocked-set_mask :
      (set : SigSet) (s : State) (sig : ℕ) → blocked (set_mask set s) sig ≡ has set sig
  pub ignored-set_mask :
      (set : SigSet) (s : State) (sig : ℕ) → ignored (set_mask set s) sig ≡ ignored s sig
  pub group-set_mask : (set : SigSet) (s : State) → group (set_mask set s) ≡ group s
  pub blocked-signal_default :
      (sig other : ℕ) (s : State) → blocked (signal_default sig s) other ≡ blocked s other
  pub ignored-signal_default : (sig : ℕ) (s : State) → ignored (signal_default sig s) sig ≡ false
  pub ignored-signal_default_ne :
      (sig other : ℕ) (s : State)
      → sig ≢ other
      → ignored (signal_default sig s) other ≡ ignored s other
  pub group-signal_default : (sig : ℕ) (s : State) → group (signal_default sig s) ≡ group s
  pub ignored-setpgid : (pg sig : ℕ) (s : State) → ignored (setpgid pg s) sig ≡ ignored s sig
  pub ignored-setsid : (sig : ℕ) (s : State) → ignored (setsid s) sig ≡ ignored s sig

abbrev pub sigpipe : ℕ
sigpipe = 13

module _ (k : SignalKernel) where
  unfoldable pub empty_set : k.SigSet
  empty_set = k.sigemptyset

  unfoldable pub add_all : k.SigSet → List ℕ → k.SigSet
  add_all set [] = set
  add_all set (sig ∷ signals) = add_all (k.sigaddset set sig) signals

  unfoldable pub set_with : List ℕ → k.SigSet
  unfolding add_all
  set_with signals = add_all k.sigemptyset signals

  unfoldable pub unblock_all : k.State → k.State
  unfolding empty_set
  unblock_all s = k.set_mask empty_set s

  unfoldable pub reset_default : ℕ → k.State → k.State
  reset_default sig s = k.signal_default sig s
