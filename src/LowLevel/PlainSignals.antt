-- ===== src/LowLevel/PlainSignals.antt =====
-- A concrete kernel's side of signals, for runs of low_level/sys and low_level/spawn.
use core_shift.Base.{
  ℕ, ◌≡◌, ◌≢◌, refl, Bool, true, false, ◌==◌, arith, inl, inr, Bool-cases, if◌then◌else◌,
}
use core_shift.LowLevel.Sys.{default_group}
use core_shift.LowLevel.Signals.{SignalKernel, sigpipe, empty_set, set_with, add_all}
use core_shift.LowLevel.Launch.Attributes.{attributes, Applied}

-- What is blocked and ignored, and the group.
pub record Plain : Type 0 where
  pub blocked : ℕ → Bool
  pub ignored : ℕ → Bool
  pub group : ℕ

-- One element set to a value.
abbrev pub put : Bool → (ℕ → Bool) → ℕ → ℕ → Bool
put b f sig k = if k == sig then b else f k

pub put_eq : (b : Bool) (f : ℕ → Bool) (sig : ℕ) → put b f sig sig ≡ b
put_eq b f sig = let same : (sig == sig) ≡ true = ground arith in rw (same) refl

pub put_ne : (b : Bool) (f : ℕ → Bool) (sig k : ℕ) → sig ≢ k → put b f sig k ≡ f k
put_ne b f sig k ne = let differs : (k == sig) ≡ false = ground (arith, ne) in rw (differs) refl

abbrev pub plain_signals : SignalKernel
plain_signals = record {
  SigSet = ℕ → Bool;
  State = Plain;
  sigemptyset = λ k. false;
  sigaddset = λ set sig. put true set sig;
  has = λ set sig. set sig;
  blocked = λ s sig. s.blocked sig;
  ignored = λ s sig. s.ignored sig;
  group = λ s. s.group;
  set_mask = λ set s. record s { blocked = set };
  signal_default = λ sig s. record s { ignored = put false s.ignored sig };
  setpgid = λ pg s. record s { group = pg };
  setsid = λ s. record s { group = 900 };
  has-sigemptyset = λ sig. refl;
  has-sigaddset = λ set sig. put_eq true set sig;
  has-sigaddset_ne = λ set sig other ne. put_ne true set sig other ne;
  blocked-set_mask = λ set s sig. refl;
  ignored-set_mask = λ set s sig. refl;
  group-set_mask = λ set s. refl;
  blocked-signal_default = λ sig other s. refl;
  ignored-signal_default = λ sig s. put_eq false s.ignored sig;
  ignored-signal_default_ne = λ sig other s ne. put_ne false s.ignored sig other ne;
  group-signal_default = λ sig s. refl;
  ignored-setpgid = λ pg sig s. refl;
  ignored-setsid = λ sig s. refl;
}

-- A parent that blocks SIGCHLD and ignores SIGHUP and SIGPIPE, and a child of posix_spawn.
abbrev pub parent : Plain
parent = record {
  blocked = put true (λ k. false) 17;
  ignored = put true (put true (λ k. false) 1) sigpipe;
  group = 800;
}

abbrev pub posix_child : Plain
posix_child = record {
  blocked = λ k. false;
  ignored = put false parent.ignored sigpipe;
  group = 800;
}

defaulted_child :
    (sig : ℕ)
    → put true (λ k. false) sigpipe sig ≡ true
    → put false parent.ignored sigpipe sig ≡ false
defaulted_child sig h = elim (Bool-cases (sig == sigpipe)) [
  | inl e ↦ rw (e) refl
  | inr e ↦ cc (rw (e) at h)
]

kept_child :
    (sig : ℕ)
    → put true (λ k. false) sigpipe sig ≡ false
    → put false parent.ignored sigpipe sig ≡ parent.ignored sig
kept_child sig h = elim (Bool-cases (sig == sigpipe)) [
  | inl e ↦ cc (rw (e) at h)
  | inr e ↦ rw (e) refl
]

pub posix_child-Applied :
    Applied plain_signals (attributes plain_signals default_group) parent posix_child
unfolding attributes empty_set set_with add_all
posix_child-Applied = record {
  masked = λ sig. refl;
  defaulted = defaulted_child;
  kept = kept_child;
  grouped = refl;
}
