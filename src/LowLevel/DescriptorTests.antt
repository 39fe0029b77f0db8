-- ===== src/LowLevel/DescriptorTests.antt =====
-- Runs of the child of a start on a concrete table of descriptors (low_level/spawn/mod.rs).
use core_shift.Base.{
  ℕ, zero, suc, ◌⊎◌, ◌≤◌, ◌≡◌, refl, true, false, Option, none, some, [], ◌∷◌, arith, inl, inr,
}
use core_shift.LowLevel.Signals.{sigpipe}
use core_shift.LowLevel.PlainSignals.{
  Plain, plain_signals, parent, posix_child, posix_child-Applied,
}
use core_shift.LowLevel.Launch.Attributes.{signals, SameSignals, attributes_agree}
use core_shift.LowLevel.Sys
use core_shift.LowLevel.PlainTable.{Entry, entry_file, exec_at, plain_table}
use core_shift.LowLevel.Sys.{default_group}
use core_shift.LowLevel.Launch.{Listing, SpawnOptions, SpawnBackend, Pipes}
use core_shift.LowLevel.Launch.Closing.{Closing, range_if, close_range_fast, last_fd}
use core_shift.LowLevel.Launch.Closing.Complete.{
  In, Lists, Works, Cleared, close_range_fast-Cleared,
}
use core_shift.LowLevel.Launch.Streams.{AreEnds}
use core_shift.LowLevel.Launch.Child.{child_calls}
use core_shift.LowLevel.Launch.Program.{program}
use core_shift.LowLevel.Launch.Actions.{file_actions, perform}
use core_shift.LowLevel.Launch.Actions.Stages.{Separate}
use core_shift.LowLevel.Launch.Actions.Backends.{backends_agree}

-- What a child has before it closes anything: the standard streams, both ends of a pipe, and another
-- descriptor that exec does not close.
abbrev inherited : ℕ → Entry
inherited zero = some (10, false)
inherited (suc zero) = some (11, false)
inherited (suc (suc zero)) = some (12, true)
inherited (suc (suc (suc zero))) = none
inherited (suc (suc (suc (suc zero)))) = some (20, true)
inherited (suc (suc (suc (suc (suc zero))))) = some (21, true)
inherited (suc (suc (suc (suc (suc (suc zero)))))) = some (30, false)
inherited (suc (suc (suc (suc (suc (suc (suc k))))))) = none

abbrev listing : Option Listing
listing = some (record { dir_fd = 7; entries = some (0 ∷ 1 ∷ 2 ∷ 4 ∷ 5 ∷ 6 ∷ 7 ∷ []) })

all_listed : (k : ℕ) → (entry_file (inherited k) ≡ none) ⊎ In k (0 ∷ 1 ∷ 2 ∷ 4 ∷ 5 ∷ 6 ∷ 7 ∷ [])
all_listed zero = inr (inl refl)
all_listed (suc zero) = inr (inr (inl refl))
all_listed (suc (suc zero)) = inr (inr (inr (inl refl)))
all_listed (suc (suc (suc zero))) = inl refl
all_listed (suc (suc (suc (suc zero)))) = inr (inr (inr (inr (inl refl))))
all_listed (suc (suc (suc (suc (suc zero))))) = inr (inr (inr (inr (inr (inl refl)))))
all_listed (suc (suc (suc (suc (suc (suc zero)))))) = inr (inr (inr (inr (inr (inr (inl refl))))))
all_listed (suc (suc (suc (suc (suc (suc (suc k))))))) = inl refl

inherited-Lists : Lists plain_table inherited listing
inherited-Lists = record {
  dir_fd = 7;
  entries = 0 ∷ 1 ∷ 2 ∷ 4 ∷ 5 ∷ 6 ∷ 7 ∷ [];
  is_listed = refl;
  fresh = refl;
  complete = all_listed;
}

abbrev refused : Closing
refused = record { below = false; above = false; proc = listing }

abbrev granted : Closing
granted = record { below = true; above = true; proc = listing }

-- Neither call of close_range succeeds, so the directory is gone through; descriptor 6 is kept.
refused-Works : Works plain_table refused (some 6) inherited
unfolding range_if
refused-Works = inr inherited-Lists

six_least : (fd : ℕ) → some 6 ≡ some fd → 2 ≤ fd
six_least fd e = let six : 6 ≡ fd = cc in omega (arith, six)

close_range_fast-Cleared_example :
    Cleared plain_table (some 6) inherited (close_range_fast plain_table refused (some 6) inherited)
close_range_fast-Cleared_example =
    close_range_fast-Cleared plain_table refused (some 6) inherited six_least refused-Works

abbrev captured : Pipes
captured = record { stdin = none; stdout = some (4, 5); stderr = none }

captured-AreEnds : AreEnds plain_table captured inherited
captured-AreEnds = record {
  stdin_end = tt;
  stdout_end = (omega arith, (21, refl));
  stderr_end = tt;
}

captured-Separate : Separate captured
captured-Separate = record {
  stdin_above = tt;
  stdout_above = (omega arith, omega arith);
  stderr_above = tt;
  stdin_stdout = tt;
  stdin_stderr = tt;
  stdout_stderr = tt;
}

abbrev options : SpawnOptions
options = record {
  ctx = record { argv = "ls" ∷ []; envp = none; cwd = some "/" };
  stdin = none;
  capture_stdout = true;
  capture_stderr = false;
  wait = true;
  pgroup = default_group;
  max_output = 100;
  timeout_ms = none;
  kill_grace_ms = 0;
  cancel = Sys.CancelPolicy.none;
  backend = SpawnBackend.auto;
  early_exit = Option.none;
}

backends_agree_example :
    (started : ℕ → Entry) × (program plain_table granted
        (child_calls true captured options)
        inherited
      ≡ some started)
    × ((k : ℕ)
        → k ≤ last_fd
        → entry_file (started k)
          ≡ entry_file (exec_at (perform plain_table (file_actions listing captured) inherited) k))
backends_agree_example =
    backends_agree plain_table granted true captured options inherited captured-AreEnds
      captured-Separate (inl refl) inherited-Lists refl

attributes_agree_example :
    (started : Plain) × (signals plain_signals (child_calls true captured options) parent
      ≡ some started)
    × SameSignals plain_signals started posix_child
    × (started.group ≡ posix_child.group)
    × ((sig : ℕ) → started.blocked sig ≡ false)
    × (started.ignored sigpipe ≡ false)
attributes_agree_example =
    attributes_agree plain_signals true captured options parent posix_child refl refl
      posix_child-Applied
