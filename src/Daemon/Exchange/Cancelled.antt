-- ===== src/Daemon/Exchange/Cancelled.antt =====
-- The request to stop a job in bytes (lib.rs, mid_level/ipc.rs).
use core_shift.Base.{ℕ, ◌≡◌, List, [], ◌∷◌, ◌++◌, ◌⊎◌}
use core_shift.LowLevel.Fd.{Sink}
use core_shift.LowLevel.Reactor
use core_shift.MidLevel.Wire.Decode.{frame}
use core_shift.MidLevel.Ipc.{Act}
use core_shift.Daemon.Interface.{Executor}
use core_shift.Daemon.Cancels.{Stopped, Unanswered}
use core_shift.Daemon.{Daemon}

module _ (x : Executor) where
  -- What the client has been sent.
  abbrev pub Told : Daemon x → ℕ → ℕ → Sink → Daemon x × List Act → Sink → Type 0
  Told d id fd sink out last =
      (Stopped x d id fd out × (last.written ≡ sink.written ++ frame (3 ∷ [])))
      ⊎ (Unanswered x d id fd out × (last ≡ sink))
