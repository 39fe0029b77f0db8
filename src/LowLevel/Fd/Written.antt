-- ===== src/LowLevel/Fd/Written.antt =====
-- The answers of Fd::write (low_level/reactor/mod.rs).
use core_shift.Base.{
  ℕ, ◌≡◌, inl, inr, refl, List, [], ◌∷◌, some, Result, ok, err, ◌==◌, Bool-cases, arith,
}
use core_shift.LowLevel.Libc.{Errno, SysError}
use core_shift.LowLevel.Fd.{Answer, Sink, transfer, failed, write_loop, write}
use core_shift.LowLevel.Fd.Transfers.{Settles}

-- A write succeeded and what settles is still to come, or it failed.
abbrev pub WritePending : Errno → Result ℕ SysError → List Answer → Type 0
WritePending c (ok n) answers = Settles c answers
WritePending c (err e) answers = Unit

write_loop-returns :
    (c : Errno) (bytes written : List ℕ) (answers : List Answer)
    → Settles c answers
    → (r : Result ℕ SysError) × (sink : Sink) × (write_loop c bytes written answers
        ≡ some (r, sink))
      × WritePending c r sink.answers
unfolding write_loop
write_loop-returns c bytes written [] h = absurd h
write_loop-returns c bytes written (transfer n ∷ answers) h = (_, _, refl, h)
write_loop-returns c bytes written (failed e ∷ answers) h = elim (Bool-cases (e == c.eintr)) [
  | inl retry ↦ elim h [
    | inl other ↦ absurd (ground (arith, retry, other))
    | inr later ↦ rw (retry, write_loop) (write_loop-returns c bytes written answers later)
  ]
  | inr stop ↦ rw (stop, write_loop) (_, _, refl, tt)
]

pub write-returns :
    (c : Errno) (bytes : List ℕ) (s : Sink)
    → Settles c s.answers
    → (r : Result ℕ SysError) × (sink : Sink) × (write c bytes s ≡ some (r, sink))
      × WritePending c r sink.answers
unfolding write
write-returns c bytes s h = write_loop-returns c bytes s.written s.answers h
