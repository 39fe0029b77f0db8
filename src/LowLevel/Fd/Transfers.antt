-- ===== src/LowLevel/Fd/Transfers.antt =====
-- What Fd::read and Fd::write (low_level/reactor/mod.rs) move, and that they return.
use core_shift.Base.{
  ℕ, min, ◌≤◌, ◌<◌, ◌≡◌, ◌≢◌, refl, ◌⊎◌, inl, inr, List, [], ◌∷◌, ◌++◌, some, Result, ok, err, take,
  length, length-take, take-length-take, take-append-drop, ◌==◌, ==_iff, true, Bool-cases, arith,
}
use mathlib.Core.List.{append-nil}
use core_shift.LowLevel.Libc.{Errno, SysError, syscall}
use core_shift.LowLevel.Fd.{
  Answer, transfer, failed, Source, Sink, read_loop, read, write_loop, write,
}

-- The bytes of a read that succeeded.
abbrev pub got : Result (List ℕ) SysError → List ℕ
got (ok bytes) = bytes
got (err e) = []

-- What came is the front of what was pending, no more than was asked for, and an answer is used up.
pub record Reads (count : ℕ) (pending : List ℕ) (answers : List Answer)
    (r : Result (List ℕ) SysError) (source : Source) : Type 0 where
  pub front : pending ≡ got r ++ source.pending
  pub within : length (got r) ≤ count
  pub used : length source.answers < length answers

read_loop-Reads :
    (c : Errno) (count : ℕ) (pending : List ℕ) (answers : List Answer)
    (r : Result (List ℕ) SysError) (source : Source)
    → read_loop c count pending answers ≡ some (r, source)
    → Reads count pending answers r source
unfolding read_loop
read_loop-Reads c count pending [] r source h = cc
read_loop-Reads c count pending (transfer n ∷ answers) r source h = record {
  front = ground (arith, take-append-drop (min n count) pending);
  within = ground (arith, length-take (min n count) pending);
  used = ground arith;
}
read_loop-Reads c count pending (failed e ∷ answers) r source h = elim (Bool-cases (e == c.eintr)) [
  | inl again ↦
      let rest = read_loop-Reads c count pending answers r source (ground arith) in
      record { front = rest.front; within = rest.within; used = omega (arith, rest.used) }
  | inr stop ↦ record { front = ground arith; within = ground arith; used = ground arith }
]

pub read-Reads :
    (c : Errno) (count : ℕ) (s : Source) (r : Result (List ℕ) SysError) (source : Source)
    → read c count s ≡ some (r, source)
    → Reads count s.pending s.answers r source
unfolding read
read-Reads c count s r source h = read_loop-Reads c count s.pending s.answers r source h

-- One of the coming answers is an error other than EINTR.
abbrev pub Settles : Errno → List Answer → Type 0
Settles c [] = ⊥
Settles c (transfer n ∷ answers) = Settles c answers
Settles c (failed e ∷ answers) = (e ≢ c.eintr) ⊎ Settles c answers

-- The read fails, or the error is still to come.
abbrev pub Pending : Errno → Result (List ℕ) SysError → List Answer → Type 0
Pending c (ok bytes) answers = Settles c answers
Pending c (err e) answers = Unit

read_loop-returns :
    (c : Errno) (count : ℕ) (pending : List ℕ) (answers : List Answer)
    → Settles c answers
    → (r : Result (List ℕ) SysError) × (source : Source) × (read_loop c count pending answers
        ≡ some (r, source))
      × Pending c r source.answers
unfolding read_loop
read_loop-returns c count pending [] h = absurd h
read_loop-returns c count pending (transfer n ∷ answers) h =
    (ok (take (min n count) pending), _, refl, h)
read_loop-returns c count pending (failed e ∷ answers) h = elim (Bool-cases (e == c.eintr)) [
  | inl again ↦ rw again (read_loop-returns c count pending answers (later h again))
  | inr stop ↦ rw stop (err (syscall e "read"), _, refl, tt)
]
  where
    later : (e ≢ c.eintr) ⊎ Settles c answers → (e == c.eintr) ≡ true → Settles c answers
    later (inl ne) same = absurd (ne ((==_iff e c.eintr).0 same))
    later (inr s) same = s

-- A read returns if the kernel's answers have an error other than EINTR to come; and where it does
-- not fail, that error is still to come.
pub read-returns :
    (c : Errno) (count : ℕ) (s : Source)
    → Settles c s.answers
    → (r : Result (List ℕ) SysError) × (source : Source) × (read c count s ≡ some (r, source))
      × Pending c r source.answers
unfolding read
read-returns c count s h = read_loop-returns c count s.pending s.answers h

-- The number of bytes of a write that succeeded.
abbrev pub sent : Result ℕ SysError → ℕ
sent (ok n) = n
sent (err e) = 0

-- What was written is a front of what was offered, and an answer is used up.
pub record Writes (bytes written : List ℕ) (answers : List Answer) (r : Result ℕ SysError)
    (sink : Sink) : Type 0 where
  pub front : sink.written ≡ written ++ take (sent r) bytes
  pub within : sent r ≤ length bytes
  pub used : length sink.answers < length answers

write_loop-Writes :
    (c : Errno) (bytes written : List ℕ) (answers : List Answer) (r : Result ℕ SysError)
    (sink : Sink)
    → write_loop c bytes written answers ≡ some (r, sink)
    → Writes bytes written answers r sink
unfolding write_loop
write_loop-Writes c bytes written [] r sink h = cc
write_loop-Writes c bytes written (transfer n ∷ answers) r sink h = record {
  front = ground (arith, take-length-take n bytes);
  within = ground (arith, length-take n bytes);
  used = ground arith;
}
write_loop-Writes c bytes written (failed e ∷ answers) r sink h = elim (Bool-cases (e == c.eintr)) [
  | inl again ↦
      let rest = write_loop-Writes c bytes written answers r sink (ground arith) in
      record { front = rest.front; within = rest.within; used = omega (arith, rest.used) }
  | inr stop ↦ record {
    front = ground (arith, append-nil written);
    within = ground arith;
    used = ground arith;
  }
]

pub write-Writes :
    (c : Errno) (bytes : List ℕ) (s : Sink) (r : Result ℕ SysError) (sink : Sink)
    → write c bytes s ≡ some (r, sink)
    → Writes bytes s.written s.answers r sink
unfolding write
write-Writes c bytes s r sink h = write_loop-Writes c bytes s.written s.answers r sink h

-- Every coming answer moves a byte at least, if there is one to move.
abbrev pub Moves : List Answer → Type 0
Moves [] = Unit
Moves (transfer n ∷ answers) = (0 < n) × Moves answers
Moves (failed e ∷ answers) = ⊥
