-- ===== src/LowLevel/Io/Writer.antt =====
-- low_level/io/writer.rs: WriterState, which writes the child's input in pieces.
pub mod Progress
pub mod Returns
use core_shift.Base.{
  ℕ, zero, suc, ◌+◌, ◌-◌, min, Bool, true, false, Option, none, some, List, [], ◌∷◌, Result, ok,
  err, length, take, drop, ltb, ◌==◌, if◌then◌else◌,
}
use core_shift.LowLevel.Libc.{Errno, SysError, syscall, would_block}
use core_shift.LowLevel.Fd.{Sink, write}

abbrev pub write_chunk : ℕ
write_chunk = 65536

pub record WriterState : Type 0 where
  pub buf : Option (List ℕ)
  pub off : ℕ

unfoldable pub new : Option (List ℕ) → WriterState
new buf = record { buf = buf; off = 0 }

-- What a round of the loop decides: to go on at an offset, or to return with the buffer kept or
-- dropped.
pub data Round : Type 0 where
  go_on : ℕ → Round
  keep : Round
  done : Round

-- The match on what was written.
unfoldable pub round : Errno → ℕ → Result ℕ SysError → Round
round c off (ok zero) = done
round c off (ok (suc n)) = go_on (off + suc n)
round c off (err (syscall code op)) =
    if would_block c code then keep else if code == c.epipe then done else done

abbrev pub Written : Type 0
Written = Bool × WriterState × Sink

-- `while self.off < buf.len()`, with fuel for its rounds. `none`: out of fuel, or the kernel's
-- answers are described no further.
unfoldable pub write_rounds : ℕ → Errno → List ℕ → ℕ → Sink → Option Written
unfolding round
write_rounds zero c buf off sink = none
write_rounds (suc fuel) c buf off sink =
    if ltb off (length buf)
    then (elim (write c (take (min (length buf - off) write_chunk) (drop off buf)) sink) [
      | none ↦ none
      | some (r, sink') ↦ elim (round c off r) [
        | go_on off' ↦ write_rounds fuel c buf off' sink'
        | keep ↦ some (false, record { buf = some buf; off = off }, sink')
        | done ↦ some (true, record { buf = none; off = off }, sink')
      ]
    ])
    else some (true, record { buf = none; off = off }, sink)

-- Every round but the last takes an answer of the kernel.
unfoldable pub write_to_fd :
    Errno → WriterState → Sink → Option (Result Bool SysError × WriterState × Sink)
unfolding write_rounds
write_to_fd c w sink = elim w.buf [
  | none ↦ some (ok true, w, sink)
  | some buf ↦ elim (write_rounds (suc (length sink.answers)) c buf w.off sink) [
    | none ↦ none
    | some (finished, w', sink') ↦ some (ok finished, w', sink')
  ]
]
