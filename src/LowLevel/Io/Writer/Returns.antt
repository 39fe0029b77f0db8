-- ===== src/LowLevel/Io/Writer/Returns.antt =====
-- The rounds of WriterState::write_to_fd (low_level/io/writer.rs).
use core_shift.Base.{
  ℕ, zero, suc, ◌-◌, min, ◌<◌, ◌≡◌, refl, sym, subst, Bool, true, false, Option, none, some, List,
  Result, ok, err, length, drop, take, inl, inr, Bool-cases, ◌==◌, ltb, arith,
}
use core_shift.LowLevel.Libc.{Errno, SysError, syscall, would_block}
use core_shift.LowLevel.Fd.{Sink, Answer, write}
use core_shift.LowLevel.Fd.Transfers.{Settles, write-Writes}
use core_shift.LowLevel.Fd.Written.{WritePending, write-returns}
use core_shift.LowLevel.Io.Writer.{
  WriterState, Round, Written, go_on, keep, done, round, write_rounds, write_to_fd, write_chunk,
}

-- The round returns, or what makes the descriptor settle is still to come.
abbrev Live : Errno → Round → List Answer → Type 0
Live c (go_on off) answers = Settles c answers
Live c keep answers = Unit
Live c done answers = Unit

round-Live :
    (c : Errno) (off : ℕ) (r : Result ℕ SysError) (answers : List Answer)
    → WritePending c r answers
    → Live c (round c off r) answers
unfolding round
round-Live c off (ok zero) answers p = tt
round-Live c off (ok (suc n)) answers p = p
round-Live c off (err (syscall code op)) answers p = elim (Bool-cases (would_block c code)) [
  | inl e ↦ rw (e, round, Live) tt
  | inr e ↦ elim (Bool-cases (code == c.epipe)) [
    | inl f ↦ rw (e, f, round, Live) tt
    | inr f ↦ rw (e, f, round, Live) tt
  ]
]

module _ (c : Errno) (buf : List ℕ) where
  abbrev offered : ℕ → List ℕ
  offered off = take (min (length buf - off) write_chunk) (drop off buf)

  abbrev Returns : ℕ → ℕ → Sink → Type 0
  Returns fuel off sink = (out : Written) × (write_rounds fuel c buf off sink ≡ some out)

  after_write :
      (fuel off : ℕ) (sink : Sink)
      → ((off' : ℕ) (s : Sink)
          → Settles c s.answers
          → length s.answers < fuel
          → Returns fuel off' s)
      → length sink.answers < suc fuel
      → ltb off (length buf) ≡ true
      → (d : Round) (r : Result ℕ SysError) (s : Sink) → write c (offered off) sink ≡ some (r, s)
      → round c off r ≡ d
      → Live c d s.answers
      → length s.answers < length sink.answers
      → Returns (suc fuel) off sink
  unfolding write_rounds
  after_write fuel off sink others l more (go_on off') r s e f p less =
      let (out, g) = others off' s p (omega arith) in (out, rw (more, e, f, write_rounds) g)
  after_write fuel off sink others l more keep r s e f p less =
      ((false, record { buf = some buf; off = off }, s), rw (more, e, f, write_rounds) refl)
  after_write fuel off sink others l more done r s e f p less =
      ((true, record { buf = none; off = off }, s), rw (more, e, f, write_rounds) refl)

  write_rounds-Returns :
      (fuel off : ℕ) (sink : Sink)
      → Settles c sink.answers
      → length sink.answers < fuel
      → Returns fuel off sink
  unfolding write_rounds
  write_rounds-Returns zero off sink h l = absurd (omega arith)
  write_rounds-Returns (suc fuel) off sink h l = elim (Bool-cases (ltb off (length buf))) [
    | inl more ↦
        let (r, s, e, p) = write-returns c (offered off) sink h in
        after_write fuel off sink (write_rounds-Returns fuel) l more (round c off r) r s e refl
          (round-Live c off r s.answers p) (write-Writes c (offered off) sink r s e).used
    | inr through ↦
        ((true, record { buf = none; off = off }, sink), rw (through, write_rounds) refl)
  ]

abbrev pub Called : Type 0
Called = Result Bool SysError × WriterState × Sink

-- The match on the input that is left.
write_left : Errno → WriterState → Sink → Option (List ℕ) → Option Called
write_left c w sink none = some (ok true, w, sink)
write_left c w sink (some buf) = elim (write_rounds (suc (length sink.answers)) c buf w.off sink) [
  | none ↦ none
  | some (finished, w', sink') ↦ some (ok finished, w', sink')
]

write_to_fd-left :
    (c : Errno) (w : WriterState) (sink : Sink) → write_to_fd c w sink ≡ write_left c w sink w.buf
unfolding write_to_fd write_left
write_to_fd-left c w sink = ground arith

write_left-returns :
    (c : Errno) (w : WriterState) (sink : Sink) (o : Option (List ℕ))
    → Settles c sink.answers
    → (out : Called) × (write_left c w sink o ≡ some out)
unfolding write_left
write_left-returns c w sink none h = ((ok true, w, sink), refl)
write_left-returns c w sink (some buf) h =
    let ((finished, w', s), f) =
      write_rounds-Returns c buf (suc (length sink.answers)) w.off sink h (omega arith) in
    ((ok finished, w', s), rw (f, write_left) refl)

-- A write returns, provided that the kernel at some point answers with an error other than EINTR, as
-- a non-blocking descriptor does when it takes no more.
pub write_to_fd-returns :
    (c : Errno) (w : WriterState) (sink : Sink)
    → Settles c sink.answers
    → (out : Called) × (write_to_fd c w sink ≡ some out)
write_to_fd-returns c w sink h =
    subst (λ r. (out : Called) × (r ≡ some out)) (sym (write_to_fd-left c w sink))
      (write_left-returns c w sink w.buf h)
