-- ===== src/LowLevel/Io/Buffer/Returns.antt =====
-- BufferState::read_from_fd (low_level/io/buffer.rs) returns.
use core_shift.Base.{
  ℕ, zero, suc, ◌-◌, min, ◌<◌, ◌≡◌, refl, Bool, true, false, some, List, [], ◌∷◌, Result, ok, err,
  length, inl, inr, Bool-cases, ◌==◌, arith,
}
use core_shift.LowLevel.Libc.{Errno, SysError, syscall, would_block}
use core_shift.LowLevel.Fd.{Source, Answer}
use core_shift.LowLevel.Fd.Transfers.{Settles, Pending, read-returns, read-Reads}
use core_shift.LowLevel.Io.Buffer.{
  BufferState, EarlyExit, Round, go_on, return, exits, keep_round, discard_round, round,
  read_rounds, read_from_fd, read_chunk, Read,
}

-- The round returns, or what makes the stream settle is still to come.
abbrev Live : Errno → Round → List Answer → Type 0
Live c (go_on dest) answers = Settles c answers
Live c (return dest r) answers = Unit

discard_round-Live :
    (c : Errno) (dest : List ℕ) (r : Result (List ℕ) SysError) (answers : List Answer)
    → Pending c r answers
    → Live c (discard_round c dest r) answers
unfolding discard_round
discard_round-Live c dest (ok []) answers p = tt
discard_round-Live c dest (ok (b ∷ bytes)) answers p = p
discard_round-Live c dest (err (syscall code op)) answers p =
    elim (Bool-cases (would_block c code)) [ inl e ↦ rw e tt | inr e ↦ rw e tt ]

keep_round-Live :
    (c : Errno) (is_stdout : Bool) (early : EarlyExit) (dest : List ℕ)
    (r : Result (List ℕ) SysError) (answers : List Answer)
    → Pending c r answers
    → Live c (keep_round c is_stdout early dest r) answers
unfolding keep_round
keep_round-Live c is_stdout early dest (ok []) answers p = tt
keep_round-Live c is_stdout early dest (ok (b ∷ bytes)) answers p =
    elim (Bool-cases (exits is_stdout early (b ∷ bytes))) [ inl e ↦ rw e tt | inr e ↦ rw e p ]
keep_round-Live c is_stdout early dest (err (syscall code op)) answers p =
    elim (Bool-cases (would_block c code)) [ inl e ↦ rw e tt | inr e ↦ rw e tt ]

module _ (c : Errno) (limit : ℕ) (is_stdout : Bool) (early : EarlyExit) where
  abbrev Rounds : List ℕ → Source → Type 0
  Rounds dest source =
      (d : Round) × (s : Source) × (round c limit is_stdout early dest source ≡ some (d, s))
      × Live c d s.answers
      × (length s.answers < length source.answers)

  round-returns : (dest : List ℕ) (source : Source) → Settles c source.answers → Rounds dest source
  unfolding round
  round-returns dest source h = elim (Bool-cases ((limit - length dest) == 0)) [
    | inl full ↦
        let (r, s, e, p) = read-returns c 8192 source h in
        (
          discard_round c dest r,
          s,
          rw full (rw e refl),
          discard_round-Live c dest r s.answers p,
          (read-Reads c 8192 source r s e).used,
        )
    | inr room ↦
        let (r, s, e, p) = read-returns c (min (limit - length dest) read_chunk) source h in
        (
          keep_round c is_stdout early dest r,
          s,
          rw room (rw e refl),
          keep_round-Live c is_stdout early dest r s.answers p,
          (read-Reads c (min (limit - length dest) read_chunk) source r s e).used,
        )
  ]

  abbrev Returns : ℕ → List ℕ → Source → Type 0
  Returns fuel dest source =
      (out : Read) × (read_rounds fuel c limit is_stdout early dest source ≡ some out)

  after_round :
      (fuel : ℕ) (dest : List ℕ) (source : Source)
      → ((mid : List ℕ) (s : Source)
          → Settles c s.answers
          → length s.answers < fuel
          → Returns fuel mid s)
      → length source.answers < suc fuel
      → (d : Round) (s : Source) → round c limit is_stdout early dest source ≡ some (d, s)
      → Live c d s.answers
      → length s.answers < length source.answers
      → Returns (suc fuel) dest source
  unfolding read_rounds
  after_round fuel dest source others l (go_on mid) s e p less =
      let (out, f) = others mid s p (omega arith) in (out, rw (e, read_rounds) f)
  after_round fuel dest source others l (return mid r) s e p less =
      ((r, mid, s), rw (e, read_rounds))

  read_rounds-Returns :
      (fuel : ℕ) (dest : List ℕ) (source : Source)
      → Settles c source.answers
      → length source.answers < fuel
      → Returns fuel dest source
  read_rounds-Returns zero dest source h l = absurd (omega arith)
  read_rounds-Returns (suc fuel) dest source h l =
      let (d, s, e, p, less) = round-returns dest source h in
      after_round fuel dest source (read_rounds-Returns fuel) l d s e p less

-- A read of either stream returns, provided that the kernel at some point answers with an error
-- other than EINTR, as a non-blocking descriptor does when it has no more to give.
pub read_from_fd-returns :
    (c : Errno) (buffer : BufferState) (source : Source) (is_stdout : Bool) (early : EarlyExit)
    → Settles c source.answers
    → (out : Result Bool SysError × BufferState × Source) × (read_from_fd c buffer source is_stdout
          early
        ≡ some out)
unfolding read_from_fd
read_from_fd-returns c buffer source true early h =
    let ((r, dest, s), e) =
      read_rounds-Returns c buffer.limit true early (suc (length source.answers)) buffer.stdout
        source h (omega arith) in
    ((r, record buffer { stdout = dest }, s), rw (e, read_from_fd))
read_from_fd-returns c buffer source false early h =
    let ((r, dest, s), e) =
      read_rounds-Returns c buffer.limit false early (suc (length source.answers)) buffer.stderr
        source h (omega arith) in
    ((r, record buffer { stderr = dest }, s), rw (e, read_from_fd))
