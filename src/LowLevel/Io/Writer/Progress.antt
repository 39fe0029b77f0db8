-- ===== src/LowLevel/Io/Writer/Progress.antt =====
-- What WriterState::write_to_fd (low_level/io/writer.rs) has written when it returns.
use core_shift.Base.{
  ℕ, zero, suc, ◌+◌, ◌-◌, min, ◌≤◌, ◌<◌, ◌≡◌, refl, sym, subst_some, ap, ◌∙◌, Bool, true, false,
  Option, none, some, List, [], ◌∷◌, ◌++◌, Result, ok, err, length, length-take, length-drop, take,
  drop, take-take, take-add, take_all, inl, inr, Bool-cases, ltb, ltb→lt, ltb-false, arith,
  Option-cases,
}
use mathlib.Core.List.{append_assoc}
use core_shift.LowLevel.Libc.{Errno, SysError, syscall}
use core_shift.LowLevel.Fd.{Sink, Answer, transfer, failed, write}
use core_shift.LowLevel.Fd.Transfers.{sent, write-Writes, Moves}
use core_shift.LowLevel.Io.Writer.{
  WriterState, Round, go_on, keep, done, round, write_rounds, write_to_fd, write_chunk, Written,
}

-- The sink holds what it held before the writer began, and then the input up to the offset.
abbrev pub UpTo : List ℕ → List ℕ → ℕ → Sink → Type 0
UpTo before buf off sink = (off ≤ length buf) × (sink.written ≡ before ++ take off buf)

-- The writer is through and has dropped its input, or keeps it to go on from the offset.
abbrev pub Left : Bool → List ℕ → WriterState → Type 0
Left true buf w = w.buf ≡ none
Left false buf w = w.buf ≡ some buf

module _ (c : Errno) (before buf : List ℕ) where
  abbrev front : ℕ → List ℕ
  front off = take (min (length buf - off) write_chunk) (drop off buf)

  -- A write that takes `n` of the bytes offered moves the offset by `n`.
  advance :
      (off : ℕ) (sink : Sink) (r : Result ℕ SysError) (sink' : Sink)
      → UpTo before buf off sink
      → write c (front off) sink ≡ some (r, sink')
      → UpTo before buf (off + sent r) sink'
  advance off sink r sink' (fits, w) h =
      let writes = write-Writes c (front off) sink r sink' h in
      let within : sent r ≤ min (length buf - off) write_chunk =
        omega
          (arith, writes.within, length-take (min (length buf - off) write_chunk) (drop off buf)) in
      (
        omega arith,
        writes.front
            ∙ ap (λ t. t ++ take (sent r) (front off)) w
            ∙ append_assoc before (take off buf) (take (sent r) (front off))
            ∙ ap (λ t. before ++ t)
                (ap (λ t. take off buf ++ t) (take-take (sent r) _ (drop off buf) within)
                  ∙ sym (take-add off (sent r) buf)),
      )

  abbrev Decided : ℕ → Result ℕ SysError → Round → Type 0
  Decided off r (go_on off') = off' ≡ off + sent r
  Decided off r keep = sent r ≡ 0
  Decided off r done = sent r ≡ 0

  round-Decided : (off : ℕ) (r : Result ℕ SysError) → Decided off r (round c off r)
  unfolding round
  round-Decided off (ok zero) = refl
  round-Decided off (ok (suc n)) = refl
  round-Decided off (err (syscall code op)) = ground arith

  abbrev Outcome : Bool → WriterState → Sink → Type 0
  Outcome b w sink = UpTo before buf w.off sink × Left b buf w

  stay : (off : ℕ) (r : Result ℕ SysError) → sent r ≡ 0 → off + sent r ≡ off
  stay off r e = omega arith

  -- What is returned is what the branch builds.
  returned : (t u : Written) → some t ≡ some u → Outcome t.0 t.1 t.2 → Outcome u.0 u.1 u.2
  returned t u h o = subst_some (λ (v : Written). Outcome v.0 v.1 v.2) t u h o

  -- The rest of a round, once the write is known; `others` is the claim for the rounds that follow.
  after_write :
      (fuel off : ℕ) (sink' : Sink) (r : Result ℕ SysError) (b : Bool) (w : WriterState)
      (last : Sink)
      → ((off' : ℕ)
          → UpTo before buf off' sink'
          → write_rounds fuel c buf off' sink' ≡ some (b, w, last)
          → Outcome b w last)
      → UpTo before buf (off + sent r) sink'
      → (d : Round) → Decided off r d
      → (elim d as (λ x. Option Written) [
        | go_on off' ↦ write_rounds fuel c buf off' sink'
        | keep ↦ some (false, record { buf = some buf; off = off }, sink')
        | done ↦ some (true, record { buf = none; off = off }, sink')
      ])
        ≡ some (b, w, last)
      → Outcome b w last
  after_write fuel off sink' r b w last others up (go_on off') e h = others off' (rw e up) h
  after_write fuel off sink' r b w last others up keep e h =
      returned _ (b, w, last) h (rw (stay off r e) at up, refl)
  after_write fuel off sink' r b w last others up done e h =
      returned _ (b, w, last) h (rw (stay off r e) at up, refl)

  write_rounds-Outcome :
      (fuel off : ℕ) (sink : Sink) (b : Bool) (w : WriterState) (last : Sink)
      → UpTo before buf off sink
      → write_rounds fuel c buf off sink ≡ some (b, w, last)
      → Outcome b w last
  unfolding write_rounds
  write_rounds-Outcome zero off sink b w last up h = cc
  write_rounds-Outcome (suc fuel) off sink b w last up h =
      elim (Bool-cases (ltb off (length buf))) [
        | inl more ↦ elim (Option-cases (write c (front off) sink)) [
          | inl e ↦ cc (rw (more, e, write_rounds) at h)
          | inr ((r, sink'), e) ↦
              after_write fuel off sink' r b w last
                (λ off' u g. write_rounds-Outcome fuel off' sink' b w last u g)
                (advance off sink r sink' up e) (round c off r) (round-Decided off r)
                (rw (more, e, write_rounds) at h)
        ]
        | inr all ↦ returned _ (b, w, last) (rw (all, write_rounds) at h) (up, refl)
      ]

-- The error paths of a write all end the writer, so a call that returns never fails. With an input
-- of which the first `off` bytes are written, the bytes written are again a front of the input, up
-- to the new offset: nothing is skipped, repeated or put out of order, over any number of calls. If
-- the call returns false the input is kept for the next call, otherwise it is dropped.
pub write_to_fd-UpTo :
    (c : Errno) (before buf : List ℕ) (off : ℕ) (sink : Sink) (r : Result Bool SysError)
    (w : WriterState) (last : Sink)
    → UpTo before buf off sink
    → write_to_fd c (record { buf = some buf; off = off }) sink ≡ some (r, w, last)
    → (b : Bool) × (r ≡ ok b) × UpTo before buf w.off last × Left b buf w
unfolding write_to_fd
write_to_fd-UpTo c before buf off sink r w last up h =
    elim (Option-cases (write_rounds (suc (length sink.answers)) c buf off sink)) [
      | inl e ↦ cc (rw (e, write_to_fd) at h)
      | inr ((b, w', s), e) ↦
          let g : ◌≡◌ {A = Option (Result Bool SysError × WriterState × Sink)} (some (ok b, w', s))
              (some (r, w, last)) =
            rw (e, write_to_fd) at h in
          let (up', left) =
            write_rounds-Outcome c before buf (suc (length sink.answers)) off sink b w' s up e in
          subst_some
            (λ (v : Result Bool SysError × WriterState × Sink).
              (x : Bool) × (v.0 ≡ ok x) × UpTo before buf v.1.off v.2 × Left x buf v.1)
            (ok b, w', s) (r, w, last) g (b, refl, up', left)
    ]

module _ (c : Errno) (buf : List ℕ) where
  abbrev offered : ℕ → List ℕ
  offered off = take (min (length buf - off) write_chunk) (drop off buf)

  length-offered :
      (off n : ℕ) → length (take n (offered off)) ≡ min n (min (length buf - off) write_chunk)
  length-offered off n = omega (
    arith,
    length-take n (offered off),
    length-take (min (length buf - off) write_chunk) (drop off buf),
    length-drop off buf,
  )

  moved :
      (off n : ℕ)
      → 0 < n
      → off < length buf
      → length (take n (offered off)) ≡ suc (length (take n (offered off)) - 1)
  moved off n pos_n more = omega (arith, length-offered off n)

  bounded : (off n : ℕ) → length (take n (offered off)) ≤ length buf - off
  bounded off n = omega (arith, length-offered off n)

  step_rounds :
      (fuel off n k : ℕ) (written : List ℕ) (answers : List Answer)
      → ltb off (length buf) ≡ true
      → length (take n (offered off)) ≡ suc k
      → write_rounds
          (suc fuel)
          c
          buf
          off
          (record { written = written; answers = transfer n ∷ answers })
        ≡ write_rounds fuel c buf
            (off + suc k)
            (record { written = written ++ take n (offered off); answers = answers })
  unfolding write_rounds write
  step_rounds fuel off n k written answers more e = rw more (rw e refl)

  -- The writer ends with the whole input at the front of the rest that was offered.
  abbrev Delivers : ℕ → ℕ → Sink → Type 0
  Delivers fuel off sink =
      (last : Sink) × (write_rounds fuel c buf off sink
        ≡ some (true, record { buf = none; off = length buf }, last))

  delivers :
      (fuel off : ℕ) (written : List ℕ) (answers : List Answer)
      → Moves answers
      → off ≤ length buf
      → length buf - off ≤ length answers
      → length answers < fuel
      → Delivers fuel off (record { written = written; answers = answers })
  unfolding write_rounds write
  delivers zero off written answers t fits enough l = absurd (omega arith)
  delivers (suc fuel) off written [] t fits enough l =
      let end : off ≡ length buf = omega arith in
      (
        record { written = written; answers = [] },
        rw (ltb-false off (length buf) (omega arith)) (ground arith),
      )
  delivers (suc fuel) off written (failed e ∷ answers) t fits enough l = elim t [ ]
  delivers (suc fuel) off written (transfer n ∷ answers) t fits enough l =
      elim (Bool-cases (ltb off (length buf))) [
        | inl more ↦
            let m : ℕ = length (take n (offered off)) in
            let some_sent : m ≡ suc (m - 1) = moved off n t.0 (ltb→lt off (length buf) more) in
            let within : off + suc (m - 1) ≤ length buf = omega (arith, bounded off n) in
            let (last, e) =
              delivers fuel (off + suc (m - 1)) (written ++ take n (offered off)) answers t.1 within
                (omega arith) (omega arith) in
            (last, step_rounds fuel off n (m - 1) written answers more some_sent ∙ e)
        | inr all ↦
            let end : off ≡ length buf = ground arith in
            (record { written = written; answers = transfer n ∷ answers }, rw all (ground arith))
      ]

-- Where every coming answer takes a byte at least, and there are as many answers as bytes left, a
-- call writes the whole input: it returns true with the input dropped, and what it has written is
-- the input.
pub write_to_fd-delivers :
    (c : Errno) (before buf : List ℕ) (off : ℕ) (sink : Sink)
    → UpTo before buf off sink
    → Moves sink.answers
    → length buf - off ≤ length sink.answers
    → (last : Sink) × (write_to_fd c (record { buf = some buf; off = off }) sink
        ≡ some (ok true, record { buf = none; off = length buf }, last))
      × (last.written ≡ before ++ buf)
unfolding write_to_fd
write_to_fd-delivers c before buf off sink up t enough =
    let (last, e) =
      delivers c buf (suc (length sink.answers)) off sink.written sink.answers t up.0 enough
        (omega arith) in
    let out =
      write_rounds-Outcome c before buf (suc (length sink.answers)) off sink true _ last up e in
    (
      last,
      rw (e, write_to_fd),
      out.0.1 ∙ ap (λ t. before ++ t) (take_all (length buf) buf (omega arith)),
    )
