-- ===== src/LowLevel/Io/Buffer/Capture.antt =====
-- What BufferState::read_from_fd (low_level/io/buffer.rs) keeps of a stream.
use core_shift.Base.{
  ℕ, zero, suc, ◌-◌, min, ◌≤◌, ◌<◌, ◌≡◌, refl, sym, ap, ◌∙◌, Bool, true, false, not, Option, none,
  some, List, [], ◌∷◌, ◌++◌, Result, ok, err, length, length-append, length-take, take, take-append,
  take_all, inl, inr, Bool-cases, ◌==◌, arith, Option-cases,
}
use mathlib.Core.List.{append-nil, append_assoc}
use core_shift.LowLevel.Libc.{Errno, SysError, syscall}
use core_shift.LowLevel.Fd.{Source, read}
use core_shift.LowLevel.Fd.Transfers.{got, read-Reads}
use core_shift.LowLevel.Io.Buffer.{
  BufferState, EarlyExit, Round, go_on, return, keep_round, discard_round, round, on_read,
  read_rounds, read_from_fd, read_chunk, Read,
}

-- From `source` to `source'` some bytes were consumed, and of these exactly those below the limit
-- were added to the buffer.
abbrev pub Captures : ℕ → List ℕ → Source → List ℕ → Source → Type 0
Captures limit dest source dest' source' =
    (bytes : List ℕ) × (source.pending ≡ bytes ++ source'.pending)
    × (dest' ≡ dest ++ take (limit - length dest) bytes)

-- The limit is left by what a first capture left of it.
take-split :
    (limit : ℕ) (dest xs ys : List ℕ)
    → (dest ++ take (limit - length dest) xs)
        ++ take (limit - length (dest ++ take (limit - length dest) xs)) ys
      ≡ dest ++ take (limit - length dest) (xs ++ ys)
take-split limit dest xs ys =
    append_assoc dest _ _
    ∙ ap (λ t. dest ++ t)
        (ap (λ n. take (limit - length dest) xs ++ take n ys) room
          ∙ sym (take-append (limit - length dest) xs ys))
  where
    room : limit - length (dest ++ take (limit - length dest) xs) ≡ limit - length dest - length xs
    room = omega (
      arith,
      length-append dest (take (limit - length dest) xs),
      length-take (limit - length dest) xs,
    )

Captures-trans :
    (limit : ℕ) (dest : List ℕ) (source : Source) (dest' : List ℕ) (source' : Source)
    (dest'' : List ℕ) (source'' : Source)
    → Captures limit dest source dest' source'
    → Captures limit dest' source' dest'' source''
    → Captures limit dest source dest'' source''
Captures-trans limit dest source dest' source' dest'' source'' (xs, p, e) (ys, q, f) = (
  xs ++ ys,
  p ∙ ap (λ t. xs ++ t) q ∙ sym (append_assoc xs ys source''.pending),
  f ∙ ap (λ t. t ++ take (limit - length t) ys) e ∙ take-split limit dest xs ys,
)

-- The buffer that a round leaves.
abbrev kept : Round → List ℕ
kept (go_on dest) = dest
kept (return dest r) = dest

discard_round-kept :
    (c : Errno) (dest : List ℕ) (r : Result (List ℕ) SysError)
    → kept (discard_round c dest r) ≡ dest
unfolding discard_round
discard_round-kept c dest (ok []) = refl
discard_round-kept c dest (ok (b ∷ bytes)) = refl
discard_round-kept c dest (err (syscall code op)) = ground arith

keep_round-kept :
    (c : Errno) (is_stdout : Bool) (early : EarlyExit) (dest : List ℕ)
    (r : Result (List ℕ) SysError)
    → kept (keep_round c is_stdout early dest r) ≡ dest ++ got r
unfolding keep_round
keep_round-kept c is_stdout early dest (ok []) = sym (append-nil dest)
keep_round-kept c is_stdout early dest (ok (b ∷ bytes)) = ground arith
keep_round-kept c is_stdout early dest (err (syscall code op)) = ground (arith, append-nil dest)

on_read-eq-some :
    (f : Result (List ℕ) SysError → Round) (o : Option (Result (List ℕ) SysError × Source))
    (d : Round) (source : Source)
    → on_read f o ≡ some (d, source)
    → (r : Result (List ℕ) SysError) × (o ≡ some (r, source)) × (d ≡ f r)
on_read-eq-some f none d source h = cc
on_read-eq-some f (some (r, s)) d source h = (r, ground arith, ground arith)

-- One round captures what it reads, and uses up an answer.
module _ (c : Errno) (limit : ℕ) (is_stdout : Bool) (early : EarlyExit) (dest : List ℕ)
    (source : Source) (d : Round) (source' : Source) where
  abbrev Progress : Type 0
  Progress =
      Captures limit dest source (kept d) source' × (length source'.answers < length source.answers)

  at_limit :
      limit ≤ length dest
      → on_read (discard_round c dest) (read c 8192 source) ≡ some (d, source')
      → Progress
  at_limit full h =
      let (r, e, f) = on_read-eq-some (discard_round c dest) (read c 8192 source) d source' h in
      let reads = read-Reads c 8192 source r source' e in
      let none_left : limit - length dest ≡ 0 = omega arith in
      (
        (
          got r,
          reads.front,
          ap kept f ∙ discard_round-kept c dest r ∙ rw none_left (sym (append-nil dest)),
        ),
        reads.used,
      )

  below :
      on_read
          (keep_round c is_stdout early dest)
          (read c (min (limit - length dest) read_chunk) source)
        ≡ some (d, source')
      → Progress
  below h =
      let (r, e, f) =
        on_read-eq-some (keep_round c is_stdout early dest)
          (read c (min (limit - length dest) read_chunk) source) d source' h in
      let reads = read-Reads c (min (limit - length dest) read_chunk) source r source' e in
      let fits : length (got r) ≤ limit - length dest = omega (arith, reads.within) in
      (
        (
          got r,
          reads.front,
          ap kept f
              ∙ keep_round-kept c is_stdout early dest r
              ∙ ap (λ t. dest ++ t) (sym (take_all (limit - length dest) (got r) fits)),
        ),
        reads.used,
      )

  round-Progress : round c limit is_stdout early dest source ≡ some (d, source') → Progress
  unfolding round
  round-Progress h = elim (Bool-cases ((limit - length dest) == 0)) [
    | inl full ↦ at_limit (ground arith) (rw full at h)
    | inr room ↦ below (rw room at h)
  ]

read_rounds-Captures :
    (fuel : ℕ) (c : Errno) (limit : ℕ) (is_stdout : Bool) (early : EarlyExit) (dest : List ℕ)
    (source : Source) (r : Result Bool SysError) (dest' : List ℕ) (source' : Source)
    → read_rounds fuel c limit is_stdout early dest source ≡ some (r, dest', source')
    → Captures limit dest source dest' source'
unfolding read_rounds
read_rounds-Captures zero c limit is_stdout early dest source r dest' source' h = cc
read_rounds-Captures (suc fuel) c limit is_stdout early dest source r dest' source' h =
    elim (Option-cases (round c limit is_stdout early dest source)) [
      | inl e ↦ cc (rw (e, read_rounds) at h)
      | inr ((go_on mid, s), e) ↦
          Captures-trans limit dest source mid s dest' source'
            (round-Progress c limit is_stdout early dest source (go_on mid) s e).0
            (read_rounds-Captures fuel c limit is_stdout early mid s r dest' source'
              (rw (e, read_rounds) at h))
      | inr ((return mid q, s), e) ↦
          finish mid q s (rw (e, read_rounds) at h)
            (round-Progress c limit is_stdout early dest source (return mid q) s e).0
    ]
  where
    finish :
        (mid : List ℕ) (q : Result Bool SysError) (s : Source)
        → ◌≡◌ {A = Option Read} (some (q, mid, s)) (some (r, dest', source'))
        → Captures limit dest source mid s
        → Captures limit dest source dest' source'
    finish mid q s e (bytes, p, f) = (bytes, ground arith, ground arith)

-- The stream that a read is for.
abbrev pub stream : Bool → BufferState → List ℕ
stream true buffer = buffer.stdout
stream false buffer = buffer.stderr

module _ (buffer : BufferState) (source : Source) (q r : Result Bool SysError) (dest : List ℕ)
    (s : Source) (buffer' : BufferState) (source' : Source) where
  stored_stdout :
      ◌≡◌ {A = Option (Result Bool SysError × BufferState × Source)}
        (some (q, record buffer { stdout = dest }, s))
        (some (r, buffer', source'))
      → Captures buffer.limit buffer.stdout source dest s
      → Captures buffer.limit buffer.stdout source buffer'.stdout source'
        × (buffer'.stderr ≡ buffer.stderr)
        × (buffer'.limit ≡ buffer.limit)
  stored_stdout e (bytes, p, f) = ((bytes, ground arith, ground arith), ground arith, ground arith)

  stored_stderr :
      ◌≡◌ {A = Option (Result Bool SysError × BufferState × Source)}
        (some (q, record buffer { stderr = dest }, s))
        (some (r, buffer', source'))
      → Captures buffer.limit buffer.stderr source dest s
      → Captures buffer.limit buffer.stderr source buffer'.stderr source'
        × (buffer'.stdout ≡ buffer.stdout)
        × (buffer'.limit ≡ buffer.limit)
  stored_stderr e (bytes, p, f) = ((bytes, ground arith, ground arith), ground arith, ground arith)

-- Whenever a read returns, it has consumed the front of what the stream supplies, and its buffer
-- has grown by exactly the bytes of that front which still fit below the limit, in their order; the
-- other stream's buffer and the limit are as before.
pub read_from_fd-Captures :
    (c : Errno) (buffer : BufferState) (source : Source) (is_stdout : Bool) (early : EarlyExit)
    (r : Result Bool SysError) (buffer' : BufferState) (source' : Source)
    → read_from_fd c buffer source is_stdout early ≡ some (r, buffer', source')
    → Captures buffer.limit (stream is_stdout buffer) source (stream is_stdout buffer') source'
      × (stream (not is_stdout) buffer' ≡ stream (not is_stdout) buffer)
      × (buffer'.limit ≡ buffer.limit)
unfolding read_from_fd
read_from_fd-Captures c buffer source true early r buffer' source' h =
    elim (Option-cases
      (read_rounds (suc (length source.answers)) c buffer.limit true early buffer.stdout source)) [
        | inl e ↦ cc (rw (e, read_from_fd) at h)
        | inr ((q, dest, s), e) ↦
            stored_stdout buffer source q r dest s buffer' source' (rw (e, read_from_fd) at h) (
              read_rounds-Captures (suc (length source.answers)) c buffer.limit true early
                buffer.stdout source q dest s e)
      ]
read_from_fd-Captures c buffer source false early r buffer' source' h =
    elim (Option-cases
      (read_rounds (suc (length source.answers)) c buffer.limit false early buffer.stderr source)) [
        | inl e ↦ cc (rw (e, read_from_fd) at h)
        | inr ((q, dest, s), e) ↦
            stored_stderr buffer source q r dest s buffer' source' (rw (e, read_from_fd) at h) (
              read_rounds-Captures (suc (length source.answers)) c buffer.limit false early
                buffer.stderr source q dest s e)
      ]

-- A read that returns never grows a buffer that is within the limit past it.
pub read_from_fd_bounded :
    (c : Errno) (buffer : BufferState) (source : Source) (is_stdout : Bool) (early : EarlyExit)
    (r : Result Bool SysError) (buffer' : BufferState) (source' : Source)
    → length (stream is_stdout buffer) ≤ buffer.limit
    → read_from_fd c buffer source is_stdout early ≡ some (r, buffer', source')
    → length (stream is_stdout buffer') ≤ buffer'.limit
read_from_fd_bounded c buffer source is_stdout early r buffer' source' fits h =
    let ((bytes, p, e), other, same) =
      read_from_fd-Captures c buffer source is_stdout early r buffer' source' h in
    omega (
      arith,
      ap length e,
      length-append (stream is_stdout buffer)
          (take (buffer.limit - length (stream is_stdout buffer)) bytes),
      length-take (buffer.limit - length (stream is_stdout buffer)) bytes,
    )
