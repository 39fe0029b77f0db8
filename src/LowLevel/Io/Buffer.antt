-- ===== src/LowLevel/Io/Buffer.antt =====
-- low_level/io/buffer.rs: BufferState, which captures up to `limit` bytes of each stream.
pub mod Capture
pub mod Returns
use core_shift.Base.{
  ℕ, zero, suc, ◌+◌, ◌-◌, min, Bool, true, false, Option, none, some, List, [], ◌∷◌, ◌++◌, Result,
  ok, err, length, ltb, ◌==◌, ◌&&◌, if◌then◌else◌,
}
use core_shift.LowLevel.Libc.{Errno, SysError, syscall, would_block}
use core_shift.LowLevel.Fd.{Source, read}

abbrev pub read_chunk : ℕ
read_chunk = 65536

pub record BufferState : Type 0 where
  pub stdout : List ℕ
  pub stderr : List ℕ
  pub limit : ℕ

unfoldable pub new : ℕ → BufferState
new limit = record { stdout = []; stderr = []; limit = limit }

abbrev pub EarlyExit : Type 0
EarlyExit = Option (List ℕ → Bool)

-- What a round of the loop decides: to go on with a buffer, or to return.
pub data Round : Type 0 where
  go_on : List ℕ → Round
  return : List ℕ → Result Bool SysError → Round

-- `if is_stdout { if let Some(f) = early_exit { if f(…) { return … } } }`.
unfoldable pub exits : Bool → EarlyExit → List ℕ → Bool
exits false early chunk = false
exits true none chunk = false
exits true (some f) chunk = f chunk

-- The match on what was read, below the limit.
unfoldable pub keep_round : Errno → Bool → EarlyExit → List ℕ → Result (List ℕ) SysError → Round
unfolding exits
keep_round c is_stdout early dest (ok []) = return dest (ok true)
keep_round c is_stdout early dest (ok (b ∷ bytes)) =
    let dest' = dest ++ (b ∷ bytes) in
    if exits is_stdout early (b ∷ bytes) then return dest' (ok true) else go_on dest'
keep_round c is_stdout early dest (err (syscall code op)) =
    if would_block c code then return dest (ok false) else return dest (err (syscall code op))

-- The match on what was read at the limit, where it is thrown away.
unfoldable pub discard_round : Errno → List ℕ → Result (List ℕ) SysError → Round
discard_round c dest (ok []) = return dest (ok true)
discard_round c dest (ok (b ∷ bytes)) = go_on dest
discard_round c dest (err (syscall code op)) =
    if would_block c code then return dest (ok false) else return dest (err (syscall code op))

abbrev pub on_read :
    (Result (List ℕ) SysError → Round)
    → Option (Result (List ℕ) SysError × Source)
    → Option (Round × Source)
on_read f none = none
on_read f (some (r, source)) = some (f r, source)

unfoldable pub round : Errno → ℕ → Bool → EarlyExit → List ℕ → Source → Option (Round × Source)
unfolding keep_round discard_round
round c limit is_stdout early dest source =
    let remaining_limit = limit - length dest in
    if remaining_limit == 0
    then on_read (discard_round c dest) (read c 8192 source)
    else on_read (keep_round c is_stdout early dest)
        (read c (min remaining_limit read_chunk) source)

abbrev pub Read : Type 0
Read = Result Bool SysError × List ℕ × Source

-- The loop, with fuel for its rounds.
unfoldable pub read_rounds : ℕ → Errno → ℕ → Bool → EarlyExit → List ℕ → Source → Option Read
unfolding round
read_rounds zero c limit is_stdout early dest source = none
read_rounds (suc fuel) c limit is_stdout early dest source =
    elim (round c limit is_stdout early dest source) [
      | none ↦ none
      | some (go_on dest', source') ↦ read_rounds fuel c limit is_stdout early dest' source'
      | some (return dest' r, source') ↦ some (r, dest', source')
    ]

-- Each round takes an answer of the kernel, so one more round than answers is enough.
unfoldable pub read_from_fd :
    Errno
    → BufferState
    → Source
    → Bool
    → EarlyExit
    → Option (Result Bool SysError × BufferState × Source)
unfolding read_rounds
read_from_fd c buffer source true early =
    elim (read_rounds (suc (length source.answers)) c buffer.limit true early buffer.stdout
      source) [
        | none ↦ none
        | some (r, dest, source') ↦ some (r, record buffer { stdout = dest }, source')
      ]
read_from_fd c buffer source false early =
    elim (read_rounds (suc (length source.answers)) c buffer.limit false early buffer.stderr
      source) [
        | none ↦ none
        | some (r, dest, source') ↦ some (r, record buffer { stderr = dest }, source')
      ]

unfoldable pub into_parts : BufferState → List ℕ × List ℕ
into_parts buffer = (buffer.stdout, buffer.stderr)
