-- ===== src/LowLevel/Io/Drain.antt =====
-- low_level/io/drain.rs: DrainState, the three streams of a child over the buffer and the writer. A
-- descriptor that the state does not keep is closed by its drop.
pub mod Slots
use Prim.Native.Nat.{bit_or}
use core_shift.Base.{
  ℕ, ◌*◌, ◌^◌, Bool, true, false, Option, none, some, List, [], ◌∷◌, ◌++◌, Result, ok, err, ◌&&◌,
  not, is_some, ◌>>=◌,
}
use core_shift.LowLevel.Libc.{Errno, SysError}
use core_shift.LowLevel.Fd.{Source, Sink}
use core_shift.LowLevel.Io.Buffer
use core_shift.LowLevel.Io.Buffer.{BufferState, EarlyExit, read_from_fd}
use core_shift.LowLevel.Io.Writer
use core_shift.LowLevel.Io.Writer.{WriterState, write_to_fd}

pub record FdSlot : Type 0 where
  pub token : ℕ
  pub fd : ℕ

pub record DrainState : Type 0 where
  pub stdout_slot : Option FdSlot
  pub stderr_slot : Option FdSlot
  pub stdin_slot : Option FdSlot
  pub buffer : BufferState
  pub writer : WriterState
  pub early_exit : EarlyExit

-- `fd.set_nonblock()?` and the slot with the token `job_id | (kind << 60)`. The parameter gives the
-- kernel's answer on each descriptor.
unfoldable pub slot :
    (ℕ → Result (Unit {0}) SysError) → ℕ → ℕ → Option ℕ → Result (Option FdSlot) SysError
slot set_nonblock job_id kind none = ok none
slot set_nonblock job_id kind (some fd) = elim (set_nonblock fd) [
  | err e ↦ err e
  | ok _ ↦ ok (some (record { token = bit_or job_id (kind * 2 ^ 60); fd = fd }))
]

-- `if let (Some(fd), Some(_)) = (&stdin_fd, &stdin_buf)`.
unfoldable pub used_stdin : Option ℕ → Option (List ℕ) → Option ℕ
used_stdin (some fd) (some buf) = some fd
used_stdin _ _ = none

unfoldable pub new :
    (ℕ → Result (Unit {0}) SysError)
    → ℕ
    → Option ℕ
    → Option (List ℕ)
    → Option ℕ
    → Option ℕ
    → ℕ
    → EarlyExit
    → Result DrainState SysError
unfolding slot used_stdin
new set_nonblock job_id stdin_fd stdin_buf stdout_fd stderr_fd limit early = do
  stdin_slot ← slot set_nonblock job_id 1 (used_stdin stdin_fd stdin_buf)
  stdout_slot ← slot set_nonblock job_id 2 stdout_fd
  stderr_slot ← slot set_nonblock job_id 3 stderr_fd
  ok (record {
    stdout_slot = stdout_slot;
    stderr_slot = stderr_slot;
    stdin_slot = stdin_slot;
    buffer = Buffer.new limit;
    writer = Writer.new stdin_buf;
    early_exit = early;
  })

unfoldable pub is_done : DrainState → Bool
is_done d =
    not (is_some d.stdin_slot) && (not (is_some d.stdout_slot) && not (is_some d.stderr_slot))

abbrev pub Taken : Type 0
Taken = Result (Option FdSlot) SysError × DrainState

-- `sink` is the kernel's side of the descriptor in the slot.
unfoldable pub write_stdin : Errno → DrainState → Sink → Option (Taken × Sink)
write_stdin c d sink = elim d.stdin_slot [
  | none ↦ some ((ok none, d), sink)
  | some s ↦ elim (write_to_fd c d.writer sink) [
    | none ↦ none
    | some (err e, writer, sink') ↦ some ((err e, record d { writer = writer }), sink')
    | some (ok false, writer, sink') ↦ some ((ok none, record d { writer = writer }), sink')
    | some (ok true, writer, sink') ↦
        some ((ok (some s), record d { writer = writer; stdin_slot = none }), sink')
  ]
]

-- `self.stdout_slot.take()` or `self.stderr_slot.take()`.
unfoldable pub without : Bool → DrainState → DrainState
without true d = record d { stdout_slot = none }
without false d = record d { stderr_slot = none }

abbrev pub slot_of : Bool → DrainState → Option FdSlot
slot_of true d = d.stdout_slot
slot_of false d = d.stderr_slot

unfoldable pub read_fd : Errno → DrainState → Bool → Source → Option (Taken × Source)
unfolding without
read_fd c d is_stdout source = elim (slot_of is_stdout d) [
  | none ↦ some ((ok none, d), source)
  | some s ↦ elim (read_from_fd c d.buffer source is_stdout d.early_exit) [
    | none ↦ none
    | some (err e, buffer, source') ↦ some ((err e, record d { buffer = buffer }), source')
    | some (ok false, buffer, source') ↦ some ((ok none, record d { buffer = buffer }), source')
    | some (ok true, buffer, source') ↦
        some ((ok (some s), without is_stdout (record d { buffer = buffer })), source')
  ]
]

abbrev pub pushed : Option FdSlot → List FdSlot
pushed none = []
pushed (some s) = s ∷ []

unfoldable pub take_all_slots : DrainState → List FdSlot × DrainState
take_all_slots d = (
  pushed d.stdin_slot ++ (pushed d.stdout_slot ++ pushed d.stderr_slot),
  record d { stdin_slot = none; stdout_slot = none; stderr_slot = none },
)

unfoldable pub into_parts : DrainState → List ℕ × List ℕ
unfolding Buffer.into_parts
into_parts d = Buffer.into_parts d.buffer
