-- ===== src/LowLevel/Tests.antt =====
-- Runs of the descriptor loops (low_level/io).
use core_shift.Base.{
  ℕ, List, ◌+◌, ◌*◌, ◌^◌, ◌≡◌, refl, Bool, true, false, none, some, [], ◌∷◌, Result, ok, inl, inr,
  arith,
}
use core_shift.LowLevel.Libc.{SysError, linux}
use core_shift.LowLevel.Fd.{Source, Sink, transfer, failed}
use core_shift.LowLevel.Io.Drain
use core_shift.LowLevel.Io.Drain.{DrainState}
use core_shift.LowLevel.Io.Drain.Slots.{
  Turn, write_turn, read_turn, turns, in_slots, in_drain, drain_gives_back,
}
use core_shift.LowLevel.Io.Buffer
use core_shift.LowLevel.Io.Buffer.{BufferState, read_from_fd}
use core_shift.LowLevel.Io.Buffer.Capture.{Captures, stream, read_from_fd-Captures}
use core_shift.LowLevel.Io.Buffer.Returns.{read_from_fd-returns}
use core_shift.LowLevel.Io.Writer
use core_shift.LowLevel.Io.Writer.{WriterState, write_to_fd}
use core_shift.LowLevel.Io.Writer.Progress.{UpTo, Left, write_to_fd-UpTo, write_to_fd-delivers}

-- A limit of three bytes, one of them taken.
abbrev three_bytes : BufferState
three_bytes = record { stdout = 9 ∷ []; stderr = []; limit = 3 }

-- Four bytes come, in two reads with a signal between them; then the descriptor would block.
abbrev four_bytes : Source
four_bytes = record {
  pending = 1 ∷ 2 ∷ 3 ∷ 4 ∷ [];
  answers = transfer 2 ∷ failed 4 ∷ transfer 2 ∷ failed 11 ∷ [];
}

abbrev full : BufferState
full = record { stdout = 9 ∷ 1 ∷ 2 ∷ []; stderr = []; limit = 3 }

abbrev drained : Source
drained = record { pending = []; answers = [] }

-- The two bytes over the limit are read and thrown away.
read_four : read_from_fd linux three_bytes four_bytes true none ≡ some (ok false, full, drained)
unfolding read_from_fd Buffer.read_rounds Buffer.round Buffer.keep_round Buffer.discard_round
    Buffer.exits core_shift.LowLevel.Fd.read core_shift.LowLevel.Fd.read_loop
read_four = refl

read_from_fd-Captures_example :
    Captures 3 (9 ∷ []) four_bytes (9 ∷ 1 ∷ 2 ∷ []) drained
    × (stream false full ≡ stream false three_bytes)
    × (full.limit ≡ three_bytes.limit)
read_from_fd-Captures_example =
    read_from_fd-Captures linux three_bytes four_bytes true none (ok false) full drained read_four

read_from_fd-returns_example :
    (out : Result Bool SysError × BufferState × Source) × (read_from_fd linux three_bytes four_bytes
        true none
      ≡ some out)
read_from_fd-returns_example =
    read_from_fd-returns linux three_bytes four_bytes true none (inr (inl (omega arith)))

-- Two of three bytes are taken; then the descriptor would block.
abbrev two_of_three : Sink
two_of_three = record { written = []; answers = transfer 2 ∷ failed 11 ∷ [] }

write_two :
    write_to_fd linux (record { buf = some (5 ∷ 6 ∷ 7 ∷ []); off = 0 }) two_of_three
    ≡ some (
      ok false,
      record { buf = some (5 ∷ 6 ∷ 7 ∷ []); off = 2 },
      record { written = 5 ∷ 6 ∷ []; answers = [] },
    )
unfolding write_to_fd Writer.write_rounds Writer.round core_shift.LowLevel.Fd.write
    core_shift.LowLevel.Fd.write_loop
write_two = refl

abbrev blocked : Result Bool SysError
blocked = ok false

write_to_fd-UpTo_example :
    (b : Bool) × (blocked ≡ ok b)
    × UpTo [] (5 ∷ 6 ∷ 7 ∷ []) 2 (record { written = 5 ∷ 6 ∷ []; answers = [] })
    × Left b (5 ∷ 6 ∷ 7 ∷ []) (record { buf = some (5 ∷ 6 ∷ 7 ∷ []); off = 2 })
write_to_fd-UpTo_example =
    write_to_fd-UpTo linux [] (5 ∷ 6 ∷ 7 ∷ []) 0 two_of_three (ok false)
      (record { buf = some (5 ∷ 6 ∷ 7 ∷ []); off = 2 })
      (record { written = 5 ∷ 6 ∷ []; answers = [] }) (omega arith, refl) write_two

write_to_fd-delivers_example :
    (last : Sink) × (write_to_fd linux
        (record { buf = some (5 ∷ 6 ∷ []); off = 0 })
        (record { written = []; answers = transfer 1 ∷ transfer 9 ∷ [] })
      ≡ some (ok true, record { buf = none; off = 2 }, last))
    × (last.written ≡ 5 ∷ 6 ∷ [])
write_to_fd-delivers_example =
    write_to_fd-delivers linux [] (5 ∷ 6 ∷ []) 0
      (record { written = []; answers = transfer 1 ∷ transfer 9 ∷ [] }) (omega arith, refl)
      (omega arith, (omega arith, tt)) (omega arith)

-- A child of job 5 whose output is read on descriptor 21 and whose input is written on 20.
abbrev child : DrainState
child = record {
  stdout_slot = some (record { token = 5 + 2 * 2 ^ 60; fd = 21 });
  stderr_slot = none;
  stdin_slot = some (record { token = 5 + 2 ^ 60; fd = 20 });
  buffer = three_bytes;
  writer = record { buf = some (5 ∷ 6 ∷ []); off = 0 };
  early_exit = none;
}

-- The tokens that `new` gives.
new-child :
    Drain.new (λ fd. ok tt) 5 (some 20) (some (5 ∷ 6 ∷ [])) (some 21) none 3 none
    ≡ ok (record child { buffer = Buffer.new 3 })
unfolding Drain.new Drain.slot Drain.used_stdin Buffer.new Writer.new
new-child = refl

-- The output would block; the input is written whole and its slot comes back.
abbrev child_turns : List Turn
child_turns =
    read_turn true four_bytes ∷ write_turn (record { written = []; answers = transfer 9 ∷ [] }) ∷ []

abbrev child_left : DrainState
child_left = record child {
  stdin_slot = none;
  buffer = full;
  writer = record { buf = none; off = 2 };
}

child_run :
    turns linux child child_turns ≡ some (record { token = 5 + 2 ^ 60; fd = 20 } ∷ [], child_left)
unfolding Drain.read_fd Drain.write_stdin Drain.without read_from_fd Buffer.read_rounds Buffer.round
    Buffer.keep_round Buffer.discard_round Buffer.exits core_shift.LowLevel.Fd.read
    core_shift.LowLevel.Fd.read_loop write_to_fd Writer.write_rounds Writer.round
    core_shift.LowLevel.Fd.write core_shift.LowLevel.Fd.write_loop
child_run = refl

drain_gives_back_example :
    ((fd : ℕ)
      → in_slots fd (record { token = 5 + 2 ^ 60; fd = 20 } ∷ [])
          + in_slots fd (Drain.take_all_slots child_left).0
        ≡ in_drain fd child)
    × (Drain.is_done (Drain.take_all_slots child_left).1 ≡ true)
drain_gives_back_example =
    drain_gives_back linux child child_turns (record { token = 5 + 2 ^ 60; fd = 20 } ∷ [])
      child_left child_run
