-- ===== src/LowLevel/Io/Drain/Slots.antt =====
-- Where the descriptors of a drain go (low_level/io/drain.rs): each is given back once.
use core_shift.Base.{
  ℕ, ◌+◌, ◌≡◌, refl, ap, Bool, true, false, Option, none, some, List, [], ◌∷◌, ◌++◌, Result, ok,
  err, arith, Option-cases, inl, inr, if◌then◌else◌, ◌==◌,
}
use core_shift.LowLevel.Libc.{Errno, SysError}
use core_shift.LowLevel.Fd.{Source, Sink}
use core_shift.LowLevel.Io.Buffer.{read_from_fd}
use core_shift.LowLevel.Io.Writer.{write_to_fd}
use core_shift.LowLevel.Io.Drain.{
  FdSlot, DrainState, Taken, is_done, write_stdin, without, read_fd, pushed, take_all_slots,
}

-- How often a descriptor stands in a slot, in a list of slots, and in a drain.
abbrev pub in_slot : ℕ → Option FdSlot → ℕ
in_slot fd none = 0
in_slot fd (some s) = if s.fd == fd then 1 else 0

abbrev pub in_slots : ℕ → List FdSlot → ℕ
in_slots fd [] = 0
in_slots fd (s ∷ slots) = in_slot fd (some s) + in_slots fd slots

abbrev pub in_drain : ℕ → DrainState → ℕ
in_drain fd d = in_slot fd d.stdin_slot + (in_slot fd d.stdout_slot + in_slot fd d.stderr_slot)

-- The slot that a call gives back.
abbrev pub given : Result (Option FdSlot) SysError → List FdSlot
given (ok o) = pushed o
given (err e) = []

-- A call on a drain, with the kernel's side of its descriptor.
pub data Turn : Type 0 where
  write_turn : Sink → Turn
  read_turn : Bool → Source → Turn

abbrev with_given {ℓ} : {K : Type ℓ} → Option (Taken × K) → Option (List FdSlot × DrainState)
with_given none = none
with_given (some ((r, d), k)) = some (given r, d)

abbrev pub turn : Errno → DrainState → Turn → Option (List FdSlot × DrainState)
turn c d (write_turn sink) = with_given (write_stdin c d sink)
turn c d (read_turn is_stdout source) = with_given (read_fd c d is_stdout source)

abbrev appended :
    List FdSlot → Option (List FdSlot × DrainState) → Option (List FdSlot × DrainState)
appended slots none = none
appended slots (some (rest, last)) = some (slots ++ rest, last)

abbrev and_then :
    Option (List FdSlot × DrainState)
    → (DrainState → Option (List FdSlot × DrainState))
    → Option (List FdSlot × DrainState)
and_then none f = none
and_then (some (slots, d)) f = appended slots (f d)

-- The calls in any order, and the slots that they give back.
abbrev pub turns : Errno → DrainState → List Turn → Option (List FdSlot × DrainState)
turns c d [] = some ([], d)
turns c d (t ∷ more) = and_then (turn c d t) (λ d'. turns c d' more)

in_slots-append :
    (fd : ℕ) (xs ys : List FdSlot) → in_slots fd (xs ++ ys) ≡ in_slots fd xs + in_slots fd ys
in_slots-append fd [] ys = omega arith
in_slots-append fd (x ∷ xs) ys = omega (arith, in_slots-append fd xs ys)

in_slots-pushed : (fd : ℕ) (o : Option FdSlot) → in_slots fd (pushed o) ≡ in_slot fd o
in_slots-pushed fd none = refl
in_slots-pushed fd (some s) = omega arith

module _ (c : Errno) (fd : ℕ) where
  -- What is given back and what is left make up what was there.
  abbrev Accounts : DrainState → Option (List FdSlot × DrainState) → Type 0
  Accounts d none = Unit
  Accounts d (some (slots, d')) = in_drain fd d ≡ in_slots fd slots + in_drain fd d'

  write_stdin-Accounts : (d : DrainState) (sink : Sink) → Accounts d (turn c d (write_turn sink))
  unfolding write_stdin
  write_stdin-Accounts d sink = elim (Option-cases d.stdin_slot) [
    | inl e ↦ rw (e, write_stdin) (omega (arith, ap (in_slot fd) e))
    | inr (s, e) ↦ elim (Option-cases (write_to_fd c d.writer sink)) [
      | inl f ↦ rw (e, f, write_stdin) tt
      | inr ((err x, writer, last), f) ↦ rw (e, f, write_stdin) (omega (arith, ap (in_slot fd) e))
      | inr ((ok false, writer, last), f) ↦
          rw (e, f, write_stdin) (omega (arith, ap (in_slot fd) e))
      | inr ((ok true, writer, last), f) ↦ rw (e, f, write_stdin) (omega (arith, ap (in_slot fd) e))
    ]
  ]

  read_fd-Accounts :
      (d : DrainState) (is_stdout : Bool) (source : Source)
      → Accounts d (turn c d (read_turn is_stdout source))
  unfolding read_fd without
  read_fd-Accounts d true source = elim (Option-cases d.stdout_slot) [
    | inl e ↦ rw (e, read_fd) (omega (arith, ap (in_slot fd) e))
    | inr (s, e) ↦ elim (Option-cases (read_from_fd c d.buffer source true d.early_exit)) [
      | inl f ↦ rw (e, f, read_fd) tt
      | inr ((err x, buffer, last), f) ↦ rw (e, f, read_fd) (omega (arith, ap (in_slot fd) e))
      | inr ((ok false, buffer, last), f) ↦ rw (e, f, read_fd) (omega (arith, ap (in_slot fd) e))
      | inr ((ok true, buffer, last), f) ↦ rw (e, f, read_fd) (omega (arith, ap (in_slot fd) e))
    ]
  ]
  read_fd-Accounts d false source = elim (Option-cases d.stderr_slot) [
    | inl e ↦ rw (e, read_fd) (omega (arith, ap (in_slot fd) e))
    | inr (s, e) ↦ elim (Option-cases (read_from_fd c d.buffer source false d.early_exit)) [
      | inl f ↦ rw (e, f, read_fd) tt
      | inr ((err x, buffer, last), f) ↦ rw (e, f, read_fd) (omega (arith, ap (in_slot fd) e))
      | inr ((ok false, buffer, last), f) ↦ rw (e, f, read_fd) (omega (arith, ap (in_slot fd) e))
      | inr ((ok true, buffer, last), f) ↦ rw (e, f, read_fd) (omega (arith, ap (in_slot fd) e))
    ]
  ]

  turn-Accounts : (d : DrainState) (t : Turn) → Accounts d (turn c d t)
  turn-Accounts d (write_turn sink) = write_stdin-Accounts d sink
  turn-Accounts d (read_turn is_stdout source) = read_fd-Accounts d is_stdout source

  append-Accounts :
      (d d' : DrainState) (slots : List FdSlot) (rest : Option (List FdSlot × DrainState))
      → Accounts d (some (slots, d'))
      → Accounts d' rest
      → Accounts d (appended slots rest)
  append-Accounts d d' slots none h k = tt
  append-Accounts d d' slots (some (more, last)) h k =
      omega (arith, h, k, in_slots-append fd slots more)

  and_then-Accounts :
      (d : DrainState) (first : Option (List FdSlot × DrainState))
      (f : DrainState → Option (List FdSlot × DrainState))
      → Accounts d first
      → ((d' : DrainState) → Accounts d' (f d'))
      → Accounts d (and_then first f)
  and_then-Accounts d none f h k = tt
  and_then-Accounts d (some (slots, d')) f h k = append-Accounts d d' slots (f d') h (k d')

  turns-Accounts : (d : DrainState) (more : List Turn) → Accounts d (turns c d more)
  turns-Accounts d [] = omega arith
  turns-Accounts d (t ∷ more) =
      and_then-Accounts d (turn c d t) (λ d'. turns c d' more) (turn-Accounts d t)
        (λ d'. turns-Accounts d' more)

  take_all-Accounts : (d : DrainState) → Accounts d (some (take_all_slots d))
  unfolding take_all_slots
  take_all-Accounts d = omega (
    arith,
    in_slots-append fd (pushed d.stdin_slot) (pushed d.stdout_slot ++ pushed d.stderr_slot),
    in_slots-append fd (pushed d.stdout_slot) (pushed d.stderr_slot),
    in_slots-pushed fd d.stdin_slot,
    in_slots-pushed fd d.stdout_slot,
    in_slots-pushed fd d.stderr_slot,
  )

-- Whatever is read and written in whatever order, as long as the calls return: each descriptor that
-- the drain held has been given back by one of the calls, or is given back by the final
-- `take_all_slots`, exactly as often as it was held, and then the drain is done.
pub drain_gives_back :
    (c : Errno) (d : DrainState) (more : List Turn) (slots : List FdSlot) (last : DrainState)
    → turns c d more ≡ some (slots, last)
    → ((fd : ℕ) → in_slots fd slots + in_slots fd (take_all_slots last).0 ≡ in_drain fd d)
      × (is_done (take_all_slots last).1 ≡ true)
unfolding take_all_slots is_done
drain_gives_back c d more slots last e =
    (λ fd. omega (arith, rw e at (turns-Accounts c fd d more), take_all-Accounts c fd last), refl)
