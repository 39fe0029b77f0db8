-- ===== src/LowLevel/Reactor.antt =====
-- Reactor of low_level/reactor/mod.rs. The answers of `epoll_ctl` and `epoll_wait` are arguments; the
-- bits of libc are parameters. The descriptor of epoll itself is the kernel's alone.
pub mod Drained
use Prim.Native.Nat.{bit_and, bit_or}
use core_shift.Base.{
  ℕ, zero, suc, ◌+◌, length, ltb, Bool, not, ◌||◌, Option, none, some, List, [], ◌∷◌, Result, ok,
  err, ◌==◌, if◌then◌else◌,
}
use core_shift.LowLevel.Fd.{Source, read}
use core_shift.LowLevel.Libc.{Errno, SysError, syscall}

pub record Epoll : Type 0 where
  pub epollin : ℕ
  pub epollout : ℕ
  pub epollerr : ℕ
  pub epollhup : ℕ
  pub epollet : ℕ

-- The bits of Linux, for tests.
abbrev pub linux_epoll : Epoll
linux_epoll = record {
  epollin = 1;
  epollout = 4;
  epollerr = 8;
  epollhup = 16;
  epollet = 2147483648;
}

pub record Event : Type 0 where
  pub token : ℕ
  pub readable : Bool
  pub writable : Bool
  pub error : Bool

pub record Reactor : Type 0 where
  pub next_token : ℕ
  pub signalfd : Option ℕ
  pub sigchld_token : Option ℕ

unfoldable pub new : Reactor
new = record { next_token = 1; signalfd = none; sigchld_token = none }

-- What is asked of epoll for a descriptor.
pub record Interest : Type 0 where
  pub events : ℕ
  pub token : ℕ

unfoldable pub interest : Epoll → ℕ → Bool → Bool → Interest
interest b token readable writable =
    let events = if readable then bit_or b.epollet b.epollin else b.epollet in
    record { events = if writable then bit_or events b.epollout else events; token = token }

-- `answer` is the error of `epoll_ctl`, if it fails.
unfoldable pub add_with_token : Option ℕ → Result (Unit {0}) SysError
add_with_token none = ok tt
add_with_token (some e) = err (syscall e "epoll_ctl_add")

-- A token is used up even if the descriptor cannot be added.
unfoldable pub add : Option ℕ → Reactor → Result ℕ SysError × Reactor
unfolding add_with_token
add answer r =
    let r' = record r { next_token = r.next_token + 1 } in
    elim (add_with_token answer) [ err e ↦ (err e, r') | ok _ ↦ (ok r.next_token, r') ]

abbrev pub has : ℕ → ℕ → Bool
has events bit = not (bit_and events bit == 0)

unfoldable pub event_of : Epoll → Interest → Event
event_of b ev =
    let is_err = has ev.events (bit_or b.epollerr b.epollhup) in
    record {
      token = ev.token;
      readable = has ev.events b.epollin || is_err;
      writable = has ev.events b.epollout || is_err;
      error = is_err;
    }

-- What `epoll_wait` answers: the ready descriptors, none of them on a timeout, or an error.
pub data Polled : Type 0 where
  ready : List Interest → Polled
  failed : ℕ → Polled

unfoldable pub events_of : Epoll → List Interest → List Event
unfolding event_of
events_of b [] = []
events_of b (ev ∷ evs) = event_of b ev ∷ events_of b evs

unfoldable pub wait : Errno → Epoll → Polled → Result (List Event) SysError
unfolding events_of
wait c b (ready evs) = ok (events_of b evs)
wait c b (failed e) = if e == c.eintr then ok [] else err (syscall e "epoll_wait")

-- The answers while the signal descriptor is set up: to `sigprocmask`, `signalfd` and `epoll_ctl`.
pub record Signalled : Type 0 where
  pub sigprocmask : Option ℕ
  pub signalfd : Result ℕ ℕ
  pub epoll : Option ℕ

unfoldable pub setup_signalfd : Signalled → Reactor → Result (Unit {0}) SysError × Reactor
unfolding add
setup_signalfd s r = elim s.sigprocmask [
  | some e ↦ (err (syscall e "sigprocmask"), r)
  | none ↦ elim s.signalfd [
    | err e ↦ (err (syscall e "signalfd"), r)
    | ok sfd ↦
        let (added, r') = add s.epoll r in
        elim added [
          | err e ↦ (err e, r')
          | ok token ↦ (ok tt, record r' { signalfd = some sfd; sigchld_token = some token })
        ]
  ]
]

-- The loop of drain_signalfd, with fuel for its rounds; `size` is that of an entry. `none`: out of
-- fuel, or the kernel's answers are described no further.
unfoldable pub drain_rounds : ℕ → Errno → ℕ → Source → Option Source
unfolding read
drain_rounds zero c size source = none
drain_rounds (suc fuel) c size source = elim (read c size source) [
  | none ↦ none
  | some (err e, source') ↦ some source'
  | some (ok bytes, source') ↦
      let rest = drain_rounds fuel c size source' in
      if ltb (length bytes) size then some source' else rest
]

-- Every round takes an answer of the kernel.
unfoldable pub drain_signalfd : Errno → ℕ → Reactor → Source → Option Source
unfolding drain_rounds
drain_signalfd c size r source = elim r.signalfd [
  | none ↦ some source
  | some fd ↦ drain_rounds (suc (length source.answers)) c size source
]
