-- ===== src/Daemon/Exchange.antt =====
-- One exchange with a client in bytes: what decode_request and encode_response (mid_level/ipc.rs) make
-- of an iteration of run_daemon (lib.rs).
pub mod Cancelled
use core_shift.Base.{
  ℕ, ◌≤◌, ◌≡◌, true, Option, none, some, List, [], ◌∷◌, ◌++◌, ok, length, ◌==◌, if◌then◌else◌,
}
use core_shift.LowLevel.Libc.{Errno}
use core_shift.LowLevel.Fd.{Source, Sink, Answer, transfer}
use core_shift.LowLevel.Fd.Transfers.{Moves}
use core_shift.LowLevel.Reactor
use core_shift.MidLevel.Wire.{Json, to_le_bytes, max_len, decode_request, encode_response}
use core_shift.MidLevel.Wire.Decode.{frame}
use core_shift.MidLevel.Ipc.{Act, respond, close, Connection}
use core_shift.Daemon.Interface.{Executor}
use core_shift.Daemon.{Daemon}

-- What the acts write to a client, up to where its descriptor is closed. An error of encode_response
-- is passed over.
unfoldable pub send_all : Errno → Json → ℕ → List Act → Sink → Option Sink
send_all c json fd [] sink = some sink
send_all c json fd (respond other resp ∷ acts) sink =
    if other == fd
    then (elim (encode_response c json resp sink) [
      | none ↦ none
      | some (result, sink') ↦ send_all c json fd acts sink'
    ])
    else send_all c json fd acts sink
send_all c json fd (close other ∷ acts) sink =
    if other == fd then some sink else send_all c json fd acts sink

-- The request of a connection is what decode_request makes of the bytes of a client that sends a
-- frame with this payload, which the kernel hands on with its length in one piece.
pub record Sends (c : Errno) (json : Json) (connection : Connection) (uid : ℕ) (text : List ℕ)
    : Type 0 where
  pub behind : List ℕ
  pub first : ℕ
  pub answers : List Answer
  pub last : Source
  pub small : length text ≤ max_len
  pub four : 4 ≤ first
  pub moves : Moves answers
  pub enough : length text ≤ length answers
  pub received :
      decode_request c json uid
        (record { pending = frame text ++ behind; answers = transfer first ∷ answers })
      ≡ some (connection.decoded uid, last)

-- The kernel takes what is written to the client, at least the four bytes of a length at once.
pub record Takes (sink : Sink) (room : ℕ) : Type 0 where
  pub first : ℕ
  pub answers : List Answer
  pub described : sink.answers ≡ transfer first ∷ answers
  pub four : 4 ≤ first
  pub moves : Moves answers
  pub enough : room ≤ length answers

-- What the client of a command has received in the end.
pub data Received : ℕ → List ℕ → List ℕ → Type 0 where
  job :
      (id : ℕ) (before after : List ℕ)
      → after ≡ before ++ frame (1 ∷ to_le_bytes 8 id)
      → Received id before after
  turned_down :
      (id : ℕ) (before after : List ℕ) → after ≡ before ++ frame (4 ∷ []) → Received id before after

module _ (x : Executor) where
  -- The event and the connection of one client.
  pub record Visits (d : Daemon x) (e : Reactor.Event) (connection : Connection) (uid : ℕ)
      : Type 0 where
    pub server : d.ipc.server_token ≡ some e.token
    pub readable : e.readable ≡ true
    pub verified : connection.credentials ≡ ok uid
    pub calm : x.ready d.executor (e ∷ []) ≡ []
