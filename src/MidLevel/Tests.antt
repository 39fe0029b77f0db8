-- ===== src/MidLevel/Tests.antt =====
-- Runs of the router, the wire and the socket (mid_level).
use core_shift.Base.{
  ℕ, ◌%◌, ◌≤◌, ◌^◌, ◌≡◌, refl, none, some, List, [], ◌∷◌, ◌++◌, ok, length, take, arith, Option,
  if◌then◌else◌, ◌==◌,
}
use core_shift.HighLevel.Api.{Command}
use core_shift.LowLevel.Libc.{linux}
use core_shift.LowLevel.Fd.{Source, Sink, transfer}
use core_shift.MidLevel.Router
use core_shift.MidLevel.Router.{Request, exec, get_result, handle_all}
use core_shift.MidLevel.Wire
use core_shift.MidLevel.Wire.{
  Json, WireResponse, to_le_bytes, from_le_bytes, decode_payload, decode_request, encode_response,
}
use core_shift.MidLevel.Wire.Decode.{
  Framed, frame, decode_request-Framed, decode_request-frame, decode_payload-ids,
}
use core_shift.MidLevel.Wire.Encode.{encode_response-delivers}
use core_shift.MidLevel.Ipc.{IpcModule, Connection}

abbrev battery : Command
battery = Command.dumpsys "battery" []

-- A decoder that knows one command, of one byte, and an encoder that writes one byte.
abbrev by_byte : List ℕ → Option Command
by_byte (b ∷ []) = if b == 7 then some battery else none
by_byte _ = none

abbrev one_byte : Json
one_byte = record { from_slice = by_byte; to_vec = λ res. 0 ∷ [] }

-- A frame of two bytes, and one byte behind it.
abbrev sent_frame : Source
sent_frame = record {
  pending = 2 ∷ 0 ∷ 0 ∷ 0 ∷ 1 ∷ 7 ∷ 99 ∷ [];
  answers = transfer 4 ∷ transfer 1 ∷ transfer 9 ∷ [];
}

abbrev one_left : Source
one_left = record { pending = 99 ∷ []; answers = [] }

decode_sent :
    decode_request linux one_byte 0 sent_frame ≡ some (ok (some (exec 0 battery)), one_left)
unfolding decode_request Wire.after_length Wire.finish Wire.read_payload from_le_bytes
    decode_payload core_shift.LowLevel.Fd.read core_shift.LowLevel.Fd.read_loop
decode_sent = refl

decode_request-Framed_example : Framed one_byte 0 sent_frame (exec 0 battery) one_left
decode_request-Framed_example =
    decode_request-Framed linux one_byte 0 sent_frame (exec 0 battery) one_left decode_sent

decode_request-frame_example :
    (source' : Source) × (decode_request linux one_byte 0 (record {
      pending = frame (1 ∷ 7 ∷ []) ++ (99 ∷ []);
      answers = transfer 4 ∷ transfer 1 ∷ transfer 9 ∷ [];
    })
      ≡ some (ok (decode_payload one_byte 0 (1 ∷ 7 ∷ [])), source'))
    × (source'.pending ≡ 99 ∷ [])
decode_request-frame_example =
    decode_request-frame linux one_byte 0 (1 ∷ 7 ∷ []) (99 ∷ []) 4 (transfer 1 ∷ transfer 9 ∷ [])
      (omega arith) (omega arith) (omega arith, (omega arith, tt)) (omega arith)

decode_payload-ids_example :
    (decode_payload one_byte 0 (2 ∷ to_le_bytes 8 300) ≡ some (get_result 0 300))
    × (decode_payload one_byte 0 (3 ∷ to_le_bytes 8 300) ≡ some (Request.cancel 0 300))
decode_payload-ids_example = decode_payload-ids one_byte 0 300 (omega arith)

encode_response-delivers_example :
    let len = to_le_bytes 4 (length (Wire.payload one_byte WireResponse.error) % 2 ^ 32) in
    (last : Sink) × (encode_response linux one_byte WireResponse.error
        (record { written = []; answers = transfer 4 ∷ transfer 1 ∷ [] })
      ≡ some (ok tt, last))
    × (last.written ≡ take 4 len ++ Wire.payload one_byte WireResponse.error)
    × (4 ≤ 4 → last.written ≡ len ++ Wire.payload one_byte WireResponse.error)
unfolding Wire.payload
encode_response-delivers_example =
    encode_response-delivers linux one_byte WireResponse.error [] 4 (transfer 1 ∷ [])
      (omega arith, tt) (omega arith)

abbrev server : IpcModule
server = record {
  server_token = some 0;
  router = Router.new;
  clients = (1, 30) ∷ [];
  job_to_client = (5, 1) ∷ [];
  next_client_id = 2;
}

-- A client that asks for the result of job 5, for which client 1 waits.
abbrev asking : Connection
asking = record {
  client_fd = 31;
  credentials = ok 0;
  decoded = λ uid. ok (some (get_result uid 5));
}
