-- ===== src/MidLevel/Wire.antt =====
-- mid_level/ipc.rs: the frames of the socket, decode_request and encode_response. serde_json is a
-- parameter: what it makes of the bytes of a command, and the bytes that it gives for a result.
pub mod Bytes
pub mod Decode
pub mod Encode
use core_shift.Base.{
  ℕ, zero, suc, ◌+◌, ◌-◌, ◌*◌, ◌/◌, ◌%◌, ◌^◌, Option, none, some, List, [], ◌∷◌, ◌++◌, Result, ok,
  err, length, drop, ltb, ◌==◌, if◌then◌else◌,
}
use core_shift.Core.Types.{ExecOutcome}
use core_shift.HighLevel.Api.{Command}
use core_shift.MidLevel.Router.{Request}
use core_shift.LowLevel.Libc.{Errno, SysError}
use core_shift.LowLevel.Fd.{Source, Sink, read, write}

pub record Json : Type 0 where
  pub from_slice : List ℕ → Option Command
  -- `to_vec(…).unwrap_or_default()`
  pub to_vec : Option ExecOutcome → List ℕ

-- `to_le_bytes` of a number of `count` bytes, and `from_le_bytes`.
unfoldable pub to_le_bytes : ℕ → ℕ → List ℕ
to_le_bytes zero n = []
to_le_bytes (suc count) n = (n % 256) ∷ to_le_bytes count (n / 256)

unfoldable pub from_le_bytes : List ℕ → ℕ
from_le_bytes [] = 0
from_le_bytes (b ∷ bytes) = b + 256 * from_le_bytes bytes

abbrev pub max_len : ℕ
max_len = 10 * 1024 * 1024

-- The match on the type byte; `rest` is `payload[1..]`, so a length of 8 is a payload of 9.
unfoldable pub decode_payload : Json → ℕ → List ℕ → Option Request
decode_payload json uid [] = none
decode_payload json uid (req_type ∷ rest) =
    if req_type == 1
    then (elim (json.from_slice rest) [ none ↦ none | some req ↦ some (Request.exec uid req) ])
    else if req_type == 2
    then (if length rest == 8 then some (Request.get_result uid (from_le_bytes rest)) else none)
    else if req_type == 3
    then (if length rest == 8 then some (Request.cancel uid (from_le_bytes rest)) else none)
    else none

abbrev pub Reading : Type 0 → Type 0
Reading A = Option (Result (Option A) SysError × Source)

-- `while total_read < len`: `left` bytes are missing. With fuel for its rounds.
unfoldable pub read_payload : ℕ → Errno → ℕ → List ℕ → Source → Reading (List ℕ)
read_payload zero c left payload source = none
read_payload (suc fuel) c left payload source =
    if ltb 0 left
    then (elim (read c left source) [
      | none ↦ none
      | some (err e, source') ↦ some (err e, source')
      | some (ok [], source') ↦ some (ok none, source')
      | some (ok (b ∷ bytes), source') ↦
          read_payload fuel c (left - length (b ∷ bytes)) (payload ++ (b ∷ bytes)) source'
    ])
    else some (ok (some payload), source)

-- What follows the payload loop.
unfoldable pub finish : Json → ℕ → Reading (List ℕ) → Reading Request
unfolding decode_payload
finish json uid none = none
finish json uid (some (err e, source)) = some (err e, source)
finish json uid (some (ok none, source)) = some (ok none, source)
finish json uid (some (ok (some payload), source)) =
    some (ok (decode_payload json uid payload), source)

-- What follows the read of the length.
unfoldable pub after_length :
    Errno → Json → ℕ → Option (Result (List ℕ) SysError × Source) → Reading Request
unfolding finish read_payload
after_length c json uid none = none
after_length c json uid (some (err e, source)) = some (err e, source)
after_length c json uid (some (ok len_buf, source)) =
    if length len_buf == 4
    then (let len = from_le_bytes len_buf in
        if ltb max_len len
        then some (ok none, source)
        else finish json uid (read_payload (suc (length source.answers)) c len [] source))
    else some (ok none, source)

unfoldable pub decode_request : Errno → Json → ℕ → Source → Reading Request
unfolding after_length
decode_request c json uid source = after_length c json uid (read c 4 source)

pub data WireResponse : Type 0 where
  exec : ℕ → WireResponse
  result : Option ExecOutcome → WireResponse
  cancel_ok error : WireResponse

unfoldable pub payload : Json → WireResponse → List ℕ
payload json (WireResponse.exec id) = 1 ∷ to_le_bytes 8 id
payload json (WireResponse.result res) = 2 ∷ json.to_vec res
payload json WireResponse.cancel_ok = 3 ∷ []
payload json WireResponse.error = 4 ∷ []

abbrev pub Writing : Type 0
Writing = Option (Result (Unit {0}) SysError × Sink)

-- `while total_written < payload.len()`: `rest` is still to write.
unfoldable pub write_payload : ℕ → Errno → List ℕ → Sink → Writing
write_payload zero c rest sink = none
write_payload (suc fuel) c [] sink = some (ok tt, sink)
write_payload (suc fuel) c (b ∷ rest) sink = elim (write c (b ∷ rest) sink) [
  | none ↦ none
  | some (err e, sink') ↦ some (err e, sink')
  | some (ok zero, sink') ↦ some (ok tt, sink')
  | some (ok (suc n), sink') ↦ write_payload fuel c (drop (suc n) (b ∷ rest)) sink'
]

-- The number of bytes of the length that were written is not looked at.
unfoldable pub encode_response : Errno → Json → WireResponse → Sink → Writing
unfolding payload write_payload
encode_response c json resp sink =
    let bytes = payload json resp in
    elim (write c (to_le_bytes 4 (length bytes % 2 ^ 32)) sink) [
      | none ↦ none
      | some (err e, sink') ↦ some (err e, sink')
      | some (ok n, sink') ↦ write_payload (suc (length sink'.answers)) c bytes sink'
    ]
