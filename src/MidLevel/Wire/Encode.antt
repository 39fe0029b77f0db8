-- ===== src/MidLevel/Wire/Encode.antt =====
-- What encode_response (mid_level/ipc.rs) writes.
use core_shift.Base.{
  ℕ, zero, suc, ◌%◌, ◌^◌, ◌≤◌, ◌<◌, ◌≡◌, refl, sym, ap, ◌∙◌, List, [], ◌∷◌, ◌++◌, some, ok, length,
  length-drop, take, drop, take_all, take-append-drop, take-length-take, arith,
}
use mathlib.Core.List.{append-nil, append_assoc}
use core_shift.LowLevel.Libc.{Errno}
use core_shift.LowLevel.Fd.{Sink, Answer, transfer, failed, write}
use core_shift.LowLevel.Fd.Transfers.{Moves}
use core_shift.MidLevel.Wire.{
  Json, WireResponse, to_le_bytes, payload, write_payload, encode_response,
}
use core_shift.MidLevel.Wire.Bytes.{length-to_le_bytes}

module _ (c : Errno) where
  abbrev Delivers : ℕ → List ℕ → List ℕ → List Answer → Type 0
  Delivers fuel rest written answers =
      (last : Sink) × (write_payload fuel c rest (record { written = written; answers = answers })
        ≡ some (ok tt, last))
      × (last.written ≡ written ++ rest)

  delivers :
      (fuel : ℕ) (rest written : List ℕ) (answers : List Answer)
      → Moves answers
      → length rest ≤ length answers
      → length answers < fuel
      → Delivers fuel rest written answers
  unfolding write_payload write
  delivers zero rest written answers m enough l = absurd (omega arith)
  delivers (suc fuel) [] written answers m enough l =
      (record { written = written; answers = answers }, refl, sym (append-nil written))
  delivers (suc fuel) (b ∷ rest) written [] m enough l = absurd (omega arith)
  delivers (suc fuel) (b ∷ rest) written (failed e ∷ answers) m enough l = absurd m
  delivers (suc fuel) (b ∷ rest) written (transfer zero ∷ answers) m enough l =
      absurd (omega (arith, m.0))
  delivers (suc fuel) (b ∷ rest) written (transfer (suc n) ∷ answers) m enough l =
      let k : ℕ = length (take n rest) in
      let short : length (drop k rest) ≤ length answers = omega (arith, length-drop k rest) in
      let (last, e, w) =
        delivers fuel (drop k rest) (written ++ (b ∷ take n rest)) answers m.1 short
          (omega arith) in
      (
        last,
        e,
        w
            ∙ append_assoc written (b ∷ take n rest) (drop k rest)
            ∙ ap (λ t. written ++ (b ∷ t))
                (ap (λ t. t ++ drop k rest) (sym (take-length-take n rest))
                  ∙ take-append-drop k rest),
      )

-- Where every coming answer takes a byte at least and there are enough of them, a response is
-- reported as sent. If the first answer takes the four bytes of the length, the frame is written
-- whole; if it takes fewer, the payload follows the cut length all the same.
pub encode_response-delivers :
    (c : Errno) (json : Json) (resp : WireResponse) (written : List ℕ) (n : ℕ)
    (answers : List Answer)
    → Moves answers
    → length (payload json resp) ≤ length answers
    → let len = to_le_bytes 4 (length (payload json resp) % 2 ^ 32) in
      (last : Sink) × (encode_response c json resp
          (record { written = written; answers = transfer n ∷ answers })
        ≡ some (ok tt, last))
      × (last.written ≡ written ++ (take n len ++ payload json resp))
      × (4 ≤ n → last.written ≡ written ++ (len ++ payload json resp))
unfolding encode_response write
encode_response-delivers c json resp written n answers m enough =
    let len : List ℕ = to_le_bytes 4 (length (payload json resp) % 2 ^ 32) in
    let (last, e, w) =
      delivers c (suc (length answers)) (payload json resp) (written ++ take n len) answers m enough
        (omega arith) in
    let split = w ∙ append_assoc written (take n len) (payload json resp) in
    (
      last,
      e,
      split,
      λ four.
          split
          ∙ ap (λ t. written ++ (t ++ payload json resp))
              (take_all n len
                (omega (arith, length-to_le_bytes 4 (length (payload json resp) % 2 ^ 32)))),
    )
