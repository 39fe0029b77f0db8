-- ===== src/MidLevel/Wire/Decode.antt =====
-- What decode_request (mid_level/ipc.rs) accepts.
use core_shift.Base.{
  ℕ, zero, suc, ◌-◌, min, ◌≤◌, ◌<◌, ◌^◌, ◌≡◌, refl, sym, ap, ◌∙◌, subst, Option, none, some, List,
  [], ◌∷◌, ◌++◌, Result, ok, err, length, length-append, length-take, length-drop, take, drop,
  take-append-drop, take-append_of_le, drop-append_of_le, take-append_left, drop-append_left, inl,
  inr, Bool-cases, Option-cases, ltb, ltb-false, ltb-true, ◌==◌, ==-true, arith,
}
use mathlib.Core.List.{append-nil, append_assoc}
use core_shift.LowLevel.Libc.{Errno, SysError}
use core_shift.LowLevel.Fd.{Source, Answer, transfer, failed, read}
use core_shift.LowLevel.Fd.Transfers.{read-Reads, Moves}
use core_shift.MidLevel.Router.{Request}
use core_shift.MidLevel.Wire.{
  Json, Reading, to_le_bytes, from_le_bytes, max_len, decode_payload, read_payload, finish,
  after_length, decode_request,
}
use core_shift.MidLevel.Wire.Bytes.{from_le_bytes-to_le_bytes, length-to_le_bytes}

-- The payload is what was read before and the next `left` bytes.
abbrev Extends : ℕ → List ℕ → Source → List ℕ → Source → Type 0
Extends left before source payload source' =
    (more : List ℕ) × (source.pending ≡ more ++ source'.pending)
    × (payload ≡ before ++ more)
    × (length more ≡ left)

Extends-cons :
    (left : ℕ) (before chunk : List ℕ) (source mid : Source) (payload : List ℕ) (source' : Source)
    → source.pending ≡ chunk ++ mid.pending
    → length chunk ≤ left
    → Extends (left - length chunk) (before ++ chunk) mid payload source'
    → Extends left before source payload source'
Extends-cons left before chunk source mid payload source' p l (more, q, e, n) = (
  chunk ++ more,
  p ∙ ap (λ t. chunk ++ t) q ∙ sym (append_assoc chunk more source'.pending),
  e ∙ append_assoc before chunk more,
  omega (arith, length-append chunk more),
)

read_payload-Extends :
    (fuel : ℕ) (c : Errno) (left : ℕ) (before : List ℕ) (source : Source) (payload : List ℕ)
    (source' : Source)
    → read_payload fuel c left before source ≡ some (ok (some payload), source')
    → Extends left before source payload source'
unfolding read_payload
read_payload-Extends zero c left before source payload source' h = cc
read_payload-Extends (suc fuel) c left before source payload source' h =
    elim (Bool-cases (ltb 0 left)) [
      | inl more ↦ elim (Option-cases (read c left source)) [
        | inl e ↦ cc (rw (more, e, read_payload) at h)
        | inr ((err x, s), e) ↦ cc (rw (more, e, read_payload) at h)
        | inr ((ok [], s), e) ↦ cc (rw (more, e, read_payload) at h)
        | inr ((ok (b ∷ bytes), s), e) ↦
            let reads = read-Reads c left source (ok (b ∷ bytes)) s e in
            Extends-cons left before (b ∷ bytes) source s payload source' reads.front reads.within (
              read_payload-Extends fuel c (left - length (b ∷ bytes)) (before ++ (b ∷ bytes)) s
                payload source' (rw (more, e, read_payload) at h))
      ]
      | inr whole ↦ complete (rw (whole, read_payload) at h) (ground arith)
    ]
  where
    complete :
        ◌≡◌ {A = Option (Result (Option (List ℕ)) SysError × Source)}
          (some (ok (some before), source))
          (some (ok (some payload), source'))
        → left ≡ 0
        → Extends left before source payload source'
    complete e z = ([], ground arith, ground (arith, append-nil before), omega arith)

-- The bytes that were read begin with a frame: four bytes of length, and a payload of that length,
-- within the bound, which decodes to the request.
abbrev pub Framed : Json → ℕ → Source → Request → Source → Type 0
Framed json uid source req source' =
    (len_buf : List ℕ) × (payload : List ℕ) × (source.pending
      ≡ len_buf ++ (payload ++ source'.pending))
    × (length len_buf ≡ 4)
    × (length payload ≡ from_le_bytes len_buf)
    × (length payload ≤ max_len)
    × (decode_payload json uid payload ≡ some req)

module _ (c : Errno) (json : Json) (uid : ℕ) (source : Source) (req : Request)
    (source' : Source) where
  finish-eq-some :
      (o : Reading (List ℕ))
      → finish json uid o ≡ some (ok (some req), source')
      → (payload : List ℕ) × (o ≡ some (ok (some payload), source'))
        × (decode_payload json uid payload ≡ some req)
  unfolding finish
  finish-eq-some none h = cc
  finish-eq-some (some (err e, s)) h = cc
  finish-eq-some (some (ok none, s)) h = cc
  finish-eq-some (some (ok (some payload), s)) h = (payload, ground arith, ground arith)

  after_length-Framed :
      (o : Option (Result (List ℕ) SysError × Source))
      → read c 4 source ≡ o
      → after_length c json uid o ≡ some (ok (some req), source')
      → Framed json uid source req source'
  unfolding after_length
  after_length-Framed none r h = cc
  after_length-Framed (some (err e, s)) r h = cc
  after_length-Framed (some (ok len_buf, s)) r h = elim (Bool-cases (length len_buf == 4)) [
    | inl four ↦ elim (Bool-cases (ltb max_len (from_le_bytes len_buf))) [
      | inl large ↦ cc (rw (four, large, after_length) at h)
      | inr fits ↦
          let (payload, e, d) = finish-eq-some _ (rw (four, fits, after_length) at h) in
          let (more, p, q, n) =
            read_payload-Extends (suc (length s.answers)) c (from_le_bytes len_buf) [] s payload
              source' e in
          let whole : length payload ≡ from_le_bytes len_buf = ap length q ∙ n in
          (
            len_buf,
            payload,
            (read-Reads c 4 source (ok len_buf) s r).front
                ∙ ap (λ t. len_buf ++ t) (p ∙ ap (λ t. t ++ source'.pending) (sym q)),
            ground arith,
            whole,
            ground arith,
            d,
          )
    ]
    | inr other ↦ cc (rw (other, after_length) at h)
  ]

-- A request is decoded only from a well-formed frame at the front of what the client sent, and
-- exactly that frame is consumed.
pub decode_request-Framed :
    (c : Errno) (json : Json) (uid : ℕ) (source : Source) (req : Request) (source' : Source)
    → decode_request c json uid source ≡ some (ok (some req), source')
    → Framed json uid source req source'
unfolding decode_request
decode_request-Framed c json uid source req source' h =
    after_length-Framed c json uid source req source' (read c 4 source) refl h

-- One round takes what the answer gives of the bytes that are missing.
read_payload-step :
    (fuel : ℕ) (c : Errno) (before : List ℕ) (b : ℕ) (bytes rest : List ℕ) (n k : ℕ)
    (answers : List Answer)
    → k ≡ min n (length bytes)
    → read_payload
        (suc fuel)
        c
        (suc (length bytes))
        before
        (record { pending = b ∷ (bytes ++ rest); answers = transfer (suc n) ∷ answers })
      ≡ read_payload fuel c
          (length (drop k bytes))
          (before ++ (b ∷ take k bytes))
          (record { pending = drop k bytes ++ rest; answers = answers })
unfolding read_payload read
read_payload-step fuel c before b bytes rest n k answers h =
    let e : min (suc n) (suc (length bytes)) ≡ suc k = omega arith in
    let l : suc (length bytes) - suc (length (take k bytes)) ≡ length (drop k bytes) =
      omega (arith, length-take k bytes, length-drop k bytes) in
    rw (ltb-true 0 (suc (length bytes)) (omega arith), e)
      (rw
        (take-append_of_le k bytes rest (omega arith), drop-append_of_le k bytes rest (omega arith))
        (ap
          (λ left.
            read_payload fuel c left (before ++ (b ∷ take k bytes))
              (record { pending = drop k bytes ++ rest; answers = answers }))
          l))

-- The last round finds nothing left.
read_payload-whole :
    (fuel : ℕ) (c : Errno) (before bytes rest : List ℕ) (answers : List Answer)
    → Moves answers
    → length bytes ≤ length answers
    → length answers < fuel
    → (source' : Source) × (read_payload fuel c
          (length bytes)
          before
          (record { pending = bytes ++ rest; answers = answers })
        ≡ some (ok (some (before ++ bytes)), source'))
      × (source'.pending ≡ rest)
unfolding read_payload read
read_payload-whole zero c before bytes rest answers g enough l = absurd (omega arith)
read_payload-whole (suc fuel) c before [] rest answers g enough l =
    (record { pending = rest; answers = answers }, rw append-nil refl, refl)
read_payload-whole (suc fuel) c before (b ∷ bytes) rest [] g enough l = absurd (omega arith)
read_payload-whole (suc fuel) c before (b ∷ bytes) rest (failed e ∷ answers) g enough l = absurd g
read_payload-whole (suc fuel) c before (b ∷ bytes) rest (transfer zero ∷ answers) g enough l =
    absurd (omega (arith, g.0))
read_payload-whole (suc fuel) c before (b ∷ bytes) rest (transfer (suc n) ∷ answers) g enough l =
    let k : ℕ = min n (length bytes) in
    let short : length (drop k bytes) ≤ length answers = omega (arith, length-drop k bytes) in
    let (source', e, p) =
      read_payload-whole fuel c (before ++ (b ∷ take k bytes)) (drop k bytes) rest answers g.1 short
        (omega arith) in
    (
      source',
      read_payload-step fuel c before b bytes rest n k answers refl
          ∙ e
          ∙ ap (λ t. some (ok (some t), source'))
              (append_assoc before (b ∷ take k bytes) (drop k bytes)
                ∙ ap (λ t. before ++ (b ∷ t)) (take-append-drop k bytes)),
      p,
    )

-- The frame of a payload.
abbrev pub frame : List ℕ → List ℕ
frame payload = to_le_bytes 4 (length payload) ++ payload

module _ (c : Errno) (json : Json) (uid : ℕ) (payload rest : List ℕ) where
  read-length :
      (n : ℕ) (answers : List Answer)
      → 4 ≤ n
      → read c 4 (record { pending = frame payload ++ rest; answers = transfer n ∷ answers })
        ≡ some (
          ok (to_le_bytes 4 (length payload)),
          record { pending = payload ++ rest; answers = answers },
        )
  unfolding read
  read-length n answers h =
      let four : length (to_le_bytes 4 (length payload)) ≡ 4 =
        length-to_le_bytes 4 (length payload) in
      let all : min n 4 ≡ length (to_le_bytes 4 (length payload)) = omega arith in
      rw (all, append_assoc (to_le_bytes 4 (length payload)) payload rest)
        (rw (
          take-append_left (to_le_bytes 4 (length payload)) (payload ++ rest),
          drop-append_left (to_le_bytes 4 (length payload)) (payload ++ rest),
        ))

after_length_lem :
    (c : Errno) (json : Json) (uid : ℕ) (len_buf payload : List ℕ) (source source' : Source)
    → length len_buf ≡ 4
    → from_le_bytes len_buf ≤ max_len
    → read_payload (suc (length source.answers)) c (from_le_bytes len_buf) [] source
      ≡ some (ok (some payload), source')
    → after_length c json uid (some (ok len_buf, source))
      ≡ some (ok (decode_payload json uid payload), source')
unfolding after_length
after_length_lem c json uid len_buf payload source source' four small e =
    rw (==-true _ _ four, ltb-false max_len (from_le_bytes len_buf) small) (ap (finish json uid) e)

-- A frame that a client sends is decoded, whatever follows it and however the kernel cuts it up, as
-- long as the payload is within the size limit, the four bytes of the length come at once, every
-- answer gives a byte at least, and there are as many answers as bytes of the payload: the answer
-- is what the payload stands for, and the bytes behind the frame are left.
pub decode_request-frame :
    (c : Errno) (json : Json) (uid : ℕ) (payload rest : List ℕ) (n : ℕ) (answers : List Answer)
    → length payload ≤ max_len
    → 4 ≤ n
    → Moves answers
    → length payload ≤ length answers
    → (source' : Source) × (decode_request c json uid
          (record { pending = frame payload ++ rest; answers = transfer n ∷ answers })
        ≡ some (ok (decode_payload json uid payload), source'))
      × (source'.pending ≡ rest)
unfolding decode_request
decode_request-frame c json uid payload rest n answers small four g enough =
    let (source', e, p) =
      read_payload-whole (suc (length answers)) c [] payload rest answers g enough (omega arith) in
    (
      source',
      rw (read-length c json uid payload rest n answers four) (
          after_length_lem c json uid (to_le_bytes 4 (length payload)) payload _ source'
            (length-to_le_bytes 4 (length payload)) (rw back small)
            (subst
              (λ left.
                read_payload (suc (length answers)) c left []
                  (record { pending = payload ++ rest; answers = answers })
                ≡ some (ok (some payload), source'))
              (sym back) e)),
      p,
    )
  where
    back : from_le_bytes (to_le_bytes 4 (length payload)) ≡ length payload
    back = from_le_bytes-to_le_bytes 4 (length payload) (omega arith)

-- The requests for a result and for a cancellation of any 64-bit id are read back from their bytes.
pub decode_payload-ids :
    (json : Json) (uid id : ℕ)
    → id < 2 ^ 64
    → (decode_payload json uid (2 ∷ to_le_bytes 8 id) ≡ some (Request.get_result uid id))
      × (decode_payload json uid (3 ∷ to_le_bytes 8 id) ≡ some (Request.cancel uid id))
unfolding decode_payload
decode_payload-ids json uid id h =
    let eight = length-to_le_bytes 8 id in
    let back = from_le_bytes-to_le_bytes 8 id h in (rw (eight, back), rw (eight, back))
