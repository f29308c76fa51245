-- ===== src/H3/Frame.antt =====
-- src/courierust_h3/frame.rs: the frames of RFC 9114, made of QUIC varints.
pub mod Written
pub mod RoundTrip
use courierust.Base.{
  ℕ, zero, suc, ◌+◌, ◌^◌, not, Option, none, some, List, [], ◌∷◌, ◌++◌, length, take, drop, ltb,
  leb, ◌==◌, if◌then◌else◌,
}
use courierust.Error.{
  Result, ok, err, ErrorKind, unexpected_eof, protocol, overflow, ◌>>=◌, ◌>>◌, fail_if,
}
use courierust.Quic.Varint

abbrev pub max_settings_entries : ℕ
max_settings_entries = 256

pub data Frame : Type 0 where
  data_frame : List ℕ → Frame
  headers : List ℕ → Frame
  cancel_push : ℕ → Frame
  settings : List (ℕ × ℕ) → Frame
  push_promise : (push_id : ℕ) → List ℕ → Frame
  go_away : ℕ → Frame
  max_push_id : ℕ → Frame
  unknown : (frame_type : ℕ) → List ℕ → Frame

abbrev pub frame_type : Frame → ℕ
frame_type (data_frame d) = 0x00
frame_type (headers h) = 0x01
frame_type (cancel_push id) = 0x03
frame_type (settings entries) = 0x04
frame_type (push_promise id h) = 0x05
frame_type (go_away id) = 0x07
frame_type (max_push_id id) = 0x0d
frame_type (unknown t payload) = t

-- A varint in front of what follows; `none` is its panic.
abbrev pub varint_then : ℕ → Option (List ℕ) → Option (List ℕ)
varint_then v more = elim (Varint.encode v) [
  | none ↦ none
  | some bs ↦ elim more [ none ↦ none | some rest ↦ some (bs ++ rest) ]
]

abbrev pub encode_entries : List (ℕ × ℕ) → Option (List ℕ)
encode_entries [] = some []
encode_entries ((id, value) ∷ entries) = varint_then id (varint_then value (encode_entries entries))

abbrev pub encode_payload : Frame → Option (List ℕ)
encode_payload (data_frame d) = some d
encode_payload (headers h) = some h
encode_payload (cancel_push id) = varint_then id (some [])
encode_payload (settings entries) = encode_entries entries
encode_payload (push_promise id h) = varint_then id (some h)
encode_payload (go_away id) = varint_then id (some [])
encode_payload (max_push_id id) = varint_then id (some [])
encode_payload (unknown t payload) = some payload

-- The bytes that `encode` appends, and all that `to_bytes` returns.
unfoldable pub to_bytes : Frame → Option (List ℕ)
to_bytes f = elim (encode_payload f) [
  | none ↦ none
  | some payload ↦ varint_then (frame_type f) (varint_then (length payload) (some payload))
]

-- `map_err(|e| Error::protocol(e.to_string()))`
abbrev pub as_protocol : Result (ℕ × ℕ) → Result (ℕ × ℕ)
as_protocol (ok a) = ok a
as_protocol (err e) = err protocol

-- A payload that is one varint.
unfoldable pub decode_id : (ℕ → Frame) → List ℕ → Result Frame
decode_id make payload = do
  (id, used) ← as_protocol (Varint.decode payload)
  fail_if (not (used == length payload)) protocol
  ok (make id)

-- The loop over the entries of SETTINGS, of which `left` more are allowed.
unfoldable pub decode_entries : ℕ → List ℕ → Result (List (ℕ × ℕ))
decode_entries left [] = ok []
decode_entries zero (b ∷ bs) = err overflow
decode_entries (suc left) (b ∷ bs) = do
  (id, used) ← as_protocol (Varint.decode (b ∷ bs))
  let rest = drop used (b ∷ bs)
  (value, used') ← as_protocol (Varint.decode rest)
  more ← decode_entries left (drop used' rest)
  ok ((id, value) ∷ more)

unfoldable pub decode_settings : List ℕ → Result Frame
decode_settings payload = do
  entries ← decode_entries max_settings_entries payload
  ok (settings entries)

unfoldable pub decode_push_promise : List ℕ → Result Frame
decode_push_promise payload = do
  (push_id, used) ← as_protocol (Varint.decode payload)
  ok (push_promise push_id (drop used payload))

-- The match on the type.
unfoldable pub decode_payload : ℕ → List ℕ → Result Frame
unfolding decode_id decode_settings decode_push_promise
decode_payload t payload =
    if t == 0x00
    then ok (data_frame payload)
    else if t == 0x01
    then ok (headers payload)
    else if t == 0x03
    then decode_id cancel_push payload
    else if t == 0x04
    then decode_settings payload
    else if t == 0x05
    then decode_push_promise payload
    else if t == 0x07
    then decode_id go_away payload
    else if t == 0x0d
    then decode_id max_push_id payload
    else ok (unknown t payload)

-- A frame that is not there as a whole is `Ok(None)`, and leaves the position where it was.
abbrev pub or_wait :
    Result (ℕ × ℕ) → ℕ → (ℕ → ℕ → Result (Option Frame × ℕ)) → Result (Option Frame × ℕ)
or_wait (ok (v, used)) pos next = next v used
or_wait (err unexpected_eof) pos next = ok (none, pos)
or_wait (err e) pos next = err e

-- The payload, from `p` to `p + len`.
unfoldable pub decode_body : List ℕ → ℕ → ℕ → ℕ → ℕ → Result (Option Frame × ℕ)
decode_body buf pos t p len = do
  fail_if (leb (2 ^ 64) (p + len)) overflow
  (if ltb (length buf) (p + len)
      then ok (none, pos)
      else do f ← decode_payload t (take len (drop p buf)); ok (some f, p + len))

-- The frame, if it is there, and the position after it.
unfoldable pub decode : List ℕ → ℕ → Result (Option Frame × ℕ)
unfolding decode_body
decode buf pos =
    if ltb (length buf) pos
    then err protocol
    else if pos == length buf
    then ok (none, pos)
    else or_wait (Varint.decode (drop pos buf)) pos (λ t used. do
      fail_if (leb (2 ^ 64) (pos + used)) overflow
      or_wait (Varint.decode (drop (pos + used) buf)) pos (λ len used'. do
        fail_if (leb (2 ^ 64) (pos + used + used')) overflow
        decode_body buf pos t (pos + used + used') len))
