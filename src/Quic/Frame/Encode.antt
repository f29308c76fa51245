-- ===== src/Quic/Frame/Encode.antt =====
-- `Frame::encode` and `Frame::to_bytes`. `none` is the panic of a varint above its maximum.
use courierust.Base.{
  ℕ, ◌-◌, List, [], ◌∷◌, ◌++◌, Bool, true, false, Option, none, some, length, replicate, bit_or,
  if◌then◌else◌,
}
use courierust.Base.Bytes.{as_u8}
use courierust.Quic.Varint
use courierust.Quic.Frame.{
  Frame, padding, ping, ack, reset_stream, stop_sending, crypto, new_token, stream, max_data,
  max_stream_data, max_streams, data_blocked, stream_data_blocked, streams_blocked,
  new_connection_id, retire_connection_id, path_challenge, path_response, connection_close,
  handshake_done, datagram,
}

infixl 5 ◌>>=◌
abbrev pub ◌>>=◌ : {A B : Type 0} → Option A → (A → Option B) → Option B
none >>= f = none
some a >>= f = f a

-- A value that is written only if it is there.
abbrev pub encode_optional : Option ℕ → Option (List ℕ)
encode_optional none = some []
encode_optional (some v) = Varint.encode v

abbrev pub is_some : {A : Type 0} → Option A → Bool
is_some none = false
is_some (some a) = true

-- The loop over the ranges after the first.
unfoldable pub encode_ranges : List (ℕ × ℕ) → Option (List ℕ)
encode_ranges [] = some []
encode_ranges ((gap, range_len) ∷ ranges) = do
  g ← Varint.encode gap
  l ← Varint.encode range_len
  more ← encode_ranges ranges
  some (g ++ (l ++ more))

abbrev pub first_len : List (ℕ × ℕ) → ℕ
first_len [] = 0
first_len ((_, l) ∷ _) = l

abbrev pub further_ranges : List (ℕ × ℕ) → List (ℕ × ℕ)
further_ranges [] = []
further_ranges (_ ∷ ranges) = ranges

unfoldable pub encode_ecn : Option (ℕ × ℕ × ℕ) → Option (List ℕ)
encode_ecn none = some []
encode_ecn (some (ce, ect0, ect1)) = do
  a ← Varint.encode ce
  b ← Varint.encode ect0
  c ← Varint.encode ect1
  some (a ++ (b ++ c))

unfoldable pub encode_ack : ℕ → ℕ → List (ℕ × ℕ) → Option (ℕ × ℕ × ℕ) → Option (List ℕ)
unfolding encode_ranges encode_ecn
encode_ack largest_acked ack_delay ranges ecn = do
  a ← Varint.encode largest_acked
  d ← Varint.encode ack_delay
  n ← Varint.encode (length ranges - 1)
  f ← Varint.encode (first_len ranges)
  more ← encode_ranges (further_ranges ranges)
  e ← encode_ecn ecn
  some ((if is_some ecn then 0x03 else 0x02) ∷ (a ++ (d ++ (n ++ (f ++ (more ++ e))))))

-- One identifier byte before one or two varints.
abbrev pub one_varint : ℕ → ℕ → Option (List ℕ)
one_varint kind v = do a ← Varint.encode v; some (kind ∷ a)

abbrev pub two_varints : ℕ → ℕ → ℕ → Option (List ℕ)
two_varints kind v w = do a ← Varint.encode v; b ← Varint.encode w; some (kind ∷ (a ++ b))

-- The type byte of a STREAM frame.
abbrev pub stream_kind : Bool → Bool → Bool → ℕ
stream_kind fin has_offset has_length =
    let f = (if fin then bit_or 0x08 0x01 else 0x08) in
    let f = (if has_offset then bit_or f 0x04 else f) in if has_length then bit_or f 0x02 else f

-- What `encode` appends.
unfoldable pub frame_bytes : Frame → Option (List ℕ)
unfolding encode_ack
frame_bytes (padding n) = some (replicate n 0)
frame_bytes ping = some (0x01 ∷ [])
frame_bytes (ack largest_acked ack_delay ranges ecn) = encode_ack largest_acked ack_delay ranges ecn
frame_bytes (reset_stream stream_id app_error_code final_size) = do
  a ← Varint.encode stream_id
  b ← Varint.encode app_error_code
  c ← Varint.encode final_size
  some (0x04 ∷ (a ++ (b ++ c)))
frame_bytes (stop_sending stream_id app_error_code) = two_varints 0x05 stream_id app_error_code
frame_bytes (crypto offset bytes) = do
  a ← Varint.encode offset
  b ← Varint.encode (length bytes)
  some (0x06 ∷ (a ++ (b ++ bytes)))
frame_bytes (new_token token) = do a ← Varint.encode (length token); some (0x07 ∷ (a ++ token))
frame_bytes (stream stream_id offset bytes len fin) = do
  a ← Varint.encode stream_id
  o ← encode_optional offset
  l ← encode_optional len
  some (stream_kind fin (is_some offset) (is_some len) ∷ (a ++ (o ++ (l ++ bytes))))
frame_bytes (max_data v) = one_varint 0x10 v
frame_bytes (max_stream_data stream_id max) = two_varints 0x11 stream_id max
frame_bytes (max_streams unidirectional max) =
    one_varint (if unidirectional then 0x13 else 0x12) max
frame_bytes (data_blocked v) = one_varint 0x14 v
frame_bytes (stream_data_blocked stream_id max) = two_varints 0x15 stream_id max
frame_bytes (streams_blocked unidirectional max) =
    one_varint (if unidirectional then 0x17 else 0x16) max
frame_bytes (new_connection_id sequence retire_prior_to connection_id token) = do
  a ← Varint.encode sequence
  b ← Varint.encode retire_prior_to
  some (0x18 ∷ (a ++ (b ++ (as_u8 (length connection_id) ∷ (connection_id ++ token)))))
frame_bytes (retire_connection_id v) = one_varint 0x19 v
frame_bytes (path_challenge d) = some (0x1a ∷ d)
frame_bytes (path_response d) = some (0x1b ∷ d)
frame_bytes (connection_close error_code frame_type reason) = do
  a ← Varint.encode error_code
  t ← encode_optional frame_type
  l ← Varint.encode (length reason)
  some ((if is_some frame_type then 0x1c else 0x1d) ∷ (a ++ (t ++ (l ++ reason))))
frame_bytes handshake_done = some (0x1e ∷ [])
frame_bytes (datagram bytes len) = do
  l ← encode_optional len
  some ((if is_some len then 0x31 else 0x30) ∷ (l ++ bytes))

unfoldable pub encode : Frame → List ℕ → Option (List ℕ)
unfolding frame_bytes
encode f out = do bytes ← frame_bytes f; some (out ++ bytes)

unfoldable pub to_bytes : Frame → Option (List ℕ)
unfolding encode
to_bytes f = encode f []
