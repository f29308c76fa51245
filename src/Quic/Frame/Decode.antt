-- ===== src/Quic/Frame/Decode.antt =====
-- `Frame::decode`, an arm of its match at a time.
use courierust.Base.{
  ℕ, zero, suc, ◌+◌, ◌-◌, ◌^◌, List, [], ◌∷◌, Bool, true, false, not, ◌&&◌, ◌||◌, Option, none,
  some, ltb, leb, ◌==◌, if◌then◌else◌, bit_and,
}
use courierust.Error.{Result, err, unexpected_eof, overflow, protocol}
use courierust.Quic.Frame.Cursor.{
  Cursor, ◌>>=◌, ◌>>◌, pure, reject_if, varint, optional_varint, bytes, byte, remaining, zero_run,
}
use courierust.Quic.Frame.{
  Frame, padding, ping, ack, reset_stream, stop_sending, crypto, new_token, stream, max_data,
  max_stream_data, max_streams, data_blocked, stream_data_blocked, streams_blocked,
  new_connection_id, retire_connection_id, path_challenge, path_response, connection_close,
  handshake_done, datagram,
}

abbrev pub max_ack_ranges : ℕ
max_ack_ranges = 4096

abbrev pub max_connection_id_len : ℕ
max_connection_id_len = 20

unfoldable pub decode_padding : Cursor Frame
decode_padding = do n ← zero_run; pure (padding (1 + n))

-- The loop of the ACK arm; `previous_low` is the smallest packet number acknowledged so far.
unfoldable pub decode_ranges : ℕ → ℕ → Cursor (List (ℕ × ℕ))
decode_ranges zero previous_low = pure []
decode_ranges (suc count) previous_low = do
  gap ← varint
  range_len ← varint
  reject_if (leb (2 ^ 64) (gap + 2)) protocol
  reject_if (ltb previous_low (gap + 2)) protocol
  let next_largest = previous_low - (gap + 2)
  reject_if (ltb next_largest range_len) protocol
  ranges ← decode_ranges count (next_largest - range_len)
  pure ((gap, range_len) ∷ ranges)

unfoldable pub decode_ecn : Bool → Cursor (Option (ℕ × ℕ × ℕ))
decode_ecn false = pure none
decode_ecn true = do ce ← varint; ect0 ← varint; ect1 ← varint; pure (some (ce, ect0, ect1))

unfoldable pub decode_ack : Bool → Cursor Frame
unfolding decode_ranges decode_ecn
decode_ack has_ecn = do
  largest_acked ← varint
  ack_delay ← varint
  range_count ← varint
  reject_if (ltb max_ack_ranges range_count) overflow
  first_range ← varint
  reject_if (ltb largest_acked first_range) protocol
  ranges ← decode_ranges range_count (largest_acked - first_range)
  ecn ← decode_ecn has_ecn
  pure (ack largest_acked ack_delay ((0, first_range) ∷ ranges) ecn)

unfoldable pub decode_reset_stream : Cursor Frame
decode_reset_stream = do
  stream_id ← varint
  app_error_code ← varint
  final_size ← varint
  pure (reset_stream stream_id app_error_code final_size)

unfoldable pub decode_crypto : Cursor Frame
decode_crypto = do offset ← varint; len ← varint; payload ← bytes len; pure (crypto offset payload)

unfoldable pub decode_new_token : Cursor Frame
decode_new_token = do len ← varint; token ← bytes len; pure (new_token token)

-- An explicit length, or the rest of the buffer.
unfoldable pub data_len : Option ℕ → Cursor ℕ
unfolding remaining
data_len (some l) = pure l
data_len none = remaining

unfoldable pub decode_stream : Bool → Bool → Bool → Cursor Frame
unfolding data_len
decode_stream has_offset has_length fin = do
  stream_id ← varint
  offset ← optional_varint has_offset
  len ← optional_varint has_length
  n ← data_len len
  payload ← bytes n
  pure (stream stream_id offset payload len fin)

unfoldable pub decode_new_connection_id : Cursor Frame
decode_new_connection_id = do
  sequence ← varint
  retire_prior_to ← varint
  reject_if (ltb sequence retire_prior_to) protocol
  cid_len ← byte
  reject_if (not (leb 1 cid_len && leb cid_len max_connection_id_len)) protocol
  connection_id ← bytes cid_len
  token ← bytes 16
  pure (new_connection_id sequence retire_prior_to connection_id token)

unfoldable pub decode_connection_close : Bool → Cursor Frame
decode_connection_close is_transport = do
  error_code ← varint
  frame_type ← optional_varint is_transport
  reason_len ← varint
  reason ← bytes reason_len
  pure (connection_close error_code frame_type reason)

-- The length is kept as the number of bytes that were read.
abbrev pub kept_length : Bool → ℕ → Option ℕ
kept_length true n = some n
kept_length false n = none

unfoldable pub decode_datagram : Bool → Cursor Frame
unfolding data_len
decode_datagram has_length = do
  len ← optional_varint has_length
  n ← data_len len
  payload ← bytes n
  pure (datagram payload (kept_length has_length n))

-- An arm that reads one number or two.
abbrev pub one_number : (ℕ → Frame) → Cursor Frame
one_number make = do v ← varint; pure (make v)

abbrev pub two_numbers : (ℕ → ℕ → Frame) → Cursor Frame
two_numbers make = do v ← varint; w ← varint; pure (make v w)

abbrev pub eight_bytes : (List ℕ → Frame) → Cursor Frame
eight_bytes make = do d ← bytes 8; pure (make d)

-- The match on the type byte, in three parts.
unfoldable pub decode_from_1a : ℕ → Cursor Frame
unfolding decode_connection_close decode_datagram
decode_from_1a first =
    if first == 0x1a
    then eight_bytes path_challenge
    else if first == 0x1b
    then eight_bytes path_response
    else if first == 0x1c || first == 0x1d
    then decode_connection_close (first == 0x1c)
    else if first == 0x1e
    then pure handshake_done
    else if first == 0x30 || first == 0x31
    then decode_datagram (first == 0x31)
    else λ buf pos. err protocol

unfoldable pub decode_from_10 : ℕ → Cursor Frame
unfolding decode_new_connection_id decode_from_1a
decode_from_10 first =
    if first == 0x10
    then one_number max_data
    else if first == 0x11
    then two_numbers max_stream_data
    else if first == 0x12 || first == 0x13
    then one_number (max_streams (first == 0x13))
    else if first == 0x14
    then one_number data_blocked
    else if first == 0x15
    then two_numbers stream_data_blocked
    else if first == 0x16 || first == 0x17
    then one_number (streams_blocked (first == 0x17))
    else if first == 0x18
    then decode_new_connection_id
    else if first == 0x19
    then one_number retire_connection_id
    else decode_from_1a first

unfoldable pub decode_from : ℕ → Cursor Frame
unfolding decode_padding decode_ack decode_reset_stream decode_crypto decode_new_token decode_stream
    decode_from_10
decode_from first =
    if first == 0x00
    then decode_padding
    else if first == 0x01
    then pure ping
    else if first == 0x02 || first == 0x03
    then decode_ack (first == 0x03)
    else if first == 0x04
    then decode_reset_stream
    else if first == 0x05
    then two_numbers stop_sending
    else if first == 0x06
    then decode_crypto
    else if first == 0x07
    then decode_new_token
    else if leb 0x08 first && leb first 0x0f
    then decode_stream (not (bit_and first 0x04 == 0)) (not (bit_and first 0x02 == 0))
        (not (bit_and first 0x01 == 0))
    else decode_from_10 first

-- The frame and the number of bytes consumed.
unfoldable pub decode : List ℕ → Result (Frame × ℕ)
unfolding decode_from
decode [] = err unexpected_eof
decode (first ∷ rest) = decode_from first (first ∷ rest) 1
