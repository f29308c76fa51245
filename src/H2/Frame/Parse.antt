-- ===== src/H2/Frame/Parse.antt =====
-- `Frame::parse`, an arm of its match at a time.
use courierust.Base.{
  ℕ, ◌+◌, ◌-◌, ◌%◌, Bool, true, false, not, Option, none, some, List, [], ◌∷◌, length, take, drop,
  ltb, leb, ◌==◌, if◌then◌else◌,
}
use courierust.Base.Bytes.{u16_from_be_bytes, u32_from_be_bytes}
use courierust.Error.{Result, ok, ErrorKind, h2, protocol, ◌>>=◌, ◌>>◌, fail_if, ok_or}
use courierust.H2.ErrorCode.{
  ErrorCode, as_u32, from_u32, protocol_error, frame_size_error, no_error,
}
use courierust.H2.Settings.{Setting}
use courierust.H2.Frame.{
  FrameHeader, LegacyPriority, Frame, data_frame, headers, priority, rst_stream, settings,
  push_promise, ping, go_away, window_update, continuation, priority_update, unknown,
}
use courierust.H2.Frame.Header.{
  at, stream_id_of, is_set, kind_data, kind_headers, kind_priority, kind_rst_stream, kind_settings,
  kind_push_promise, kind_ping, kind_goaway, kind_window_update, kind_continuation,
  kind_priority_update, flag_end_stream, flag_ack, flag_end_headers, flag_padded, flag_priority,
}

abbrev pub protocol_violation : ErrorKind
protocol_violation = h2 (as_u32 protocol_error)

abbrev pub frame_size : ErrorKind
frame_size = h2 (as_u32 frame_size_error)

abbrev pub head? : List ℕ → Option ℕ
head? [] = none
head? (b ∷ bs) = some b

-- `&payload[1..payload.len() - pad]`
unfoldable pub strip_padding : List ℕ → ℕ → ℕ → Result (List ℕ × ℕ)
strip_padding payload flags padded_flag =
    if not (is_set flags padded_flag) then ok (payload, 0) else do
      pad ← ok_or (head? payload) frame_size
      fail_if (leb (length payload) pad) frame_size
      ok (take (length payload - pad - 1) (drop 1 payload), pad)

unfoldable pub parse_data : ℕ → ℕ → List ℕ → Result Frame
unfolding strip_padding
parse_data sid flags payload = do
  fail_if (sid == 0) protocol_violation
  (body, _) ← strip_padding payload flags flag_padded
  ok (data_frame sid body (is_set flags flag_end_stream) (length payload - length body))

-- The Pad Length field, if there is one, and what follows it.
unfoldable pub pad_length : ℕ → List ℕ → Result (ℕ × List ℕ)
pad_length flags payload =
    if not (is_set flags flag_padded)
    then ok (0, payload)
    else do p ← ok_or (head? payload) frame_size; ok (p, drop 1 payload)

-- Five bytes: the exclusive bit with the parent, and the weight less one.
abbrev pub priority_of : List ℕ → LegacyPriority
priority_of raw = record {
  dependency = stream_id_of raw;
  exclusive = is_set (at raw 0) 0x80;
  weight = (at raw 4 + 1) % 256;
}

unfoldable pub headers_priority : ℕ → List ℕ → Result (Option LegacyPriority × List ℕ)
headers_priority flags rest =
    if not (is_set flags flag_priority)
    then ok (none, rest)
    else do fail_if (ltb (length rest) 5) frame_size; ok (some (priority_of rest), drop 5 rest)

unfoldable pub parse_headers : ℕ → ℕ → List ℕ → Result Frame
unfolding pad_length headers_priority
parse_headers sid flags payload = do
  fail_if (sid == 0) protocol_violation
  (pad_len, rest) ← pad_length flags payload
  (prio, rest) ← headers_priority flags rest
  fail_if (ltb (length rest) pad_len) protocol_violation
  ok (
      headers sid (take (length rest - pad_len) rest) (is_set flags flag_end_stream)
        (is_set flags flag_end_headers) prio)

unfoldable pub parse_priority : ℕ → List ℕ → Result Frame
parse_priority sid payload = do
  fail_if (sid == 0) protocol_violation
  fail_if (not (length payload == 5)) frame_size
  ok (priority sid (priority_of payload))

-- `ErrorCode::from_u32(code).unwrap_or(ErrorCode::NoError)`
unfoldable pub code_or_no_error : ℕ → ErrorCode
unfolding from_u32
code_or_no_error code = elim (from_u32 code) [ none ↦ no_error | some c ↦ c ]

abbrev pub word_at : List ℕ → ℕ → ℕ
word_at b i = u32_from_be_bytes (at b i) (at b (i + 1)) (at b (i + 2)) (at b (i + 3))

unfoldable pub parse_rst_stream : ℕ → List ℕ → Result Frame
unfolding code_or_no_error
parse_rst_stream sid payload = do
  fail_if (sid == 0) protocol_violation
  fail_if (not (length payload == 4)) frame_size
  ok (rst_stream sid (code_or_no_error (word_at payload 0)))

-- `payload.chunks_exact(6)`, each chunk an entry.
abbrev pub entries_of : List ℕ → List Setting
entries_of (a ∷ b ∷ c ∷ d ∷ e ∷ f ∷ rest) =
    record { id = u16_from_be_bytes a b; value = u32_from_be_bytes c d e f } ∷ entries_of rest
entries_of _ = []

abbrev pub is_empty : List ℕ → Bool
is_empty [] = true
is_empty (b ∷ bs) = false

-- The two forms of SETTINGS.
abbrev pub settings_ack : List ℕ → Result Frame
settings_ack payload = do fail_if (not (is_empty payload)) frame_size; ok (settings true [])

abbrev pub settings_entries : List ℕ → Result Frame
settings_entries payload = do
  fail_if (not (length payload % 6 == 0)) frame_size
  ok (settings false (entries_of payload))

unfoldable pub parse_settings : ℕ → ℕ → List ℕ → Result Frame
parse_settings sid flags payload = do
  fail_if (not (sid == 0)) protocol_violation
  (if is_set flags flag_ack then settings_ack payload else settings_entries payload)

unfoldable pub parse_push_promise : ℕ → ℕ → List ℕ → Result Frame
unfolding pad_length
parse_push_promise sid flags payload = do
  fail_if (sid == 0) protocol_violation
  (pad_len, rest) ← pad_length flags payload
  fail_if (ltb (length rest) 4) frame_size
  let promised_id = stream_id_of rest
  let rest = drop 4 rest
  fail_if (ltb (length payload) (length rest + pad_len)) frame_size
  ok (
      push_promise sid promised_id (take (length rest - pad_len) rest)
        (is_set flags flag_end_headers))

unfoldable pub parse_ping : ℕ → ℕ → List ℕ → Result Frame
parse_ping sid flags payload = do
  fail_if (not (sid == 0)) protocol_violation
  fail_if (not (length payload == 8)) frame_size
  ok (ping (is_set flags flag_ack) payload)

unfoldable pub parse_goaway : ℕ → List ℕ → Result Frame
unfolding code_or_no_error
parse_goaway sid payload = do
  fail_if (not (sid == 0)) protocol_violation
  fail_if (ltb (length payload) 8) frame_size
  ok (go_away (stream_id_of payload) (code_or_no_error (word_at payload 4)) (drop 8 payload))

unfoldable pub parse_window_update : ℕ → List ℕ → Result Frame
parse_window_update sid payload = do
  fail_if (not (length payload == 4)) frame_size
  fail_if (stream_id_of payload == 0) protocol_violation
  ok (window_update sid (stream_id_of payload))

unfoldable pub parse_continuation : ℕ → ℕ → List ℕ → Result Frame
parse_continuation sid flags payload = do
  fail_if (sid == 0) protocol_violation
  ok (continuation sid (is_set flags flag_end_headers) payload)

unfoldable pub parse_priority_update : ℕ → List ℕ → Result Frame
parse_priority_update sid payload = do
  fail_if (not (sid == 0)) protocol_violation
  fail_if (ltb (length payload) 4) frame_size
  fail_if (stream_id_of payload == 0) protocol_violation
  ok (priority_update (stream_id_of payload) (drop 4 payload))

-- The match on the kind.
unfoldable pub parse_kind : FrameHeader → List ℕ → Result Frame
unfolding parse_data parse_headers parse_priority parse_rst_stream parse_settings parse_push_promise
    parse_ping parse_goaway parse_window_update parse_continuation parse_priority_update
parse_kind header payload =
    let sid = header.stream_id in
    let flags = header.flags in
    if header.kind == kind_data
    then parse_data sid flags payload
    else if header.kind == kind_headers
    then parse_headers sid flags payload
    else if header.kind == kind_priority
    then parse_priority sid payload
    else if header.kind == kind_rst_stream
    then parse_rst_stream sid payload
    else if header.kind == kind_settings
    then parse_settings sid flags payload
    else if header.kind == kind_push_promise
    then parse_push_promise sid flags payload
    else if header.kind == kind_ping
    then parse_ping sid flags payload
    else if header.kind == kind_goaway
    then parse_goaway sid payload
    else if header.kind == kind_window_update
    then parse_window_update sid payload
    else if header.kind == kind_continuation
    then parse_continuation sid flags payload
    else if header.kind == kind_priority_update
    then parse_priority_update sid payload
    else ok (unknown header.kind flags sid payload)

unfoldable pub parse : FrameHeader → List ℕ → ℕ → Result Frame
unfolding parse_kind
parse header payload max_frame_size = do
  fail_if (not (header.len == length payload)) protocol
  fail_if (ltb max_frame_size header.len) frame_size
  parse_kind header payload
