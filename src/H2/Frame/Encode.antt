-- ===== src/H2/Frame/Encode.antt =====
-- `Frame::encode`, and `Frame::stream_id`. The bytes are those that `encode` appends; a length is
-- cut to 32 bits and then written in 24.
use courierust.Base.{
  ℕ, ◌+◌, ◌%◌, ◌^◌, Bool, true, false, Option, none, some, List, [], ◌∷◌, ◌++◌, length,
  if◌then◌else◌, bit_and, bit_or,
}
use courierust.Base.Bytes.{u32_to_be_bytes}
use courierust.H2.ErrorCode.{as_u32}
use courierust.H2.Settings.{entries_to_wire}
use courierust.H2.Frame.{
  LegacyPriority, Frame, data_frame, headers, priority, rst_stream, settings, push_promise, ping,
  go_away, window_update, continuation, priority_update, unknown,
}
use courierust.H2.Frame.Header.{
  encode_header, kind_data, kind_headers, kind_priority, kind_rst_stream, kind_settings,
  kind_push_promise, kind_ping, kind_goaway, kind_window_update, kind_continuation,
  kind_priority_update, flag_end_stream, flag_ack, flag_end_headers, flag_priority,
}

-- `f |= bit` if the condition holds.
abbrev pub set_if : Bool → ℕ → ℕ → ℕ
set_if b f bit = if b then bit_or f bit else f

abbrev pub priority_bytes : LegacyPriority → List ℕ
priority_bytes p =
    u32_to_be_bytes (if p.exclusive then bit_or p.dependency 0x8000_0000 else p.dependency)
    ++ ((p.weight + 255) % 256 ∷ [])

abbrev pub optional_priority_bytes : Option LegacyPriority → List ℕ
optional_priority_bytes none = []
optional_priority_bytes (some p) = priority_bytes p

abbrev pub is_some : Option LegacyPriority → Bool
is_some none = false
is_some (some p) = true

abbrev pub id_bytes : ℕ → List ℕ
id_bytes id = u32_to_be_bytes (bit_and id 0x7fff_ffff)

-- A header for the payload, and the payload.
abbrev pub framed : ℕ → ℕ → ℕ → List ℕ → List ℕ
framed kind flags stream_id payload =
    encode_header (length payload % 2 ^ 32) kind flags stream_id ++ payload

unfoldable pub encode : Frame → List ℕ
unfolding encode_header
encode (data_frame sid body end_stream padding) =
    framed kind_data (set_if end_stream 0 flag_end_stream) sid body
encode (headers sid block end_stream end_headers prio) =
    framed kind_headers
      (set_if (is_some prio)
        (set_if end_headers (set_if end_stream 0 flag_end_stream) flag_end_headers) flag_priority)
      sid (optional_priority_bytes prio ++ block)
encode (priority sid p) = framed kind_priority 0 sid (priority_bytes p)
encode (rst_stream sid code) = framed kind_rst_stream 0 sid (u32_to_be_bytes (as_u32 code))
encode (settings ack entries) =
    framed kind_settings (if ack then flag_ack else 0) 0 (entries_to_wire entries)
encode (push_promise sid promised_id block end_headers) =
    framed kind_push_promise (if end_headers then flag_end_headers else 0) sid
      (id_bytes promised_id ++ block)
encode (ping ack bytes) = framed kind_ping (if ack then flag_ack else 0) 0 bytes
encode (go_away last_stream_id code debug) =
    framed kind_goaway 0 0 (id_bytes last_stream_id ++ (u32_to_be_bytes (as_u32 code) ++ debug))
encode (window_update sid increment) = framed kind_window_update 0 sid (id_bytes increment)
encode (continuation sid end_headers block) =
    framed kind_continuation (if end_headers then flag_end_headers else 0) sid block
encode (priority_update sid field) = framed kind_priority_update 0 0 (id_bytes sid ++ field)
encode (unknown kind flags sid payload) = framed kind flags sid payload

unfoldable pub stream_id : Frame → ℕ
stream_id (data_frame sid body end_stream padding) = sid
stream_id (headers sid block end_stream end_headers prio) = sid
stream_id (priority sid p) = sid
stream_id (rst_stream sid code) = sid
stream_id (push_promise sid promised_id block end_headers) = sid
stream_id (continuation sid end_headers block) = sid
stream_id (window_update sid increment) = sid
stream_id _ = 0
