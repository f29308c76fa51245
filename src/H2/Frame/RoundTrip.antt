-- ===== src/H2/Frame/RoundTrip.antt =====
-- Frames: encode, then parse.
use courierust.Base.{
  ℕ, ◌+◌, ◌^◌, ◌≤◌, ◌<◌, ◌≡◌, refl, ap, ◌∙◌, arith, List, [], ◌++◌, true, false, length, take, drop,
  if◌then◌else◌,
}
use courierust.Base.Bytes.{u32_to_be_bytes}
use courierust.Error.{ok}
use courierust.H2.ErrorCode.{as_u32}
use courierust.H2.Settings.{entries_to_wire}
use courierust.H2.Frame.Framing.{id_bytes_lem, parse-framed}
use courierust.H2.Frame.Header.{decode_header, encode_header, flag_end_stream}
use courierust.H2.Frame.Parse.{parse, parse_kind}
use courierust.H2.Frame.Encode.{
  encode, framed, set_if, priority_bytes, optional_priority_bytes, is_some,
}
use courierust.H2.Frame.Arms.{
  headers_flags, PriorityFits, OptionalFits, headers_parses, priority_parses,
}
use courierust.H2.Frame.SimpleArms.{
  header_for, EntriesFit, IsUnknown, data_parses, rst_stream_parses, settings_parses,
  push_promise_parses, ping_parses, go_away_parses, window_update_parses, continuation_parses,
  priority_update_parses, unknown_parses,
}
use courierust.H2.Frame.{
  Frame, data_frame, headers, priority, rst_stream, settings, push_promise, ping, go_away,
  window_update, continuation, priority_update, unknown,
}

-- A stream identifier of 31 bits that is not 0.
abbrev IsStreamId : ℕ → Type 0
IsStreamId sid = (0 < sid) × (sid < 2 ^ 31)

-- The frames that the encoder is meant for: no DATA padding, fields inside their widths, no entries
-- in an acknowledgement, and an unknown frame under a kind that is not taken.
abbrev pub WellFormed : Frame → Type 0
WellFormed (data_frame sid body end_stream padding) = IsStreamId sid × (padding ≡ 0)
WellFormed (headers sid block end_stream end_headers prio) = IsStreamId sid × OptionalFits prio
WellFormed (priority sid p) = IsStreamId sid × PriorityFits p
WellFormed (rst_stream sid code) = IsStreamId sid
WellFormed (settings true entries) = entries ≡ []
WellFormed (settings false entries) = EntriesFit entries
WellFormed (push_promise sid promised_id block end_headers) =
    IsStreamId sid × (promised_id < 2 ^ 31)
WellFormed (ping ack bytes) = length bytes ≡ 8
WellFormed (go_away last_stream_id code debug) = last_stream_id < 2 ^ 31
WellFormed (window_update sid increment) = (sid < 2 ^ 31) × (0 < increment) × (increment < 2 ^ 31)
WellFormed (continuation sid end_headers block) = IsStreamId sid
WellFormed (priority_update sid field) = IsStreamId sid
WellFormed (unknown kind flags sid payload) = (sid < 2 ^ 31) × IsUnknown kind

-- A frame is a header with a payload that its arm of `parse` reads back.
record Framing (f : Frame) : Type 0 where
  k : ℕ
  fl : ℕ
  sid : ℕ
  payload : List ℕ
  written : encode f ≡ framed k fl sid payload
  sid_fits : sid < 2 ^ 31
  parses : parse_kind (header_for k fl sid payload) payload ≡ ok f

frame-Framing : (f : Frame) → WellFormed f → Framing f
unfolding encode
frame-Framing (data_frame sid body es padding) ((h, k), e) = record {
  k = 0;
  fl = set_if es 0 flag_end_stream;
  sid = sid;
  payload = body;
  written = refl;
  sid_fits = k;
  parses = rw e (data_parses sid body es h);
}
frame-Framing (headers sid block es eh prio) ((h, k), fit) = record {
  k = 1;
  fl = headers_flags (is_some prio) eh es;
  sid = sid;
  payload = optional_priority_bytes prio ++ block;
  written = refl;
  sid_fits = k;
  parses = headers_parses sid block es eh prio h fit;
}
frame-Framing (priority sid p) ((h, k), fit) = record {
  k = 2;
  fl = 0;
  sid = sid;
  payload = priority_bytes p;
  written = refl;
  sid_fits = k;
  parses = priority_parses sid p h fit;
}
frame-Framing (rst_stream sid code) (h, k) = record {
  k = 3;
  fl = 0;
  sid = sid;
  payload = u32_to_be_bytes (as_u32 code);
  written = refl;
  sid_fits = k;
  parses = rst_stream_parses sid code h;
}
frame-Framing (settings true entries) e = record {
  k = 4;
  fl = 1;
  sid = 0;
  payload = [];
  written = rw e;
  sid_fits = omega arith;
  parses = unfold parse_kind in rw e;
}
frame-Framing (settings false entries) fit = record {
  k = 4;
  fl = 0;
  sid = 0;
  payload = entries_to_wire entries;
  written = refl;
  sid_fits = omega arith;
  parses = settings_parses entries fit;
}
frame-Framing (push_promise sid promised block eh) ((h, k), p) = record {
  k = 5;
  fl = if eh then 4 else 0;
  sid = sid;
  payload = u32_to_be_bytes promised ++ block;
  written = ap (λ b. framed 5 (if eh then 4 else 0) sid (b ++ block)) (id_bytes_lem promised p);
  sid_fits = k;
  parses = push_promise_parses sid promised block eh h p;
}
frame-Framing (ping ack bytes) e = record {
  k = 6;
  fl = if ack then 1 else 0;
  sid = 0;
  payload = bytes;
  written = refl;
  sid_fits = omega arith;
  parses = ping_parses bytes ack e;
}
frame-Framing (go_away last code debug) h = record {
  k = 7;
  fl = 0;
  sid = 0;
  payload = u32_to_be_bytes last ++ (u32_to_be_bytes (as_u32 code) ++ debug);
  written =
      ap (λ b. framed 7 0 0 (b ++ (u32_to_be_bytes (as_u32 code) ++ debug))) (id_bytes_lem last h);
  sid_fits = omega arith;
  parses = go_away_parses last code debug h;
}
frame-Framing (window_update sid inc) (k, pos, fits) = record {
  k = 8;
  fl = 0;
  sid = sid;
  payload = u32_to_be_bytes inc;
  written = ap (framed 8 0 sid) (id_bytes_lem inc fits);
  sid_fits = k;
  parses = window_update_parses sid inc pos fits;
}
frame-Framing (continuation sid eh block) (h, k) = record {
  k = 9;
  fl = if eh then 4 else 0;
  sid = sid;
  payload = block;
  written = refl;
  sid_fits = k;
  parses = continuation_parses sid block eh h;
}
frame-Framing (priority_update sid field) (h, k) = record {
  k = 16;
  fl = 0;
  sid = 0;
  payload = u32_to_be_bytes sid ++ field;
  written = ap (λ b. framed 16 0 0 (b ++ field)) (id_bytes_lem sid k);
  sid_fits = omega arith;
  parses = priority_update_parses sid field h k;
}
frame-Framing (unknown kind flags sid payload) (k, u) = record {
  k = kind;
  fl = flags;
  sid = sid;
  payload = payload;
  written = refl;
  sid_fits = k;
  parses = unknown_parses kind flags sid payload u;
}

length-framed :
    (k fl sid : ℕ) (payload : List ℕ) → length (framed k fl sid payload) ≡ 9 + length payload
length-framed k fl sid payload = unfold encode_header in omega arith

-- A well-formed frame whose payload is within the receiver's maximum frame size is parsed from the
-- nine bytes of its header and the bytes behind them.
pub parse-encode :
    (f : Frame) (max_frame_size : ℕ)
    → WellFormed f
    → max_frame_size < 2 ^ 24
    → length (encode f) ≤ 9 + max_frame_size
    → parse (decode_header (take 9 (encode f))) (drop 9 (encode f)) max_frame_size ≡ ok f
parse-encode f max_frame_size h hm hl =
    let w = frame-Framing f h in
    rw w.written (
      parse-framed w.k w.fl w.sid max_frame_size w.payload w.sid_fits hm
        (omega (arith, length-framed w.k w.fl w.sid w.payload, rw w.written at hl))
      ∙ w.parses)
