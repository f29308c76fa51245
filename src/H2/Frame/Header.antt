-- ===== src/H2/Frame/Header.antt =====
-- Frame kinds, flags, and the nine bytes of a frame header.
use courierust.Base.{ℕ, ◌*◌, ◌/◌, ◌^◌, List, ◌∷◌, Bool, not, ◌==◌, get_or, bit_and, bit_or}
use courierust.Base.Bytes.{as_u8, u32_to_be_bytes, u32_from_be_bytes}
use courierust.H2.Frame.{FrameHeader}

abbrev pub kind_data : ℕ
kind_data = 0x0

abbrev pub kind_headers : ℕ
kind_headers = 0x1

abbrev pub kind_priority : ℕ
kind_priority = 0x2

abbrev pub kind_rst_stream : ℕ
kind_rst_stream = 0x3

abbrev pub kind_settings : ℕ
kind_settings = 0x4

abbrev pub kind_push_promise : ℕ
kind_push_promise = 0x5

abbrev pub kind_ping : ℕ
kind_ping = 0x6

abbrev pub kind_goaway : ℕ
kind_goaway = 0x7

abbrev pub kind_window_update : ℕ
kind_window_update = 0x8

abbrev pub kind_continuation : ℕ
kind_continuation = 0x9

abbrev pub kind_priority_update : ℕ
kind_priority_update = 0x10

abbrev pub flag_end_stream : ℕ
flag_end_stream = 0x1

abbrev pub flag_ack : ℕ
flag_ack = 0x1

abbrev pub flag_end_headers : ℕ
flag_end_headers = 0x4

abbrev pub flag_padded : ℕ
flag_padded = 0x8

abbrev pub flag_priority : ℕ
flag_priority = 0x20

-- `xs[i]` behind a test of the length.
abbrev pub at : List ℕ → ℕ → ℕ
at xs i = get_or xs i 0

-- A stream identifier of 31 bits, big-endian.
abbrev pub stream_id_of : List ℕ → ℕ
stream_id_of b = u32_from_be_bytes (bit_and (at b 0) 0x7f) (at b 1) (at b 2) (at b 3)

abbrev pub is_set : ℕ → ℕ → Bool
is_set flags f = not (bit_and flags f == 0)

unfoldable pub encode_header : ℕ → ℕ → ℕ → ℕ → List ℕ
encode_header len kind flags stream_id =
    as_u8 (len / 2 ^ 16)
    ∷ as_u8 (len / 2 ^ 8)
    ∷ as_u8 len
    ∷ kind
    ∷ flags
    ∷ u32_to_be_bytes (bit_and stream_id 0x7fff_ffff)

-- The argument is `[u8; 9]`.
unfoldable pub decode_header : List ℕ → FrameHeader
decode_header b = record {
  len = bit_or (bit_or (at b 0 * 2 ^ 16) (at b 1 * 2 ^ 8)) (at b 2);
  kind = at b 3;
  flags = at b 4;
  stream_id = u32_from_be_bytes (bit_and (at b 5) 0x7f) (at b 6) (at b 7) (at b 8);
}
