-- ===== src/Tests/QuicTests.antt =====
-- Tests of src/courierust_quic.
use courierust.Base.{ℕ, ◌^◌, ◌≤◌, ◌<◌, ◌≡◌, refl, arith, List, [], ◌∷◌, ◌++◌, true, some, length}
use courierust.Error.{ok, err, protocol}
use courierust.Quic.Packet.{initial, long, short, encode_long, encode_short, parse}
use courierust.Quic.Packet.LongRoundTrip.{parse-encode_long}
use courierust.Quic.Packet.Short.{parse-encode_short}
use courierust.Quic.PacketNumber.{decode_pn, nearest}
use courierust.Quic.Varint
use courierust.Quic.Varint.RoundTrip.{decode-encode}
use courierust.Quic.Varint.Bounds.{decode_bounds}
use courierust.Quic.Frame.{Frame, ack, stream, padding}
use courierust.Quic.Frame.Encode.{to_bytes}
use courierust.Quic.Frame.Decode.{decode}
use courierust.Quic.Frame.Cursor
use courierust.Quic.Frame.RoundTrip.{decode-to_bytes}
use courierust.Quic.Frame.Bounds.{decode_consumes}

-- The examples of RFC 9000, appendix A.1.
varint_four_bytes : Varint.decode (0x9d ∷ 0x7f ∷ 0x3e ∷ 0x7d ∷ []) ≡ ok (494878333, 4)
unfolding Varint.decode
varint_four_bytes = refl

varint_two_bytes : Varint.encode 15293 ≡ some (0x7b ∷ 0xbd ∷ [])
unfolding Varint.encode Varint.encode_bytes
varint_two_bytes = refl

-- The value 37 in a form that is longer than need be.
varint_padded : Varint.decode (0x40 ∷ 0x25 ∷ []) ≡ ok (37, 2)
unfolding Varint.decode
varint_padded = refl

ack_underflow : decode (0x02 ∷ 5 ∷ 0 ∷ 0 ∷ 6 ∷ []) ≡ err protocol
unfolding decode Varint.decode Cursor.varint
ack_underflow = refl

stream_with_length :
    to_bytes (stream 4 (some 9) (1 ∷ 2 ∷ []) (some 2) true) ≡ some (0x0f ∷ 4 ∷ 9 ∷ 2 ∷ 1 ∷ 2 ∷ [])
unfolding to_bytes Varint.encode Varint.encode_bytes
stream_with_length = refl

decode-encode_example :
    (bs : List ℕ) × (Varint.encode 37 ≡ some bs)
    × (Varint.decode (bs ++ (1 ∷ [])) ≡ ok (37, length bs))
decode-encode_example = decode-encode 37 (1 ∷ []) (omega arith)

decode_bounds_example :
    (37 ≤ Varint.max) × (1 ≤ 2) × (2 ≤ 2) × (length (Varint.encode_bytes 37) ≤ 2)
decode_bounds_example = decode_bounds (0x40 ∷ 0x25 ∷ []) 37 2 (omega arith) varint_padded

-- Packets 20 to 18 and 13 to 12 are acknowledged, with ECN counts.
abbrev two_ranges : Frame
two_ranges = ack 20 7 ((0, 2) ∷ (3, 1) ∷ []) (some (1, 0, 2))

two_ranges_fit : (bs : List ℕ) → to_bytes two_ranges ≡ some bs → length (bs ++ (1 ∷ [])) < 2 ^ 64
unfolding to_bytes Varint.encode Varint.encode_bytes
two_ranges_fit bs e = ground arith

decode-to_bytes_example :
    (bs : List ℕ) × (to_bytes two_ranges ≡ some bs)
    × (decode (bs ++ (1 ∷ [])) ≡ ok (two_ranges, length bs))
decode-to_bytes_example =
    decode-to_bytes two_ranges (1 ∷ [])
      (omega arith, omega arith, (refl, omega arith, omega arith, omega arith), omega arith)
      two_ranges_fit

two_zeros : decode (0 ∷ 0 ∷ 1 ∷ []) ≡ ok (padding 2, 2)
unfolding decode Cursor.zero_run
two_zeros = refl

decode_consumes_example : (1 ≤ 2) × (2 ≤ 3)
decode_consumes_example = decode_consumes (0 ∷ 0 ∷ 1 ∷ []) (padding 2) 2 (omega arith) two_zeros

-- The example of RFC 9000, appendix A.3.
packet_number_two_bytes : decode_pn (0x9b ∷ 0x32 ∷ []) 0xa82f_30eb 2 ≡ 0xa82f_9b32
unfolding decode_pn nearest
packet_number_two_bytes = refl

-- Packet 0x1234 in one byte, to a receiver that expects 0x1230.
parse-encode_short_example :
    (bytes : List ℕ) × (encode_short (7 ∷ 8 ∷ []) 0x1234 1 true ≡ ok bytes)
    × (parse (bytes ++ (9 ∷ [])) 0x1230 2
        ≡ ok (short (record { dcid = 7 ∷ 8 ∷ []; packet_number = 0x1234; pn_len = 1 })))
parse-encode_short_example =
    parse-encode_short (7 ∷ 8 ∷ []) 0x1234 0x1230 1 true (9 ∷ []) (omega arith) (omega arith)
      (omega arith) (omega arith) (omega arith)
      (record { above = omega arith; below = omega arith })

-- An Initial packet with a token of one byte and ten bytes of payload behind its number.
abbrev ten_bytes : List ℕ
ten_bytes = 0 ∷ 1 ∷ 2 ∷ 3 ∷ 4 ∷ 5 ∷ 6 ∷ 7 ∷ 8 ∷ 9 ∷ []

parse-encode_long_example :
    (bytes : List ℕ) × (encode_long initial (7 ∷ 8 ∷ []) (9 ∷ []) 0x1234 1 (5 ∷ []) 11
      ≡ some (ok bytes))
    × (parse (bytes ++ ten_bytes) 0x1230 0
        ≡ ok (
            long (record {
              packet_type = initial;
              dcid = 7 ∷ 8 ∷ [];
              scid = 9 ∷ [];
              packet_number = 0x1234;
              pn_len = 1;
            })))
parse-encode_long_example =
    parse-encode_long initial (7 ∷ 8 ∷ []) (9 ∷ []) (5 ∷ []) ten_bytes 0x1234 0x1230 1 11 0
      (record {
        not_retry = λ h. cc h;
        short_dcid = omega arith;
        short_scid = omega arith;
        holds_number = omega arith;
        in_payload = omega arith;
        varint_len = omega arith;
        in_memory = omega arith;
      })
      (omega arith) (omega arith) (omega arith) (omega arith)
      (record { above = omega arith; below = omega arith })
