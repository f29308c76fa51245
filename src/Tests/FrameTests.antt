-- ===== src/Tests/FrameTests.antt =====
-- Tests of src/courierust_h2/frame.rs.
use courierust.Base.{
  ℕ, ◌≤◌, ◌≡◌, refl, arith, List, [], ◌∷◌, ◌++◌, length, take, drop, true, false, some, none, leb,
  if◌then◌else◌,
}
use courierust.Base.Bytes.{u32_to_be_bytes}
use courierust.Error.{ok, err}
use courierust.H2.Frame.{FrameHeader, Frame, headers, push_promise, window_update}
use courierust.H2.Frame.Header.{is_set, flag_end_headers, encode_header, decode_header}
use courierust.H2.Frame.Parse.{parse, parse_push_promise, frame_size, protocol_violation}
use courierust.H2.Frame.Encode.{encode}
use courierust.H2.Frame.RoundTrip.{parse-encode}
use courierust.H2.Frame.Accepted.{parse-Accepted}
use courierust.H2.Frame.AcceptedArms.{Accepted}
use courierust.H2.Frame.Padding.{parse_push_promise_padded, parse_push_promise_overrun}

-- HEADERS on stream 1 with a priority of the greatest weight, which the model and the code keep as 0.
abbrev request : Frame
request =
    headers 1 (0x82 ∷ 0x84 ∷ []) true true
      (some (record { dependency = 3; exclusive = true; weight = 0 }))

request_bytes :
    encode request
    ≡ 0 ∷ 0 ∷ 7 ∷ 1 ∷ 0x25 ∷ 0 ∷ 0 ∷ 0 ∷ 1 ∷ 0x80 ∷ 0 ∷ 0 ∷ 3 ∷ 255 ∷ 0x82 ∷ 0x84 ∷ []
unfolding encode encode_header
request_bytes = refl

parse-encode_example :
    parse (decode_header (take 9 (encode request))) (drop 9 (encode request)) 16384 ≡ ok request
parse-encode_example =
    parse-encode request 16384 ((omega arith, omega arith), (omega arith, omega arith))
      (omega arith) (unfold encode encode_header in omega arith)

abbrev update_header : FrameHeader
update_header = record { len = 4; kind = 8; flags = 0; stream_id = 1 }

update : parse update_header (0 ∷ 0 ∷ 1 ∷ 0 ∷ []) 16384 ≡ ok (window_update 1 256)
unfolding parse
update = refl

empty_update : parse update_header (0x80 ∷ 0 ∷ 0 ∷ 0 ∷ []) 16384 ≡ err protocol_violation
unfolding parse
empty_update = refl

-- HEADERS with a block of one byte and two bytes of padding.
abbrev padded_header : FrameHeader
padded_header = record { len = 4; kind = 1; flags = 0x0c; stream_id = 1 }

abbrev padded_payload : List ℕ
padded_payload = 2 ∷ 0x82 ∷ 0 ∷ 0 ∷ []

padded : parse padded_header padded_payload 16384 ≡ ok (headers 1 (0x82 ∷ []) false true none)
unfolding parse
padded = refl

-- Four bytes of padding are announced, three are there.
padding_overrun : parse padded_header (4 ∷ 0 ∷ 0 ∷ 0 ∷ []) 16384 ≡ err protocol_violation
unfolding parse
padding_overrun = refl

parse-Accepted_example :
    (padded_header.len ≡ length padded_payload)
    × (padded_header.len ≤ 16384)
    × Accepted 1 0x0c padded_payload (headers 1 (0x82 ∷ []) false true none)
parse-Accepted_example =
    parse-Accepted padded_header padded_payload 16384 (headers 1 (0x82 ∷ []) false true none) padded

-- Six bytes of padding that are there.
parse_push_promise_padded_example :
    parse_push_promise 1 0xc
      (6 ∷ (u32_to_be_bytes 2 ++ ((0x82 ∷ []) ++ (0 ∷ 0 ∷ 0 ∷ 0 ∷ 0 ∷ 0 ∷ []))))
    ≡ (if leb 6 5
        then ok (push_promise 1 2 (0x82 ∷ []) (is_set 0xc flag_end_headers))
        else err frame_size)
parse_push_promise_padded_example =
    parse_push_promise_padded 1 0xc 6 2 (0x82 ∷ []) (0 ∷ 0 ∷ 0 ∷ 0 ∷ 0 ∷ 0 ∷ []) (omega arith) refl
      (omega arith) refl

-- Five bytes of padding that are not there.
parse_push_promise_overrun_example :
    parse_push_promise 1 0xc (5 ∷ (u32_to_be_bytes 2 ++ (0x82 ∷ [])))
    ≡ ok (push_promise 1 2 [] true)
parse_push_promise_overrun_example =
    parse_push_promise_overrun 1 0xc 5 2 (0x82 ∷ []) (omega arith) refl (omega arith) (omega arith)
      (omega arith)
