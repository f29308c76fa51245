-- ===== src/Tests/WsTests.antt =====
-- Tests of src/courierust_ws/frame.rs and src/courierust_ws/utf8.rs.
use courierust.Base.{ℕ, ◌≡◌, ◌↔◌, refl, arith, List, [], ◌∷◌, ◌++◌, length, drop, true, false, some}
use mathlib.Core.Option.{map}
use courierust.Error.{ok, err, protocol}
use courierust.Io.WriteAll.{Delivers}
use courierust.Ws.Close.{
  CloseFrame, is_valid_received, parse as parse_close, encode as encode_close,
}
use courierust.Ws.Close.Received.{IsReceivable, parse_iff}
use courierust.Ws.Frame.{FrameHeader, Key, text, ping, parse, write, header_len_hint}
use courierust.Ws.Frame.RoundTrip.{IsWritable, parse-write}
use courierust.Ws.Frame.Canonical.{write-parse}
use courierust.Ws.Mask.{new, apply, mask_bytes}
use courierust.Ws.Mask.Apply.{apply-mask_bytes}
use courierust.Ws.Sink.{write_frame}
use courierust.Ws.Sink.Wire.{write_frame-Delivers, on_wire}
use courierust.Ws.Utf8.{fed, feed, feed_bytes, validate}
use courierust.Ws.Utf8.Bytewise.{feed-feed_bytes}
use courierust.Ws.Utf8.Message.{feed-append, then_feed, shifted, validate_iff, IsText}
use courierust.Tests.IoTests.{slow}

abbrev key : Key
key = (1, 2, 3, 4)

-- A masked text of 300 bytes, which takes the 16-bit length.
abbrev long_text : FrameHeader
long_text = record {
  fin = true;
  rsv1 = false;
  rsv2 = false;
  rsv3 = false;
  opcode = text;
  masked = true;
  mask_key = key;
  payload_len = 300;
  header_len = 0;
}

long_text_bytes : write long_text ≡ 0x81 ∷ 0xfe ∷ 1 ∷ 44 ∷ 1 ∷ 2 ∷ 3 ∷ 4 ∷ []
unfolding write
long_text_bytes = refl

long_text-IsWritable : IsWritable long_text
long_text-IsWritable = record {
  short = omega arith;
  whole_control = λ h. cc;
  short_control = λ h. cc;
  plain_key = λ h. cc;
}

parse-write_example :
    parse (write long_text ++ (9 ∷ []))
    ≡ ok (some (record long_text { header_len = length (write long_text) }))
parse-write_example = parse-write long_text (9 ∷ []) long_text-IsWritable

abbrev ping_bytes : List ℕ
ping_bytes = 0x89 ∷ 2 ∷ 7 ∷ 8 ∷ []

abbrev ping_header : FrameHeader
ping_header = record {
  fin = true;
  rsv1 = false;
  rsv2 = false;
  rsv3 = false;
  opcode = ping;
  masked = false;
  mask_key = (0, 0, 0, 0);
  payload_len = 2;
  header_len = 2;
}

ping_parsed : parse ping_bytes ≡ ok (some ping_header)
unfolding parse
ping_parsed = refl

fragmented_ping : parse (9 ∷ 2 ∷ 7 ∷ 8 ∷ []) ≡ err protocol
unfolding parse
fragmented_ping = refl

write-parse_example : write ping_header ++ drop 2 ping_bytes ≡ ping_bytes
write-parse_example = write-parse ping_bytes ping_header (omega arith) ping_parsed

ping_hint : header_len_hint ping_bytes ≡ some 2
unfolding header_len_hint
ping_hint = refl

abbrev payload : List ℕ
payload = 1 ∷ 2 ∷ 3 ∷ 4 ∷ 5 ∷ 6 ∷ 7 ∷ []

masked_payload : apply true (new true key) 1 payload ≡ 3 ∷ 1 ∷ 7 ∷ 5 ∷ 7 ∷ 5 ∷ 3 ∷ []
unfolding apply new
masked_payload = refl

apply-mask_bytes_example : apply false (new false key) 1 payload ≡ mask_bytes key 1 payload
apply-mask_bytes_example = apply-mask_bytes false key 1 payload (omega arith) (omega arith)

write_frame-Delivers_example :
    Delivers slow []
      (ping_bytes ++ on_wire (some key) payload)
      (write_frame slow true [] ping_bytes payload (map (new true) (some key)))
write_frame-Delivers_example =
    write_frame-Delivers slow true [] ping_bytes payload (some key) (omega arith) (omega arith)

-- The euro sign, and a slash in two bytes.
abbrev euro : List ℕ
euro = 0xe2 ∷ 0x82 ∷ 0xac ∷ []

euro_valid : validate euro ≡ true
unfolding validate
euro_valid = refl

overlong_slash : validate (0xe0 ∷ 0x80 ∷ 0xaf ∷ []) ≡ false
unfolding validate
overlong_slash = refl

euro_cut : feed 0 (0xe2 ∷ 0x82 ∷ []) ≡ fed 1
unfolding feed
euro_cut = refl

feed-feed_bytes_example : feed 1 (0xac ∷ euro) ≡ feed_bytes 1 0 (0xac ∷ euro)
feed-feed_bytes_example = feed-feed_bytes 1 (0xac ∷ euro)

feed-append_example :
    feed 0 ((0xe2 ∷ []) ++ (0x82 ∷ 0xac ∷ []))
    ≡ then_feed
        (feed 0 (0xe2 ∷ []))
        (λ s. shifted (length {A = ℕ} (0xe2 ∷ [])) (feed s (0x82 ∷ 0xac ∷ [])))
feed-append_example = feed-append 0 (0xe2 ∷ []) (0x82 ∷ 0xac ∷ [])

validate_iff_example : (validate euro ≡ true) ↔ IsText euro
validate_iff_example = validate_iff euro

-- A normal closure, with the reason "bye".
abbrev bye : CloseFrame
bye = record { code = 1000; reason = b'b' ∷ b'y' ∷ b'e' ∷ [] }

bye_bytes : encode_close bye ≡ 3 ∷ 232 ∷ b'b' ∷ b'y' ∷ b'e' ∷ []
unfolding encode_close
bye_bytes = refl

-- The code 1005 must not stand on the wire.
no_status_refused : parse_close (3 ∷ 237 ∷ []) ≡ err protocol
unfolding parse_close is_valid_received
no_status_refused = refl

parse_iff_example :
    (parse_close (3 ∷ 232 ∷ b'b' ∷ b'y' ∷ b'e' ∷ []) ≡ ok (some bye))
    ↔ ((encode_close bye ≡ 3 ∷ 232 ∷ b'b' ∷ b'y' ∷ b'e' ∷ []) × IsReceivable bye)
parse_iff_example =
    parse_iff (3 ∷ 232 ∷ b'b' ∷ b'y' ∷ b'e' ∷ []) bye
      (omega arith, (omega arith, (omega arith, (omega arith, (omega arith, tt)))))
