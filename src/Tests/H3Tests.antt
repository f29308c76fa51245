-- ===== src/Tests/H3Tests.antt =====
-- Tests of src/courierust_h3/frame.rs.
use courierust.Base.{ℕ, ◌^◌, ◌≡◌, ◌<◌, refl, arith, some, none, List, [], ◌∷◌, ◌++◌, length}
use courierust.Error.{ok, err, protocol}
use courierust.Quic.Varint
use courierust.H3.Frame.{Frame, settings, to_bytes, decode, decode_body, decode_payload, decode_id}
use courierust.H3.Frame.RoundTrip.{decode-h3_to_bytes}

-- SETTINGS with a limit on the size of a field section.
abbrev one_setting : Frame
one_setting = settings ((6, 16384) ∷ [])

one_setting_bytes : to_bytes one_setting ≡ some (4 ∷ 5 ∷ 6 ∷ 0x80 ∷ 0 ∷ 0x40 ∷ 0 ∷ [])
unfolding to_bytes Varint.encode Varint.encode_bytes
one_setting_bytes = refl

one_setting_fits : (bs : List ℕ) → to_bytes one_setting ≡ some bs → length (bs ++ (9 ∷ [])) < 2 ^ 64
unfolding to_bytes Varint.encode Varint.encode_bytes
one_setting_fits bs e = ground arith

decode-h3_to_bytes_example :
    (bs : List ℕ) × (to_bytes one_setting ≡ some bs)
    × (decode (bs ++ (9 ∷ [])) 0 ≡ ok (some one_setting, length bs))
decode-h3_to_bytes_example =
    decode-h3_to_bytes one_setting (9 ∷ []) (omega arith, (omega arith, omega arith, tt))
      one_setting_fits

-- A frame that is not there as a whole, and one with bytes behind its number.
cut : decode (7 ∷ 2 ∷ 0x40 ∷ []) 0 ≡ ok (none, 0)
unfolding decode decode_body Varint.decode
cut = refl

trailing : decode (7 ∷ 2 ∷ 1 ∷ 1 ∷ []) 0 ≡ err protocol
unfolding decode decode_body decode_payload decode_id Varint.decode
trailing = refl
