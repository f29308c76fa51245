-- ===== src/H2/Frame/Framing.antt =====
-- Words and frame headers, encoded and decoded.
use courierust.Base.{
  ℕ, ◌+◌, ◌*◌, ◌/◌, ◌%◌, ◌^◌, ◌≤◌, ◌<◌, ◌≡◌, ap, ◌∙◌, arith, List, [], ◌++◌, true, false, length,
  ltb, ◌==◌, take, drop, bit_and, bit_or,
}
use courierust.Base.Bits.{bit_and_mask, bit_or_high}
use courierust.Base.Bytes.{as_u8, u32_to_be_bytes, u32_from_be_bytes_lem}
use courierust.H2.Frame.Header.{stream_id_of, encode_header, decode_header}
use courierust.H2.Frame.Parse.{parse, parse_kind}
use courierust.H2.Frame.Encode.{framed, id_bytes}

mask31 : (v : ℕ) → v < 2 ^ 31 → bit_and v 0x7fff_ffff ≡ v
mask31 v h = omega (arith, bit_and_mask 31 v)

top_seven : (v : ℕ) → v < 2 ^ 31 → bit_and (as_u8 (v / 2 ^ 24)) 0x7f ≡ as_u8 (v / 2 ^ 24)
top_seven v h = omega (arith, bit_and_mask 7 (as_u8 (v / 2 ^ 24)))

pub stream_id_of-bytes :
    (v : ℕ) (rest : List ℕ) → v < 2 ^ 31 → stream_id_of (u32_to_be_bytes v ++ rest) ≡ v
stream_id_of-bytes v rest h = rw (top_seven v h) (u32_from_be_bytes_lem v (omega arith))

pub id_bytes_lem : (v : ℕ) → v < 2 ^ 31 → id_bytes v ≡ u32_to_be_bytes v
id_bytes_lem v h = ap u32_to_be_bytes (mask31 v h)

length_bytes :
    (n : ℕ)
    → n < 2 ^ 24
    → bit_or (bit_or (as_u8 (n / 2 ^ 16) * 2 ^ 16) (as_u8 (n / 2 ^ 8) * 2 ^ 8)) (as_u8 n) ≡ n
length_bytes n h =
    ap (λ t. bit_or t (as_u8 n)) outer
    ∙ bit_or_high 8 (as_u8 (n / 2 ^ 16) * 256 + as_u8 (n / 2 ^ 8)) (as_u8 n) (omega arith)
    ∙ omega arith
  where
    outer :
        bit_or (as_u8 (n / 2 ^ 16) * 2 ^ 16) (as_u8 (n / 2 ^ 8) * 2 ^ 8)
        ≡ (as_u8 (n / 2 ^ 16) * 256 + as_u8 (n / 2 ^ 8)) * 2 ^ 8
    outer =
        bit_or_high 16 (as_u8 (n / 2 ^ 16)) (as_u8 (n / 2 ^ 8) * 2 ^ 8) (omega arith) ∙ omega arith

-- A header that is written is read back.
pub decode-encode_header :
    (n k fl sid : ℕ) (rest : List ℕ)
    → n < 2 ^ 24
    → sid < 2 ^ 31
    → decode_header (take 9 (encode_header n k fl sid ++ rest))
      ≡ record { len = n; kind = k; flags = fl; stream_id = sid }
unfolding decode_header encode_header
decode-encode_header n k fl sid rest hn hs = λ i. record {
  len = length_bytes n hn i;
  kind = k;
  flags = fl;
  stream_id =
      (ap (λ v. stream_id_of (u32_to_be_bytes v)) (mask31 sid hs) ∙ stream_id_of-bytes sid [] hs) i;
}

pub parse-framed :
    (k fl sid max : ℕ) (payload : List ℕ)
    → sid < 2 ^ 31
    → max < 2 ^ 24
    → length payload ≤ max
    → parse
        (decode_header (take 9 (framed k fl sid payload)))
        (drop 9 (framed k fl sid payload))
        max
      ≡ parse_kind (record { len = length payload; kind = k; flags = fl; stream_id = sid }) payload
unfolding parse encode_header
parse-framed k fl sid max payload hs hm hl =
    rw (cut, decode-encode_header (length payload) k fl sid payload (omega arith) hs)
      (rw (same, fits))
  where
    cut : length payload % 2 ^ 32 ≡ length payload
    cut = omega arith

    same : (length payload == length payload) ≡ true
    same = ground arith

    fits : ltb max (length payload) ≡ false
    fits = ground arith
