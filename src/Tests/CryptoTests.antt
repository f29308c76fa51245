-- ===== src/Tests/CryptoTests.antt =====
-- Tests of src/courierust_crypto/base64.rs.
use courierust.Base.{ℕ, ◌≡◌, refl, arith, List, [], ◌∷◌, ◌++◌, length}
use courierust.Error.{ok, err, protocol}
use courierust.Crypto.Base64.{
  alphabet, decode_table, encode, encode_with, encode_2, decode, decode_into, decode_core,
  decode_quanta, quantum, decoded_size, encode_url_no_pad, alphabet_url,
}
use courierust.Crypto.Base64.RoundTrip.{decode_into-encode}
use courierust.Crypto.Base64.Canonical.{encode-decode}
use courierust.Crypto.Base64.Rollback.{decode_into-error}

abbrev fo : List ℕ
fo = 102 ∷ 111 ∷ []

abbrev kept : List ℕ
kept = 1 ∷ []

-- "fo" is "Zm8=".
two_bytes : encode (102 ∷ 111 ∷ []) ≡ 90 ∷ 109 ∷ 56 ∷ 61 ∷ []
unfolding encode encode_with encode_2 alphabet
two_bytes = refl

-- [0xfb, 0xff] is "-_8" in a URL.
url_safe : encode_url_no_pad (0xfb ∷ 0xff ∷ []) ≡ 45 ∷ 95 ∷ 56 ∷ []
unfolding encode_url_no_pad encode_with encode_2 alphabet_url
url_safe = refl

two_bytes_again : decode (90 ∷ 109 ∷ 56 ∷ 61 ∷ []) ≡ ok (102 ∷ 111 ∷ [])
unfolding decode decode_core decode_quanta quantum decode_table alphabet
two_bytes_again = refl

-- "Zm9=" has a bit that belongs to no byte.
not_canonical : decode_into (90 ∷ 109 ∷ 57 ∷ 61 ∷ []) (1 ∷ []) ≡ (err protocol, 1 ∷ [])
unfolding decode_into decode_core decode_quanta quantum decode_table alphabet
not_canonical = refl

decode_into-encode_example :
    (decode_into (encode fo) kept ≡ (ok tt, kept ++ fo))
    × (decoded_size (encode fo) ≡ ok (length fo))
    × (decode (encode fo) ≡ ok fo)
decode_into-encode_example = decode_into-encode fo kept (omega arith)

encode-decode_example : encode fo ≡ 90 ∷ 109 ∷ 56 ∷ 61 ∷ []
encode-decode_example = encode-decode (90 ∷ 109 ∷ 56 ∷ 61 ∷ []) fo (omega arith) two_bytes_again

decode_into-error_example : kept ≡ kept
decode_into-error_example =
    decode_into-error (90 ∷ 109 ∷ 57 ∷ 61 ∷ []) kept kept protocol not_canonical
