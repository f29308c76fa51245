-- ===== src/Quic/Packet/Token.antt =====
-- The token of an Initial packet (src/courierust_quic/packet.rs).
use courierust.Base.{
  ℕ, ◌+◌, ◌^◌, ◌<◌, ◌≤◌, ◌≡◌, ◌≢◌, refl, ap, ◌∙◌, arith, List, [], ◌++◌, length, length-append,
  some,
}
use mathlib.Core.Option.{map}
use mathlib.Core.List.{append_assoc}
use courierust.Error.{ok}
use courierust.Quic.Packet.{LongType, initial, zero_rtt, handshake, retry, skip_token, token_octets}
use courierust.Quic.Packet.Long.{skip_token-initial}
use courierust.Quic.Varint
use courierust.Quic.Varint.RoundTrip.{decode-encode_bytes}

pub length-encode_bytes : (v : ℕ) → length (Varint.encode_bytes v) ≤ 8
unfolding Varint.encode_bytes
length-encode_bytes v = ground arith

pub encode-within : (v : ℕ) → v ≤ Varint.max → Varint.encode v ≡ some (Varint.encode_bytes v)
unfolding Varint.encode
encode-within v h = ground arith

-- The token as it is written, and where it ends for the reader.
pub record IsToken (packet_type : LongType) (token tok : List ℕ) : Type 0 where
  pub written_as : token_octets packet_type token ≡ some tok
  pub written_len : length tok ≤ length token + 8
  pub skips :
      (before rest : List ℕ) (pos : ℕ)
      → pos ≡ length before
      → length (before ++ (tok ++ rest)) < 2 ^ 64
      → skip_token (before ++ (tok ++ rest)) packet_type pos ≡ ok (pos + length tok)

pub writes-IsToken :
    (packet_type : LongType) (token : List ℕ)
    → packet_type ≢ retry
    → length token ≤ Varint.max
    → (tok : List ℕ) × IsToken packet_type token tok
writes-IsToken initial token other small =
    let len = Varint.encode_bytes (length token) in
    (
      len ++ token,
      record {
        written_as = ap (map (λ len. len ++ token)) (encode-within (length token) small);
        written_len = omega (arith, length-append len token, length-encode_bytes (length token));
        skips = λ before rest pos at fits.
            let regroup = ap (λ t. before ++ t) (append_assoc len token rest) in
            ap (λ t. skip_token t initial pos) regroup
            ∙ skip_token-initial before len pos at token rest
                (decode-encode_bytes (length token) (token ++ rest) small)
                (omega (arith, ap length regroup, fits))
            ∙ ap ok (omega (arith, length-append len token));
      },
    )
writes-IsToken zero_rtt token other small = (
  [],
  record {
    written_as = refl;
    written_len = omega arith;
    skips = λ before rest pos at fits. unfold skip_token in ap ok (omega arith);
  },
)
writes-IsToken handshake token other small = (
  [],
  record {
    written_as = refl;
    written_len = omega arith;
    skips = λ before rest pos at fits. unfold skip_token in ap ok (omega arith);
  },
)
writes-IsToken retry token other small = absurd (other refl)
