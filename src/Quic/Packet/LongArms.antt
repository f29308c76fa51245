-- ===== src/Quic/Packet/LongArms.antt =====
-- A long header, from its fields on (src/courierust_quic/packet.rs).
use courierust.Base.{
  ℕ, ◌+◌, ◌^◌, ◌<◌, ◌≤◌, ◌≡◌, ◌≢◌, sym, ap, ◌∙◌, arith, List, ◌∷◌, ◌++◌, length, length-append,
}
use mathlib.Core.Path.{ap₂}
use mathlib.Core.List.{append_assoc}
use courierust.Base.Bytes.{as_u8}
use courierust.Error.{ok}
use courierust.Quic.Packet.{
  LongType, retry, long, skip_token, parse_number, parse_long, long_octets,
}
use courierust.Quic.Packet.Long.{ShowsLong, buffer, parse_long-fields, parse_number-read}
use courierust.Quic.PacketNumber.{decode_pn}
use courierust.Quic.Varint

-- The bytes before the token, and their length.
abbrev pub head : ℕ → List ℕ → List ℕ → List ℕ
head first dcid scid = first ∷ 0 ∷ 0 ∷ 0 ∷ 1 ∷ length dcid ∷ (dcid ++ (length scid ∷ scid))

abbrev pub head_len : List ℕ → List ℕ → ℕ
head_len dcid scid = 6 + length dcid + 1 + length scid

pub head_len_lem :
    (first : ℕ) (dcid scid : List ℕ) → head_len dcid scid ≡ length (head first dcid scid)
head_len_lem first dcid scid = omega (arith, length-append dcid (length scid ∷ scid))

pub buffer-head :
    (first : ℕ) (dcid scid behind : List ℕ)
    → buffer first dcid scid behind ≡ head first dcid scid ++ behind
buffer-head first dcid scid behind =
    ap (λ t. first ∷ 0 ∷ 0 ∷ 0 ∷ 1 ∷ length dcid ∷ t)
      (sym (append_assoc dcid (length scid ∷ scid) behind))

module _ (first : ℕ) (packet_type : LongType) (dcid scid token len number payload : List ℕ)
    (expected payload_len : ℕ) where
  abbrev behind : List ℕ
  behind = token ++ (len ++ (number ++ payload))

  -- The arms of the packet types, given where the token ends.
  pub parse_long-behind :
      ShowsLong first packet_type (length number)
      → packet_type ≢ retry
      → length dcid ≤ 20
      → length scid ≤ 20
      → 1 ≤ length number
      → skip_token (buffer first dcid scid behind) packet_type (head_len dcid scid)
        ≡ ok (head_len dcid scid + length token)
      → Varint.decode (len ++ (number ++ payload)) ≡ ok (payload_len, length len)
      → length (buffer first dcid scid behind) < 2 ^ 64
      → length number ≤ payload_len
      → payload_len ≤ length number + length payload
      → parse_long (buffer first dcid scid behind) first expected
        ≡ ok (
            long (record {
              packet_type = packet_type;
              dcid = dcid;
              scid = scid;
              packet_number = decode_pn number expected (length number);
              pn_len = length number;
            }))
  parse_long-behind shown other d s low skipped read small long_enough whole =
      parse_long-fields first dcid scid behind expected (length number)
        (decode_pn number expected (length number)) (head_len dcid scid + length token) packet_type
        shown other d s skipped
        (ap (λ t. parse_number t expected (length number) (head_len dcid scid + length token))
            regroup
          ∙ parse_number-read (head first dcid scid ++ token) len
              (head_len dcid scid + length token)
              (omega
                (arith, head_len_lem first dcid scid, length-append (head first dcid scid) token))
              number payload expected payload_len read (omega (arith, ap length regroup, small))
              long_enough whole)
        (omega (
          arith,
          low,
          length-append token (len ++ (number ++ payload)),
          length-append len (number ++ payload),
          length-append number payload,
        ))
    where
      regroup :
          buffer first dcid scid behind
          ≡ (head first dcid scid ++ token) ++ (len ++ (number ++ payload))
      regroup =
          buffer-head first dcid scid behind
          ∙ sym (append_assoc (head first dcid scid) token (len ++ (number ++ payload)))

pub long_octets-buffer :
    (first : ℕ) (dcid scid token len number payload : List ℕ)
    → length dcid ≤ 20
    → length scid ≤ 20
    → long_octets first dcid scid token len number ++ payload
      ≡ buffer first dcid scid (token ++ (len ++ (number ++ payload)))
long_octets-buffer first dcid scid token len number payload d s =
    ap₂ (λ a b. first ∷ 0 ∷ 0 ∷ 0 ∷ 1 ∷ a ∷ b) {x = as_u8 (length dcid)} (omega arith)
      (append_assoc dcid (as_u8 (length scid) ∷ (scid ++ (token ++ (len ++ number)))) payload
        ∙ ap₂ (λ a b. dcid ++ (a ∷ b)) {x = as_u8 (length scid)} (omega arith)
            (append_assoc scid (token ++ (len ++ number)) payload
              ∙ ap (λ t. scid ++ t)
                  (append_assoc token (len ++ number) payload
                    ∙ ap (λ t. token ++ t) (append_assoc len number payload))))
