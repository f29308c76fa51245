-- ===== src/Quic/Packet/LongRoundTrip.antt =====
-- `encode_long` and `parse` (src/courierust_quic/packet.rs).
use courierust.Base.{
  ℕ, ◌+◌, ◌-◌, ◌*◌, ◌^◌, ◌<◌, ◌≤◌, ◌≡◌, ◌≢◌, refl, sym, ap, ◌∙◌, arith, List, [], ◌++◌, length,
  length-append, some, le→ltb,
}
use mathlib.Core.Path.{subst}
use mathlib.Core.List.{append-nil}
use courierust.Error.{ok}
use courierust.Quic.Packet.{
  LongType, retry, long, skip_token, parse, pn_len_byte, long_first, long_octets, long_checks,
  encode_long,
}
use courierust.Quic.Packet.Long.{ShowsLong, first_shows, buffer, length-buffer}
use courierust.Quic.PacketNumber.{encode_pn, decode_pn}
use courierust.Quic.PacketNumber.Recovery.{IsNear, decode_pn-encode_pn}
use courierust.Quic.Varint
use courierust.Quic.Varint.RoundTrip.{decode-encode_bytes}
use courierust.Quic.Packet.LongArms.{
  head, head_len, head_len_lem, buffer-head, parse_long-behind, long_octets-buffer,
}
use courierust.Quic.Packet.Token.{length-encode_bytes, encode-within, IsToken, writes-IsToken}

-- A long header that can be written, with a packet behind it that holds what it announces.
pub record IsSendable (packet_type : LongType) (dcid scid token payload : List ℕ)
    (n payload_len : ℕ) : Type 0 where
  pub not_retry : packet_type ≢ retry
  pub short_dcid : length dcid ≤ 20
  pub short_scid : length scid ≤ 20
  pub holds_number : n ≤ payload_len
  pub in_payload : payload_len ≤ n + length payload
  pub varint_len : payload_len ≤ Varint.max
  pub in_memory : length token + length payload + 80 < 2 ^ 62

module _ (packet_type : LongType) (dcid scid token payload : List ℕ) (pn n payload_len : ℕ)
    (h : IsSendable packet_type dcid scid token payload n payload_len) where
  open h use {short_dcid, short_scid, not_retry, holds_number, in_payload, varint_len, in_memory}

  long_checks-pass :
      (number : List ℕ)
      → pn_len_byte n ≡ ok (n - 1)
      → encode_pn pn n ≡ ok number
      → long_checks dcid scid pn n token payload_len ≡ ok (n - 1, number)
  unfolding long_checks
  long_checks-pass number field wrote =
      rw
        (
          field,
          le→ltb 20 (length dcid) short_dcid,
          le→ltb 20 (length scid) short_scid,
          le→ltb Varint.max (length token) (omega (arith, in_memory)),
          le→ltb Varint.max payload_len varint_len,
          le→ltb payload_len n holds_number,
          wrote,
        )
        refl

  module _ (number tok : List ℕ) (t : IsToken packet_type token tok) where
    encode_long-writes :
        pn_len_byte n ≡ ok (n - 1)
        → encode_pn pn n ≡ ok number
        → encode_long packet_type dcid scid pn n token payload_len
          ≡ some (
              ok (
                long_octets
                  (long_first packet_type (n - 1))
                  dcid
                  scid
                  tok
                  (Varint.encode_bytes payload_len)
                  number))
    unfolding encode_long
    encode_long-writes field wrote =
        rw
          (
            long_checks-pass number field wrote,
            encode_long,
            t.written_as,
            encode-within payload_len varint_len,
          )
          refl

    abbrev arrived : ℕ → List ℕ
    arrived first =
        buffer first dcid scid (tok ++ (Varint.encode_bytes payload_len ++ (number ++ payload)))

    length-arrived : (first : ℕ) → length number ≤ 4 → length (arrived first) < 2 ^ 64
    length-arrived first low = omega (
      arith,
      low,
      length-buffer first dcid scid
          (tok ++ (Varint.encode_bytes payload_len ++ (number ++ payload))),
      length-append tok (Varint.encode_bytes payload_len ++ (number ++ payload)),
      length-append (Varint.encode_bytes payload_len) (number ++ payload),
      length-append number payload,
      length-encode_bytes payload_len,
      t.written_len,
      short_dcid,
      short_scid,
      in_memory,
    )

    parse-reads :
        (first expected local_cid_len : ℕ)
        → ShowsLong first packet_type n
        → length number ≡ n
        → 1 ≤ n
        → n ≤ 4
        → parse (arrived first) expected local_cid_len
          ≡ ok (
              long (record {
                packet_type = packet_type;
                dcid = dcid;
                scid = scid;
                packet_number = decode_pn number expected n;
                pn_len = n;
              }))
    unfolding parse
    parse-reads first expected local_cid_len shown len low high =
        let small = length-arrived first (omega (arith, len)) in
        let rest = Varint.encode_bytes payload_len ++ (number ++ payload) in
        let regroup = buffer-head first dcid scid (tok ++ rest) in
        rw (shown.shows_long) (
          parse_long-behind first packet_type dcid scid tok (Varint.encode_bytes payload_len) number
            payload expected payload_len (subst (ShowsLong first packet_type) (sym len) shown)
            not_retry short_dcid short_scid (omega (arith, len))
            (ap (λ b. skip_token b packet_type (head_len dcid scid)) regroup
              ∙ t.skips (head first dcid scid) rest (head_len dcid scid)
                  (head_len_lem first dcid scid) (omega (arith, ap length regroup, small)))
            (decode-encode_bytes payload_len (number ++ payload) varint_len) small
            (omega (arith, len, holds_number)) (omega (arith, len, in_payload))
          ∙ ap
              (λ k. ok (
                long (record {
                  packet_type = packet_type;
                  dcid = dcid;
                  scid = scid;
                  packet_number = decode_pn number expected k;
                  pn_len = k;
                })))
              len)

-- A long header that is written, with at least as much payload behind it as it announces, is read
-- as what was written, whatever the receiver's own connection identifiers are: for every type but
-- Retry, with connection identifiers of at most 20 bytes, a payload length that covers the packet
-- number and fits a varint, a buffer that fits memory, and a packet number of 1 to 4 bytes in the
-- window around what the receiver expects.
pub parse-encode_long :
    (packet_type : LongType) (dcid scid token payload : List ℕ)
    (pn expected n payload_len local_cid_len : ℕ)
    → IsSendable packet_type dcid scid token payload n payload_len
    → pn < 2 ^ 64
    → expected < 2 ^ 64
    → 1 ≤ n
    → n ≤ 4
    → IsNear (2 ^ (n * 8 - 1)) expected pn
    → (bytes : List ℕ) × (encode_long packet_type dcid scid pn n token payload_len
        ≡ some (ok bytes))
      × (parse (bytes ++ payload) expected local_cid_len
          ≡ ok (
              long (record {
                packet_type = packet_type;
                dcid = dcid;
                scid = scid;
                packet_number = pn;
                pn_len = n;
              })))
parse-encode_long packet_type dcid scid token payload pn expected n payload_len local_cid_len h fits
      expects low high near =
    let (number, wrote, len, again) =
      decode_pn-encode_pn pn expected n [] fits expects low high near in
    let (field, shown) = first_shows packet_type n low high in
    let (tok, t) = writes-IsToken packet_type token h.not_retry (omega (arith, h.in_memory)) in
    let first = long_first packet_type (n - 1) in
    (
      long_octets first dcid scid tok (Varint.encode_bytes payload_len) number,
      encode_long-writes packet_type dcid scid token payload pn n payload_len h number tok t field
          wrote,
      ap (λ b. parse b expected local_cid_len)
            (long_octets-buffer first dcid scid tok (Varint.encode_bytes payload_len) number payload
              h.short_dcid h.short_scid)
          ∙ parse-reads packet_type dcid scid token payload pn n payload_len h number tok t first
              expected local_cid_len shown len low high
          ∙ ap
              (λ v. ok (
                long (record {
                  packet_type = packet_type;
                  dcid = dcid;
                  scid = scid;
                  packet_number = v;
                  pn_len = n;
                })))
              (ap (λ b. decode_pn b expected n) (sym (append-nil number)) ∙ again),
    )
