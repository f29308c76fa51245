-- ===== src/Quic/Packet.antt =====
-- src/courierust_quic/packet.rs: the headers of packets, without their protection.
pub mod Short
pub mod Long
pub mod LongArms
pub mod Token
pub mod LongRoundTrip
use courierust.Base.{
  ℕ, suc, true, false, ◌+◌, ◌*◌, ◌-◌, ◌/◌, ◌^◌, Bool, not, ◌&&◌, ◌||◌, List, Option, none, some, [],
  ◌∷◌, ◌++◌, length, take, drop, ltb, ◌==◌, if◌then◌else◌, get_or, bit_and, bit_or,
}
use mathlib.Core.Option.{map}
use courierust.Base.Bytes.{as_u8, has_bit, u32_to_be_bytes, u32_from_be_bytes}
use courierust.Error.{Result, ok, err, protocol, overflow, unexpected_eof, ◌>>=◌, ◌>>◌, fail_if}
use courierust.Quic.PacketNumber.{encode_pn, decode_pn}
use courierust.Quic.Varint

abbrev pub max_connection_id_len : ℕ
max_connection_id_len = 20

pub data LongType : Type 0 where
  initial zero_rtt handshake retry : LongType

pub record LongHeader : Type 0 where
  pub packet_type : LongType
  pub dcid : List ℕ
  pub scid : List ℕ
  pub packet_number : ℕ
  pub pn_len : ℕ

pub record ShortHeader : Type 0 where
  pub dcid : List ℕ
  pub packet_number : ℕ
  pub pn_len : ℕ

pub data Packet : Type 0 where
  long : LongHeader → Packet
  short : ShortHeader → Packet

unfoldable pub pn_len_byte : ℕ → Result ℕ
pn_len_byte pn_len =
    if pn_len == 1
    then ok 0
    else if pn_len == 2
    then ok 1
    else if pn_len == 3
    then ok 2
    else if pn_len == 4
    then ok 3
    else err protocol

-- `0x40 | (u8::from(key_phase) << 2) | pn_len_field`
abbrev pub short_first : Bool → ℕ → ℕ
short_first key_phase field = bit_or (bit_or 0x40 (if key_phase then 4 else 0)) field

unfoldable pub encode_short : List ℕ → ℕ → ℕ → Bool → Result (List ℕ)
unfolding pn_len_byte
encode_short dcid pn pn_len key_phase = do
  field ← pn_len_byte pn_len
  fail_if (ltb max_connection_id_len (length dcid)) protocol
  number ← encode_pn pn pn_len
  ok (short_first key_phase field ∷ (dcid ++ number))

abbrev pub version_1 : ℕ
version_1 = 0x0000_0001

abbrev pub wire : LongType → ℕ
wire initial = 0x00
wire zero_rtt = 0x01
wire handshake = 0x02
wire retry = 0x03

-- `0xc0 | (packet_type.wire() << 4) | pn_len_field`
abbrev pub long_first : LongType → ℕ → ℕ
long_first packet_type field = bit_or (bit_or 0xc0 (wire packet_type * 2 ^ 4)) field

-- The guards of `encode_long`, with the length field and the packet number.
unfoldable pub long_checks : List ℕ → List ℕ → ℕ → ℕ → List ℕ → ℕ → Result (ℕ × List ℕ)
unfolding pn_len_byte
long_checks dcid scid pn pn_len token payload_len = do
  field ← pn_len_byte pn_len
  fail_if (ltb max_connection_id_len (length dcid) || ltb max_connection_id_len (length scid))
      protocol
  fail_if (ltb Varint.max (length token)) overflow
  fail_if (ltb Varint.max payload_len || ltb payload_len pn_len) protocol
  number ← encode_pn pn pn_len
  ok (field, number)

-- The token of an Initial packet, behind its length. `none` is the panic of `varint::encode`.
abbrev pub token_octets : LongType → List ℕ → Option (List ℕ)
token_octets initial token = map (λ len. len ++ token) (Varint.encode (length token))
token_octets _ token = some []

-- The fields in their order.
abbrev pub long_octets : ℕ → List ℕ → List ℕ → List ℕ → List ℕ → List ℕ → List ℕ
long_octets first dcid scid token len number =
    first
    ∷ (u32_to_be_bytes version_1
        ++ (as_u8 (length dcid)
            ∷ (dcid ++ (as_u8 (length scid) ∷ (scid ++ (token ++ (len ++ number)))))))

unfoldable pub encode_long :
    LongType → List ℕ → List ℕ → ℕ → ℕ → List ℕ → ℕ → Option (Result (List ℕ))
encode_long packet_type dcid scid pn pn_len token payload_len =
    elim (long_checks dcid scid pn pn_len token payload_len) [
      | err e ↦ some (err e)
      | ok (field, number) ↦ elim (token_octets packet_type token) [
        | none ↦ none
        | some t ↦ elim (Varint.encode payload_len) [
          | none ↦ none
          | some len ↦ some (ok (long_octets (long_first packet_type field) dcid scid t len number))
        ]
      ]
    ]

abbrev pub long_type : ℕ → LongType
long_type v =
    if v == 0 then initial else if v == 1 then zero_rtt else if v == 2 then handshake else retry

abbrev pub is_retry : LongType → Bool
is_retry retry = true
is_retry _ = false

-- `a.checked_add(b)` on a `usize`, or the error of an offset that overflows.
abbrev pub checked_add : ℕ → ℕ → Result ℕ
checked_add a b = if ltb (a + b) (2 ^ 64) then ok (a + b) else err overflow

-- The position behind the token of an Initial packet.
unfoldable pub skip_token : List ℕ → LongType → ℕ → Result ℕ
skip_token buf initial pos = do
  (token_len, used) ← Varint.decode (drop pos buf)
  pos' ← checked_add pos used
  token_end ← checked_add pos' token_len
  fail_if (ltb (length buf) token_end) unexpected_eof
  ok token_end
skip_token buf _ pos = ok pos

-- The length and the packet number, from `pos` on.
unfoldable pub parse_number : List ℕ → ℕ → ℕ → ℕ → Result ℕ
parse_number buf expected_pn pn_len pos = do
  (payload_len, used) ← Varint.decode (drop pos buf)
  pos' ← checked_add pos used
  fail_if (ltb payload_len pn_len) protocol
  packet_end ← checked_add pos' payload_len
  pn_end ← checked_add pos' pn_len
  fail_if (ltb (length buf) packet_end || ltb (length buf) pn_end) unexpected_eof
  ok (decode_pn (take pn_len (drop pos' buf)) expected_pn pn_len)

-- `parse`, when the first byte has its top bit set.
unfoldable pub parse_long : List ℕ → ℕ → ℕ → Result Packet
parse_long buf first expected_pn = do
  fail_if (ltb (length buf) 7) unexpected_eof
  let packet_type = long_type (bit_and (first / 2 ^ 4) 0x03)
  let version =
      u32_from_be_bytes (get_or buf 1 0) (get_or buf 2 0) (get_or buf 3 0) (get_or buf 4 0)
  fail_if (version == 0) protocol
  let dcid_len = get_or buf 5 0
  let dcid_end = 6 + dcid_len
  fail_if (ltb max_connection_id_len dcid_len || not (ltb dcid_end (length buf))) unexpected_eof
  let scid_len = get_or buf dcid_end 0
  let scid_end = dcid_end + 1 + scid_len
  fail_if (ltb max_connection_id_len scid_len || ltb (length buf) scid_end) unexpected_eof
  fail_if (is_retry packet_type) protocol
  pos ← skip_token buf packet_type scid_end
  let pn_len = 1 + bit_and first 0x03
  pn ← parse_number buf expected_pn pn_len pos
  ok (
      long (record {
        packet_type = packet_type;
        dcid = take dcid_len (drop 6 buf);
        scid = take scid_len (drop (dcid_end + 1) buf);
        packet_number = pn;
        pn_len = pn_len;
      }))

-- `parse`, when it is clear.
unfoldable pub parse_short : List ℕ → ℕ → ℕ → ℕ → Result Packet
parse_short buf first expected_pn local_cid_len = do
  fail_if (ltb max_connection_id_len local_cid_len) protocol
  let start = 1 + local_cid_len
  fail_if (ltb (length buf) (start + 1)) unexpected_eof
  let pn_len = 1 + bit_and first 0x03
  fail_if (ltb (length buf) (start + pn_len)) unexpected_eof
  ok (
      short (record {
        dcid = take local_cid_len (drop 1 buf);
        packet_number = decode_pn (take pn_len (drop start buf)) expected_pn pn_len;
        pn_len = pn_len;
      }))

unfoldable pub parse : List ℕ → ℕ → ℕ → Result Packet
unfolding parse_long
parse [] expected_pn local_cid_len = err unexpected_eof
parse (first ∷ rest) expected_pn local_cid_len =
    if has_bit first 0x80
    then parse_long (first ∷ rest) first expected_pn
    else parse_short (first ∷ rest) first expected_pn local_cid_len
