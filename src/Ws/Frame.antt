-- ===== src/Ws/Frame.antt =====
-- src/courierust_ws/frame.rs: the header of a frame.
pub mod Octets
pub mod Canonical
pub mod Accepted
pub mod Hint
pub mod Length
pub mod RoundTrip
use courierust.Base.{
  ℕ, ◌+◌, ◌/◌, ◌%◌, ◌^◌, Bool, true, false, not, ◌&&◌, ◌||◌, Option, none, some, List, [], ◌∷◌,
  ◌++◌, length, ltb, leb, ◌==◌, if◌then◌else◌, get_or, bit_and, bit_or,
}
use courierust.Base.Bytes.{
  as_u8, has_bit, u16_to_be_bytes, u16_from_be_bytes, u64_to_be_bytes, u64_from_be_bytes,
}
use courierust.Error.{Result, ok, err, protocol, ◌>>=◌, ◌>>◌, fail_if}

abbrev pub max_control_payload : ℕ
max_control_payload = 125

pub data OpCode : Type 0 where
  continuation text binary close ping pong : OpCode

abbrev pub from_u8 : ℕ → Option OpCode
from_u8 v =
    if v == 0x0
    then some continuation
    else if v == 0x1
    then some text
    else if v == 0x2
    then some binary
    else if v == 0x8
    then some close
    else if v == 0x9
    then some ping
    else if v == 0xa
    then some pong
    else none

abbrev pub to_u8 : OpCode → ℕ
to_u8 continuation = 0x0
to_u8 text = 0x1
to_u8 binary = 0x2
to_u8 close = 0x8
to_u8 ping = 0x9
to_u8 pong = 0xa

abbrev pub is_control : OpCode → Bool
is_control op = has_bit (to_u8 op) 0x08

abbrev pub is_data : OpCode → Bool
is_data op = not (is_control op)

-- `[u8; 4]`
abbrev pub Key : Type 0
Key = ℕ × ℕ × ℕ × ℕ

pub record FrameHeader : Type 0 where
  pub fin : Bool
  pub rsv1 : Bool
  pub rsv2 : Bool
  pub rsv3 : Bool
  pub opcode : OpCode
  pub masked : Bool
  pub mask_key : Key
  pub payload_len : ℕ
  pub header_len : ℕ

-- `FrameHeader::data`
unfoldable pub data_header : OpCode → Bool → ℕ → FrameHeader
data_header opcode fin payload_len = record {
  fin = fin;
  rsv1 = false;
  rsv2 = false;
  rsv3 = false;
  opcode = opcode;
  masked = false;
  mask_key = (0, 0, 0, 0);
  payload_len = payload_len;
  header_len = 0;
}

-- `buf[i]` behind a test of the length.
abbrev pub at : List ℕ → ℕ → ℕ
at buf i = get_or buf i 0

-- The 16-bit length, which has to be too large for 7 bits.
abbrev pub len16 : ℕ → Result (Option (ℕ × ℕ))
len16 v = if ltb v 126 then err protocol else ok (some (v, 4))

-- The 64-bit length, which has to be too large for 16 bits. `v >> 63` is a division.
abbrev pub len64 : ℕ → Result (Option (ℕ × ℕ))
len64 v =
    if not (v / 2 ^ 63 == 0)
    then err protocol
    else if ltb v 65536
    then err protocol
    else ok (some (v, 10))

-- The extended length: the payload length and the bytes needed so far, or `none` for more input.
unfoldable pub extended_len : List ℕ → ℕ → Result (Option (ℕ × ℕ))
extended_len buf len7 =
    if len7 == 126
    then if ltb (length buf) 4 then ok none else len16 (u16_from_be_bytes (at buf 2) (at buf 3))
    else if len7 == 127
    then if ltb (length buf) 10
      then ok none
      else len64 (
          u64_from_be_bytes (at buf 2) (at buf 3) (at buf 4) (at buf 5) (at buf 6) (at buf 7)
            (at buf 8) (at buf 9))
    else ok (some (len7, 2))

-- The key that follows `need` bytes, with the bytes needed then.
unfoldable pub mask_of : List ℕ → Bool → ℕ → Option (Key × ℕ)
mask_of buf masked need =
    if masked
    then if ltb (length buf) (need + 4)
      then none
      else some ((at buf need, at buf (need + 1), at buf (need + 2), at buf (need + 3)), need + 4)
    else some ((0, 0, 0, 0), need)

-- The rules for control frames.
unfoldable pub checked : FrameHeader → Result (Option FrameHeader)
checked h = do
  fail_if (is_control h.opcode && not h.fin) protocol
  fail_if (is_control h.opcode && ltb max_control_payload h.payload_len) protocol
  ok (some h)

-- The header that the two bytes and what follows them spell.
abbrev pub header : ℕ → ℕ → OpCode → ℕ → Key → ℕ → FrameHeader
header b0 b1 opcode payload_len mask_key need = record {
  fin = has_bit b0 0x80;
  rsv1 = has_bit b0 0x40;
  rsv2 = has_bit b0 0x20;
  rsv3 = has_bit b0 0x10;
  opcode = opcode;
  masked = has_bit b1 0x80;
  mask_key = mask_key;
  payload_len = payload_len;
  header_len = need;
}

unfoldable pub after_length : List ℕ → ℕ → ℕ → OpCode → Option (ℕ × ℕ) → Result (Option FrameHeader)
unfolding mask_of checked
after_length buf b0 b1 opcode none = ok none
after_length buf b0 b1 opcode (some (payload_len, need)) =
    elim (mask_of buf (has_bit b1 0x80) need) [
      | none ↦ ok none
      | some (mask_key, need') ↦ checked (header b0 b1 opcode payload_len mask_key need')
    ]

-- The rest of `parse`, once the opcode is known.
unfoldable pub parse_rest : List ℕ → ℕ → ℕ → OpCode → Result (Option FrameHeader)
unfolding extended_len after_length
parse_rest buf b0 b1 opcode = extended_len buf (bit_and b1 0x7f) >>= after_length buf b0 b1 opcode

-- `Ok(None)` asks for more input.
unfoldable pub parse : List ℕ → Result (Option FrameHeader)
unfolding parse_rest
parse [] = ok none
parse (b0 ∷ []) = ok none
parse (b0 ∷ b1 ∷ rest) = elim (from_u8 (bit_and b0 0x0f)) [
  | none ↦ err protocol
  | some opcode ↦ parse_rest (b0 ∷ b1 ∷ rest) b0 b1 opcode
]

unfoldable pub header_len_hint : List ℕ → Option ℕ
header_len_hint [] = none
header_len_hint (b0 ∷ []) = none
header_len_hint (b0 ∷ b1 ∷ rest) =
    let len7 = bit_and b1 0x7f in
    some (
      (if len7 == 126 then 4 else if len7 == 127 then 10 else 2)
      + (if has_bit b1 0x80 then 4 else 0))

unfoldable pub check_reserved : FrameHeader → Bool → Result (Unit {0})
check_reserved h allow_rsv1 =
    let ok_rsv1 = h.rsv1 && allow_rsv1 && is_data h.opcode in
    fail_if ((h.rsv1 && not ok_rsv1) || h.rsv2 || h.rsv3) protocol

-- `byte |= bit` if the flag is set.
abbrev pub with_bit : Bool → ℕ → ℕ → ℕ
with_bit flag bit byte = if flag then bit_or byte bit else byte

-- The first byte: the opcode, FIN and the reserved bits.
abbrev pub first_octet : OpCode → Bool → Bool → Bool → Bool → ℕ
first_octet opcode fin rsv1 rsv2 rsv3 =
    with_bit rsv3 0x10 (with_bit rsv2 0x20 (with_bit rsv1 0x40 (with_bit fin 0x80 (to_u8 opcode))))

abbrev pub length_octets : ℕ → ℕ → List ℕ
length_octets mask_bit len =
    if ltb len 126
    then bit_or mask_bit (as_u8 len) ∷ []
    else if leb len 65535
    then bit_or mask_bit 126 ∷ u16_to_be_bytes (len % 2 ^ 16)
    else bit_or mask_bit 127 ∷ u64_to_be_bytes len

abbrev pub key_octets : Bool → Key → List ℕ
key_octets masked (a, b, c, d) = if masked then a ∷ b ∷ c ∷ d ∷ [] else []

-- The bytes that are written to the front of `out`.
unfoldable pub write : FrameHeader → List ℕ
write h =
    first_octet h.opcode h.fin h.rsv1 h.rsv2 h.rsv3
    ∷ (length_octets (if h.masked then 0x80 else 0) h.payload_len ++ key_octets h.masked h.mask_key)
