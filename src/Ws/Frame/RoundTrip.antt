-- ===== src/Ws/Frame/RoundTrip.antt =====
-- A header that is written (src/courierust_ws/frame.rs) is read back.
use courierust.Base.{
  ℕ, suc, ◌+◌, ◌^◌, ◌<◌, ◌≤◌, ◌≡◌, refl, sym, ap, ◌∙◌, arith, Bool, true, false, some, bit_and,
  length, List, [], ◌∷◌, ◌++◌, Bool-cases, inl, inr, length-append,
}
use courierust.Base.Bytes.{has_bit}
use courierust.Error.{ok}
use mathlib.Core.List.{append_assoc}
use courierust.Ws.Frame.{
  OpCode, FrameHeader, is_control, Key, parse, parse_rest, write, extended_len, mask_of, at,
  length_octets, key_octets, from_u8, first_octet,
}
use courierust.Ws.Frame.Length.{ReadsLength, length_octets-ReadsLength}
use courierust.Ws.Frame.Octets.{ShowsFields, first_octet-ShowsFields, mask_bit}

-- What the writer takes for granted: a 63-bit length, whole and short control frames, and no key
-- where the payload is not masked.
pub record IsWritable (h : FrameHeader) : Type 0 where
  pub short : h.payload_len < 2 ^ 63
  pub whole_control : is_control h.opcode ≡ true → h.fin ≡ true
  pub short_control : is_control h.opcode ≡ true → h.payload_len ≤ 125
  pub plain_key : h.masked ≡ false → h.mask_key ≡ (0, 0, 0, 0)

at-append : (front tail : List ℕ) (i : ℕ) → at (front ++ tail) (length front + i) ≡ at tail i
at-append [] tail i = ap (at tail) (omega arith)
at-append (x ∷ front) tail i = ap (at (x ∷ (front ++ tail))) suc_out ∙ at-append front tail i
  where
    suc_out : suc (length front) + i ≡ suc (length front + i)
    suc_out = omega arith

-- The key stands after the bytes that come before it.
key-after :
    (masked : Bool) (key : Key) (front rest : List ℕ)
    → (masked ≡ false → key ≡ (0, 0, 0, 0))
    → mask_of (front ++ (key_octets masked key ++ rest)) masked (length front)
      ≡ some (key, length front + length (key_octets masked key))
unfolding mask_of
key-after true (a, b, c, d) front rest h = ground (
  arith,
  length-append {0} front (a ∷ b ∷ c ∷ d ∷ rest),
  at-append front (a ∷ b ∷ c ∷ d ∷ rest) 0,
  at-append front (a ∷ b ∷ c ∷ d ∷ rest) 1,
  at-append front (a ∷ b ∷ c ∷ d ∷ rest) 2,
  at-append front (a ∷ b ∷ c ∷ d ∷ rest) 3,
)
key-after false key front rest h = ground (arith, h refl)

-- What was read of the length and of the key, and the fields that the two bytes show.
fields-parse_rest :
    (h : FrameHeader) (buf : List ℕ) (b0 b1 need : ℕ)
    → IsWritable h
    → extended_len buf (bit_and b1 0x7f) ≡ ok (some (h.payload_len, need))
    → mask_of buf (has_bit b1 0x80) need ≡ some (h.mask_key, h.header_len)
    → has_bit b1 0x80 ≡ h.masked
    → ShowsFields b0 h.opcode h.fin h.rsv1 h.rsv2 h.rsv3
    → parse_rest buf b0 b1 h.opcode ≡ ok (some h)
unfolding parse_rest
fields-parse_rest h buf b0 b1 need w extended mask masked shown =
    elim (Bool-cases (is_control h.opcode)) [
      | inl control ↦ ground (arith, masked, w.whole_control control, w.short_control control)
      | inr other ↦ ground (arith, masked)
    ]

open_parse :
    (b0 b1 : ℕ) (rest : List ℕ) (op : OpCode)
    → from_u8 (bit_and b0 0x0f) ≡ some op
    → parse (b0 ∷ b1 ∷ rest) ≡ parse_rest (b0 ∷ b1 ∷ rest) b0 b1 op
unfolding parse
open_parse b0 b1 rest op e = rw (e, parse) refl

-- A header that is written and then followed by anything is read back, with the length that was
-- written for it. The payload length has 63 bits, a control frame is whole and has at most 125
-- bytes of payload, and an unmasked header holds no key.
pub parse-write :
    (h : FrameHeader) (rest : List ℕ)
    → IsWritable h
    → parse (write h ++ rest) ≡ ok (some (record h { header_len = length (write h) }))
unfolding write
parse-write h rest w = rw regroup (
    ap (λ octets. parse (b0 ∷ (octets ++ tail))) read.starts
    ∙ open_parse b0 read.b1 (read.more ++ tail) h.opcode shown.shows_opcode
    ∙ fields-parse_rest written buf b0 read.b1 (suc (length octets)) valid read.extended mask
        read.shows_mask shown)
  where
    b0 : ℕ
    b0 = first_octet h.opcode h.fin h.rsv1 h.rsv2 h.rsv3

    octets : List ℕ
    octets = length_octets (mask_bit h.masked) h.payload_len

    key : List ℕ
    key = key_octets h.masked h.mask_key

    tail : List ℕ
    tail = key ++ rest

    regroup : (octets ++ key) ++ rest ≡ octets ++ tail
    regroup = append_assoc octets key rest

    read : ReadsLength h.masked h.payload_len b0 octets tail
    read = length_octets-ReadsLength h.masked h.payload_len b0 tail w.short

    shown : ShowsFields b0 h.opcode h.fin h.rsv1 h.rsv2 h.rsv3
    shown = first_octet-ShowsFields h.opcode h.fin h.rsv1 h.rsv2 h.rsv3

    buf : List ℕ
    buf = b0 ∷ read.b1 ∷ (read.more ++ tail)

    written : FrameHeader
    written = record h { header_len = length (b0 ∷ (octets ++ key)) }

    valid : IsWritable written
    valid = record {
      short = w.short;
      whole_control = w.whole_control;
      short_control = w.short_control;
      plain_key = w.plain_key;
    }

    total : suc (length octets) + length key ≡ length (b0 ∷ (octets ++ key))
    total = omega (arith, length-append {0} octets key)

    mask :
        mask_of buf (has_bit read.b1 0x80) (suc (length octets))
        ≡ some (h.mask_key, length (b0 ∷ (octets ++ key)))
    mask = rw read.shows_mask (
        ap (λ start. mask_of (b0 ∷ (start ++ tail)) h.masked (suc (length octets)))
          (sym read.starts)
        ∙ key-after h.masked h.mask_key (b0 ∷ octets) rest w.plain_key
        ∙ ap (λ n. some (h.mask_key, n)) total)
