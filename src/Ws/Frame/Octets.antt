-- ===== src/Ws/Frame/Octets.antt =====
-- The first two bytes of a header (src/courierust_ws/frame.rs), bit by bit.
use courierust.Base.{
  ℕ, ◌+◌, ◌<◌, ◌≡◌, refl, sym, ap, ◌∙◌, arith, Bool, true, false, Option, none, some, if◌then◌else◌,
  bit_and, bit_or,
}
use courierust.Base.Bits.{bit_and_mask, bit_or_high, top_bit}
use courierust.Base.Bytes.{has_bit, all_bytes, agree_on_bytes}
use courierust.Base.Digits.{zero-bit_or}
use courierust.Ws.Frame.{OpCode, continuation, from_u8, first_octet}

-- The first byte that is written shows every field again.
pub record ShowsFields (b : ℕ) (op : OpCode) (fin rsv1 rsv2 rsv3 : Bool) : Type 0 where
  pub shows_opcode : from_u8 (bit_and b 0x0f) ≡ some op
  pub shows_fin : has_bit b 0x80 ≡ fin
  pub shows_rsv1 : has_bit b 0x40 ≡ rsv1
  pub shows_rsv2 : has_bit b 0x20 ≡ rsv2
  pub shows_rsv3 : has_bit b 0x10 ≡ rsv3

pub first_octet-ShowsFields :
    (op : OpCode) (fin rsv1 rsv2 rsv3 : Bool)
    → ShowsFields (first_octet op fin rsv1 rsv2 rsv3) op fin rsv1 rsv2 rsv3
first_octet-ShowsFields continuation fin rsv1 rsv2 rsv3 = ground arith
first_octet-ShowsFields _ fin rsv1 rsv2 rsv3 = ground arith

abbrev pub mask_bit : Bool → ℕ
mask_bit masked = if masked then 0x80 else 0

second_octet : (masked : Bool) (v : ℕ) → v < 128 → bit_or (mask_bit masked) v ≡ mask_bit masked + v
second_octet true v h = bit_or_high 7 1 v h
second_octet false v h = zero-bit_or v ∙ omega arith

pub second_octet-len :
    (masked : Bool) (v : ℕ) → v < 128 → bit_and (bit_or (mask_bit masked) v) 0x7f ≡ v
second_octet-len true v h = omega (arith, second_octet true v h, bit_and_mask 7 (bit_or 0x80 v))
second_octet-len false v h = omega (arith, second_octet false v h, bit_and_mask 7 (bit_or 0 v))

pub second_octet-mask :
    (masked : Bool) (v : ℕ) → v < 128 → has_bit (bit_or (mask_bit masked) v) 0x80 ≡ masked
second_octet-mask true v h =
    ground
      (arith, second_octet true v h, top_bit (bit_or 0x80 v) (omega (arith, second_octet true v h)))
second_octet-mask false v h =
    ground
      (arith, second_octet false v h, top_bit (bit_or 0 v) (omega (arith, second_octet false v h)))

-- The second byte is written back as it was.
pub second_octet_again : (b : ℕ) → b < 256 → bit_or (mask_bit (has_bit b 0x80)) (bit_and b 0x7f) ≡ b
unfolding agree_on_bytes
second_octet_again =
    all_bytes (λ b. bit_or (mask_bit (has_bit b 0x80)) (bit_and b 0x7f)) (λ b. b) refl

-- The opcode that was read, or one that changes the byte.
abbrev opcode_or : Option OpCode → ℕ → ℕ → ℕ
opcode_or none keep b = keep
opcode_or (some op) keep b =
    first_octet op (has_bit b 0x80) (has_bit b 0x40) (has_bit b 0x20) (has_bit b 0x10)

first_octet_all : (b : ℕ) → b < 256 → opcode_or (from_u8 (bit_and b 0x0f)) b b ≡ b
unfolding agree_on_bytes
first_octet_all = all_bytes (λ b. opcode_or (from_u8 (bit_and b 0x0f)) b b) (λ b. b) refl

-- The first byte too, if its opcode is known.
pub first_octet_again :
    (b : ℕ) (op : OpCode)
    → b < 256
    → from_u8 (bit_and b 0x0f) ≡ some op
    → first_octet op (has_bit b 0x80) (has_bit b 0x40) (has_bit b 0x20) (has_bit b 0x10) ≡ b
first_octet_again b op h e = ap (λ read. opcode_or read b b) (sym e) ∙ first_octet_all b h
