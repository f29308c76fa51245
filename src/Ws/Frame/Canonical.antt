-- ===== src/Ws/Frame/Canonical.antt =====
-- A header that is accepted (src/courierust_ws/frame.rs) is the only spelling of its fields.
use courierust.Base.{
  ℕ, zero, suc, ◌+◌, ◌/◌, ◌%◌, ◌^◌, ◌<◌, ◌≤◌, ◌≡◌, refl, sym, ap, ◌∙◌, arith, Bool, true, false,
  some, ◌==◌, bit_and, bit_or, length, List, [], ◌∷◌, ◌++◌, Bool-cases, inl, inr, ltb, leb, le→leb,
  lt→ltb, le→ltb, drop, All,
}
use courierust.Base.Bytes.{
  IsByte, has_bit, as_u8, u16_from_be_bytes, u64_to_be_bytes, u64_from_be_bytes,
  u64_to_be_bytes_lem,
}
use native.Mathlib.Nat.{suc-add}
use courierust.Error.{ok}
use mathlib.Core.List.{append_assoc}
use courierust.Base.Bits.{bit_and_mask}
use courierust.Ws.Frame.{
  FrameHeader, Key, at, extended_len, length_octets, len16, len64, mask_of, key_octets, parse,
  write, first_octet,
}
use courierust.Ws.Frame.Accepted.{parse-ReadFrom}
use courierust.Ws.Frame.Octets.{mask_bit, second_octet_again, first_octet_again}

-- Four bytes in a row.
drop_4 :
    (xs : List ℕ) (i : ℕ)
    → i + 4 ≤ length xs
    → drop i xs ≡ at xs i ∷ at xs (i + 1) ∷ at xs (i + 2) ∷ at xs (i + 3) ∷ drop (i + 4) xs
drop_4 (a ∷ b ∷ c ∷ d ∷ xs) zero h = refl
drop_4 (x ∷ xs) (suc i) h =
    rw (suc-add i 1, suc-add i 2, suc-add i 3, suc-add i 4) (drop_4 xs i (omega arith))
drop_4 xs i h = absurd (omega arith)

-- The second byte with its seven low bits known.
second_octet_known :
    (b1 v : ℕ) → b1 < 256 → bit_and b1 0x7f ≡ v → bit_or (mask_bit (has_bit b1 0x80)) v ≡ b1
second_octet_known b1 v h e =
    ap (bit_or (mask_bit (has_bit b1 0x80))) (sym e) ∙ second_octet_again b1 h

-- The octets of a length that stands in the second byte, in two bytes more, or in eight.
module _ (b1 len : ℕ) (byte : b1 < 256) where
  abbrev Spelled : List ℕ → Type 0
  Spelled more = length_octets (mask_bit (has_bit b1 0x80)) len ≡ b1 ∷ more

  Spelled-7 : len < 126 → bit_and b1 0x7f ≡ len → Spelled []
  Spelled-7 small known = rw (lt→ltb _ _ small) (
      ap (λ v. bit_or (mask_bit (has_bit b1 0x80)) v ∷ []) {y = len} (omega arith)
      ∙ ap (λ v. v ∷ []) (second_octet_known b1 len byte known))

  Spelled-16 :
      (c d : ℕ)
      → IsByte c
      → IsByte d
      → bit_and b1 0x7f ≡ 126
      → 126 ≤ len
      → len ≡ u16_from_be_bytes c d
      → Spelled (c ∷ d ∷ [])
  Spelled-16 c d hc hd known large read =
      rw (le→ltb _ _ large, le→leb _ _ fits) (λ i. octet i ∷ high i ∷ low i ∷ [])
    where
      fits : len ≤ 65535
      fits = omega arith

      octet : bit_or (mask_bit (has_bit b1 0x80)) 126 ≡ b1
      octet = second_octet_known b1 126 byte known

      high : as_u8 (len % 2 ^ 16 / 256) ≡ c
      high = omega arith

      low : as_u8 (len % 2 ^ 16) ≡ d
      low = omega arith

  Spelled-64 :
      (c d e f g h i j : ℕ)
      → All IsByte (c ∷ d ∷ e ∷ f ∷ g ∷ h ∷ i ∷ j ∷ [])
      → bit_and b1 0x7f ≡ 127
      → 65536 ≤ len
      → len ≡ u64_from_be_bytes c d e f g h i j
      → Spelled (c ∷ d ∷ e ∷ f ∷ g ∷ h ∷ i ∷ j ∷ [])
  Spelled-64 c d e f g h i j bytes known large read = rw (large_7, large_16) (λ t. octet t ∷ same t)
    where
      large_7 : ltb len 126 ≡ false
      large_7 = ground arith

      large_16 : leb len 65535 ≡ false
      large_16 = ground arith

      octet : bit_or (mask_bit (has_bit b1 0x80)) 127 ≡ b1
      octet = second_octet_known b1 127 byte known

      same : u64_to_be_bytes len ≡ c ∷ d ∷ e ∷ f ∷ g ∷ h ∷ i ∷ j ∷ []
      same = ap u64_to_be_bytes read ∙ u64_to_be_bytes_lem c d e f g h i j bytes

-- The bytes from the second one on are the length's octets, and then what follows them.
module _ (b0 b1 len need : ℕ) (byte : b1 < 256) where
  abbrev Split : List ℕ → Type 0
  Split rest =
      (need ≤ length (b0 ∷ b1 ∷ rest))
      × (b1 ∷ rest ≡ length_octets (mask_bit (has_bit b1 0x80)) len ++ drop need (b0 ∷ b1 ∷ rest))

  Split-7 : (rest : List ℕ) → len < 126 → bit_and b1 0x7f ≡ len → need ≡ 2 → Split rest
  Split-7 rest small known at_2 = rw (at_2, Spelled-7 b1 len byte small known) (omega arith, refl)

  Split-16 :
      (rest : List ℕ)
      → All IsByte rest
      → bit_and b1 0x7f ≡ 126
      → 4 ≤ length (b0 ∷ b1 ∷ rest)
      → len16 (u16_from_be_bytes (at rest 0) (at rest 1)) ≡ ok (some (len, need))
      → Split rest
  Split-16 (c ∷ d ∷ more) bytes known long read =
      rw (at_4, Spelled-16 b1 len byte c d bytes.0 bytes.1.0 known (ground arith) (ground arith))
        (omega arith, refl)
    where
      at_4 : need ≡ 4
      at_4 = ground arith
  Split-16 rest bytes known long read = absurd (omega arith)

  Split-64 :
      (rest : List ℕ)
      → All IsByte rest
      → bit_and b1 0x7f ≡ 127
      → 10 ≤ length (b0 ∷ b1 ∷ rest)
      → len64 (
          u64_from_be_bytes
            (at rest 0)
            (at rest 1)
            (at rest 2)
            (at rest 3)
            (at rest 4)
            (at rest 5)
            (at rest 6)
            (at rest 7))
        ≡ ok (some (len, need))
      → Split rest
  Split-64 (c ∷ d ∷ e ∷ f ∷ g ∷ h ∷ i ∷ j ∷ more) bytes known long read =
      rw (at_10, Spelled-64 b1 len byte c d e f g h i j eight known (ground arith) (ground arith))
        (omega arith, refl)
    where
      at_10 : need ≡ 10
      at_10 = ground arith

      eight : All IsByte (c ∷ d ∷ e ∷ f ∷ g ∷ h ∷ i ∷ j ∷ [])
      eight = ground arith
  Split-64 rest bytes known long read = absurd (omega arith)

  extended_len-Split :
      (rest : List ℕ)
      → All IsByte rest
      → extended_len (b0 ∷ b1 ∷ rest) (bit_and b1 0x7f) ≡ ok (some (len, need))
      → Split rest
  unfolding extended_len
  extended_len-Split rest bytes read = elim (Bool-cases (bit_and b1 0x7f == 126)) [
    | inl at_126 ↦ Split-16 rest bytes (ground arith) (ground arith) (ground arith)
    | inr other ↦ elim (Bool-cases (bit_and b1 0x7f == 127)) [
      | inl at_127 ↦ Split-64 rest bytes (ground arith) (ground arith) (ground arith)
      | inr short ↦ Split-7 rest (ground (arith, bit_and_mask 7 b1)) (ground arith) (ground arith)
    ]
  ]

-- What stands after the length: the key, and what follows the header.
key-split :
    (buf : List ℕ) (masked : Bool) (key : Key) (need need' : ℕ)
    → need ≤ length buf
    → mask_of buf masked need ≡ some (key, need')
    → drop need buf ≡ key_octets masked key ++ drop need' buf
unfolding mask_of
key-split buf true (a, b, c, d) need need' h e = drop_4 buf need (ground arith) ∙ ground arith
key-split buf false key need need' h e = ground arith

-- An accepted header and the bytes behind it are the buffer: nothing else is read as that header.
pub write-parse :
    (buf : List ℕ) (h : FrameHeader)
    → All IsByte buf
    → parse buf ≡ ok (some h)
    → write h ++ drop h.header_len buf ≡ buf
unfolding write parse
write-parse [] h bytes e = cc
write-parse (b0 ∷ []) h bytes e = cc
write-parse (b0 ∷ b1 ∷ rest) h bytes e =
    let buf : List ℕ = b0 ∷ b1 ∷ rest in
    let behind : List ℕ = drop h.header_len buf in
    let from = parse-ReadFrom b0 b1 rest h e in
    let (long, octets) =
      extended_len-Split b0 b1 h.payload_len from.need bytes.1.0 rest bytes.1.1 from.extended in
    let key = key-split buf (has_bit b1 0x80) h.mask_key from.need h.header_len long from.mask in
    let first = first_octet_again b0 h.opcode bytes.0 from.opcode in
    (λ i.
      first_octet h.opcode (from.fin i) (from.rsv1 i) (from.rsv2 i) (from.rsv3 i)
      ∷ ((length_octets (mask_bit (from.masked i)) h.payload_len
            ++ key_octets (from.masked i) h.mask_key)
          ++ behind))
    ∙ ap
        (λ b.
          b
          ∷ ((length_octets (mask_bit (has_bit b1 0x80)) h.payload_len
                ++ key_octets (has_bit b1 0x80) h.mask_key)
              ++ behind))
        first
    ∙ ap (λ more. b0 ∷ more)
        (append_assoc (length_octets (mask_bit (has_bit b1 0x80)) h.payload_len) _ behind
          ∙ ap (λ more. length_octets (mask_bit (has_bit b1 0x80)) h.payload_len ++ more) (sym key)
          ∙ sym octets)
