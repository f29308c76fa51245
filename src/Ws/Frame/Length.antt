-- ===== src/Ws/Frame/Length.antt =====
-- The payload length of a header (src/courierust_ws/frame.rs), in its three forms.
use courierust.Base.{
  ℕ, suc, ◌%◌, ◌^◌, ◌<◌, ◌≤◌, ◌≡◌, refl, ap, ◌∙◌, arith, Bool, some, bit_and, bit_or, length, List,
  [], ◌∷◌, ◌++◌, Bool-cases, inl, inr, ltb, leb, le→ltb,
}
use courierust.Base.Bytes.{has_bit, as_u8, u16_to_be_bytes, u64_to_be_bytes, u64_from_be_bytes_lem}
use courierust.Error.{ok}
use courierust.Ws.Frame.{extended_len, length_octets, len64}
use courierust.Ws.Frame.Octets.{mask_bit, second_octet-len, second_octet-mask}

-- The length's octets: the first shows the mask bit, and all of them the length.
pub record ReadsLength (masked : Bool) (len b0 : ℕ) (octets tail : List ℕ) : Type 0 where
  pub b1 : ℕ
  pub more : List ℕ
  pub starts : octets ≡ b1 ∷ more
  pub shows_mask : has_bit b1 0x80 ≡ masked
  pub extended :
      extended_len (b0 ∷ b1 ∷ (more ++ tail)) (bit_and b1 0x7f)
      ≡ ok (some (len, suc (length octets)))

module _ (masked : Bool) (len b0 : ℕ) (tail : List ℕ) where
  abbrev Reads : List ℕ → Type 0
  Reads octets = ReadsLength masked len b0 octets tail

  Reads-7 : len < 126 → Reads (bit_or (mask_bit masked) (as_u8 len) ∷ [])
  unfolding extended_len
  Reads-7 h = record {
    b1 = bit_or (mask_bit masked) (as_u8 len);
    more = [];
    starts = refl;
    shows_mask = second_octet-mask masked (as_u8 len) (omega arith);
    extended = rw (second_octet-len masked (as_u8 len) (omega arith)) (ground arith);
  }

  Reads-16 :
      126 ≤ len
      → len < 65536
      → Reads (bit_or (mask_bit masked) 126 ∷ u16_to_be_bytes (len % 2 ^ 16))
  unfolding extended_len
  Reads-16 h k = record {
    b1 = bit_or (mask_bit masked) 126;
    more = u16_to_be_bytes (len % 2 ^ 16);
    starts = refl;
    shows_mask = second_octet-mask masked 126 (omega arith);
    extended = rw (second_octet-len masked 126 (omega arith)) (ground arith);
  }

  len64_lem : 65536 ≤ len → len < 2 ^ 63 → len64 len ≡ ok (some (len, 10))
  len64_lem h k = ground arith

  Reads-64 : 65536 ≤ len → len < 2 ^ 63 → Reads (bit_or (mask_bit masked) 127 ∷ u64_to_be_bytes len)
  unfolding extended_len
  Reads-64 h k =
      let long = b0 ∷ bit_or (mask_bit masked) 127 ∷ (u64_to_be_bytes len ++ tail) in
      record {
        b1 = bit_or (mask_bit masked) 127;
        more = u64_to_be_bytes len;
        starts = refl;
        shows_mask = second_octet-mask masked 127 (omega arith);
        extended =
            rw (second_octet-len masked 127 (omega arith), le→ltb (length long) 10 (omega arith))
              (ap len64 (u64_from_be_bytes_lem len (omega arith)) ∙ len64_lem h k);
      }

  -- Every length of 63 bits is read back.
  pub length_octets-ReadsLength : len < 2 ^ 63 → Reads (length_octets (mask_bit masked) len)
  length_octets-ReadsLength k = elim (Bool-cases (ltb len 126)) [
    | inl small ↦ rw small (Reads-7 (ground arith))
    | inr large ↦ elim (Bool-cases (leb len 65535)) [
      | inl fits ↦ rw (large, fits) (Reads-16 (ground arith) (ground arith))
      | inr wide ↦ rw (large, wide) (Reads-64 (ground arith) k)
    ]
  ]
