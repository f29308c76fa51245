-- ===== src/Quic/PacketNumber/Recovery.antt =====
-- Packet numbers are recovered from their low bytes (src/courierust_quic/packet.rs).
use courierust.Base.{
  ℕ, zero, suc, ◌+◌, ◌*◌, ◌-◌, ◌/◌, ◌%◌, ◌^◌, ◌<◌, ◌≤◌, ◌≡◌, refl, ap, ◌∙◌, arith, List, [], ◌∷◌,
  ◌++◌, length, take, bit_and, bit_or,
}
use courierust.Base.Bits.{bit_or_high, bit_and_high, shl_or_byte}
use courierust.Base.Bytes.{as_u8}
use courierust.Error.{ok}
use courierust.Quic.PacketNumber.{
  low_bytes, encode_pn, fold_bytes, candidate_of, nearest, decode_pn,
}

-- The number lies in the window of `2 * win` numbers around what is expected.
pub record IsNear (win expected pn : ℕ) : Type 0 where
  pub above : expected < pn + win
  pub below : pn ≤ expected + win

module _ (e pn : ℕ) (small : e < 2 ^ 64) (fits : pn < 2 ^ 64) where
  nearest_8 : IsNear (2 ^ 7) e pn → nearest (2 ^ 7) (2 ^ 8) e (e / 2 ^ 8 * 2 ^ 8 + pn % 2 ^ 8) ≡ pn
  unfolding nearest
  nearest_8 near = ground (arith, near.above, near.below)

  nearest_16 :
      IsNear (2 ^ 15) e pn → nearest (2 ^ 15) (2 ^ 16) e (e / 2 ^ 16 * 2 ^ 16 + pn % 2 ^ 16) ≡ pn
  unfolding nearest
  nearest_16 near = ground (arith, near.above, near.below)

  nearest_24 :
      IsNear (2 ^ 23) e pn → nearest (2 ^ 23) (2 ^ 24) e (e / 2 ^ 24 * 2 ^ 24 + pn % 2 ^ 24) ≡ pn
  unfolding nearest
  nearest_24 near = ground (arith, near.above, near.below)

  nearest_32 :
      IsNear (2 ^ 31) e pn → nearest (2 ^ 31) (2 ^ 32) e (e / 2 ^ 32 * 2 ^ 32 + pn % 2 ^ 32) ≡ pn
  unfolding nearest
  nearest_32 near = ground (arith, near.above, near.below)

-- The high bits of what is expected beside the low bits that were read.
candidate_of_lem :
    (k m e v : ℕ)
    → e < 2 ^ m * 2 ^ k
    → v < 2 ^ k
    → bit_or (bit_and e ((2 ^ m - 1) * 2 ^ k)) v ≡ e / 2 ^ k * 2 ^ k + v
candidate_of_lem k m e v small fits =
    ap (λ t. bit_or t v) (bit_and_high k m e small) ∙ bit_or_high k (e / 2 ^ k) v fits

fold_byte : (acc b : ℕ) → acc < 2 ^ 24 → b < 256 → bit_or (acc * 256 % 2 ^ 64) b ≡ acc * 256 + b
fold_byte acc b small byte =
    ap (λ t. bit_or t b) {x = acc * 256 % 2 ^ 64} (omega arith) ∙ shl_or_byte acc b byte

-- Up to four bytes, read behind a value that leaves room for them.
fold_2 :
    (acc a b : ℕ)
    → acc < 2 ^ 16
    → a < 256
    → b < 256
    → fold_bytes acc (a ∷ b ∷ []) ≡ (acc * 256 + a) * 256 + b
fold_2 acc a b small byte_a byte_b =
    ap (λ t. fold_bytes t (b ∷ [])) (fold_byte acc a (omega arith) byte_a)
    ∙ fold_byte (acc * 256 + a) b (omega arith) byte_b

fold_3 :
    (acc a b c : ℕ)
    → acc < 2 ^ 8
    → a < 256
    → b < 256
    → c < 256
    → fold_bytes acc (a ∷ b ∷ c ∷ []) ≡ ((acc * 256 + a) * 256 + b) * 256 + c
fold_3 acc a b c small byte_a byte_b byte_c =
    ap (λ t. fold_bytes t (b ∷ c ∷ [])) (fold_byte acc a (omega arith) byte_a)
    ∙ fold_2 (acc * 256 + a) b c (omega arith) byte_b byte_c

fold_4 :
    (a b c d : ℕ)
    → a < 256
    → b < 256
    → c < 256
    → d < 256
    → fold_bytes 0 (a ∷ b ∷ c ∷ d ∷ []) ≡ ((a * 256 + b) * 256 + c) * 256 + d
fold_4 a b c d byte_a byte_b byte_c byte_d =
    ap (λ t. fold_bytes t (b ∷ c ∷ d ∷ [])) (fold_byte 0 a (omega arith) byte_a)
    ∙ fold_3 (0 * 256 + a) b c d (omega arith) byte_b byte_c byte_d
    ∙ omega arith

-- What `encode_pn` wrote, read with anything behind it.
fold_bytes-low_bytes :
    (pn n : ℕ) (rest : List ℕ)
    → 1 ≤ n
    → n ≤ 4
    → fold_bytes 0 (take n (low_bytes pn n ++ rest)) ≡ pn % 2 ^ (n * 8)
fold_bytes-low_bytes pn zero rest h k = absurd (omega arith)
fold_bytes-low_bytes pn (suc zero) rest h k =
    fold_byte 0 (as_u8 (pn / 2 ^ 0)) (omega arith) (omega arith) ∙ omega arith
fold_bytes-low_bytes pn (suc (suc zero)) rest h k =
    fold_2 0 (as_u8 (pn / 2 ^ 8)) (as_u8 (pn / 2 ^ 0)) (omega arith) (omega arith) (omega arith)
    ∙ omega arith
fold_bytes-low_bytes pn (suc (suc (suc zero))) rest h k =
    fold_3 0 (as_u8 (pn / 2 ^ 16)) (as_u8 (pn / 2 ^ 8)) (as_u8 (pn / 2 ^ 0)) (omega arith)
      (omega arith) (omega arith) (omega arith)
    ∙ omega arith
fold_bytes-low_bytes pn (suc (suc (suc (suc zero)))) rest h k =
    fold_4 (as_u8 (pn / 2 ^ 24)) (as_u8 (pn / 2 ^ 16)) (as_u8 (pn / 2 ^ 8)) (as_u8 (pn / 2 ^ 0))
      (omega arith) (omega arith) (omega arith) (omega arith)
    ∙ omega arith
fold_bytes-low_bytes pn (suc (suc (suc (suc (suc n))))) rest h k = absurd (omega arith)

module _ (pn e : ℕ) (rest : List ℕ) (fits : pn < 2 ^ 64) (small : e < 2 ^ 64) where
  decode_1 : IsNear (2 ^ 7) e pn → decode_pn (low_bytes pn 1 ++ rest) e 1 ≡ pn
  unfolding decode_pn
  decode_1 near =
      ap (λ v. nearest (2 ^ 7) (2 ^ 8) e (candidate_of 8 e v))
        (fold_bytes-low_bytes pn 1 rest (omega arith) (omega arith))
      ∙ ap (nearest (2 ^ 7) (2 ^ 8) e)
          (candidate_of_lem 8 56 e (pn % 2 ^ 8) (omega arith) (omega arith))
      ∙ nearest_8 e pn small fits near

  decode_2 : IsNear (2 ^ 15) e pn → decode_pn (low_bytes pn 2 ++ rest) e 2 ≡ pn
  unfolding decode_pn
  decode_2 near =
      ap (λ v. nearest (2 ^ 15) (2 ^ 16) e (candidate_of 16 e v))
        (fold_bytes-low_bytes pn 2 rest (omega arith) (omega arith))
      ∙ ap (nearest (2 ^ 15) (2 ^ 16) e)
          (candidate_of_lem 16 48 e (pn % 2 ^ 16) (omega arith) (omega arith))
      ∙ nearest_16 e pn small fits near

  decode_3 : IsNear (2 ^ 23) e pn → decode_pn (low_bytes pn 3 ++ rest) e 3 ≡ pn
  unfolding decode_pn
  decode_3 near =
      ap (λ v. nearest (2 ^ 23) (2 ^ 24) e (candidate_of 24 e v))
        (fold_bytes-low_bytes pn 3 rest (omega arith) (omega arith))
      ∙ ap (nearest (2 ^ 23) (2 ^ 24) e)
          (candidate_of_lem 24 40 e (pn % 2 ^ 24) (omega arith) (omega arith))
      ∙ nearest_24 e pn small fits near

  decode_4 : IsNear (2 ^ 31) e pn → decode_pn (low_bytes pn 4 ++ rest) e 4 ≡ pn
  unfolding decode_pn
  decode_4 near =
      ap (λ v. nearest (2 ^ 31) (2 ^ 32) e (candidate_of 32 e v))
        (fold_bytes-low_bytes pn 4 rest (omega arith) (omega arith))
      ∙ ap (nearest (2 ^ 31) (2 ^ 32) e)
          (candidate_of_lem 32 32 e (pn % 2 ^ 32) (omega arith) (omega arith))
      ∙ nearest_32 e pn small fits near

-- A packet number that is written in 1 to 4 bytes is recovered from them, whatever stands behind,
-- if it lies in the window around what is expected: above `expected - 2 ^ (8 n - 1)` and at most
-- `expected + 2 ^ (8 n - 1)`.
pub decode_pn-encode_pn :
    (pn expected n : ℕ) (rest : List ℕ)
    → pn < 2 ^ 64
    → expected < 2 ^ 64
    → 1 ≤ n
    → n ≤ 4
    → IsNear (2 ^ (n * 8 - 1)) expected pn
    → (bytes : List ℕ) × (encode_pn pn n ≡ ok bytes)
      × (length bytes ≡ n)
      × (decode_pn (bytes ++ rest) expected n ≡ pn)
unfolding encode_pn
decode_pn-encode_pn pn e zero rest fits small low high near = absurd (omega arith)
decode_pn-encode_pn pn e (suc zero) rest fits small low high near =
    (low_bytes pn 1, refl, refl, decode_1 pn e rest fits small near)
decode_pn-encode_pn pn e (suc (suc zero)) rest fits small low high near =
    (low_bytes pn 2, refl, refl, decode_2 pn e rest fits small near)
decode_pn-encode_pn pn e (suc (suc (suc zero))) rest fits small low high near =
    (low_bytes pn 3, refl, refl, decode_3 pn e rest fits small near)
decode_pn-encode_pn pn e (suc (suc (suc (suc zero)))) rest fits small low high near =
    (low_bytes pn 4, refl, refl, decode_4 pn e rest fits small near)
decode_pn-encode_pn pn e (suc (suc (suc (suc (suc n))))) rest fits small low high near =
    absurd (omega arith)
