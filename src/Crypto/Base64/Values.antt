-- ===== src/Crypto/Base64/Values.antt =====
-- The characters of a base64 quantum that is accepted (src/courierust_crypto/base64.rs).
use courierust.Base.{
  ℕ, suc, ◌+◌, ◌*◌, ◌/◌, ◌%◌, ◌^◌, ◌<◌, ◌≤◌, ◌≡◌, refl, ◌∙◌, arith, true, false, List, [], ◌∷◌, ltb,
  ◌==◌, Bool-cases, inl, inr,
}
use mathlib.Core.Path.{subst}
use courierust.Base.Bytes.{as_u8}
use courierust.Error.{Result, ok, err}
use courierust.Crypto.Base64.{
  alphabet, decode_table, invalid, equals, encode_1, encode_2, encode_3, read_chars, with_value,
}
use courierust.Crypto.Base64.Quantum.{char, encode_1_lem, encode_2_lem, encode_3_lem}

with_value-eq-ok :
    (v : ℕ) (m : Result (List ℕ × ℕ)) (r : List ℕ × ℕ)
    → with_value v m ≡ ok r
    → (rest : List ℕ × ℕ) × (m ≡ ok rest) × (r ≡ (v ∷ rest.0, rest.1))
with_value-eq-ok v (ok (vals, pad)) r h = ((vals, pad), refl, ground arith)
with_value-eq-ok v (err e) r h = cc

-- A character that is not padding, before any padding.
read_value :
    (i c : ℕ) (cs : List ℕ) (r : List ℕ × ℕ)
    → (c == equals) ≡ false
    → read_chars i 0 (c ∷ cs) ≡ ok r
    → ((decode_table c == invalid) ≡ false)
      × ((rest : List ℕ × ℕ) × (read_chars (suc i) 0 cs ≡ ok rest)
          × (r ≡ (decode_table c ∷ rest.0, rest.1)))
unfolding read_chars
read_value i c cs r value h = elim (Bool-cases (decode_table c == invalid)) [
  | inl bad ↦ absurd (ground arith)
  | inr good ↦ (good, with_value-eq-ok (decode_table c) (read_chars (suc i) 0 cs) r (ground arith))
]

-- Padding, which stands in the second half.
read_padding :
    (i pad c : ℕ) (cs : List ℕ) (r : List ℕ × ℕ)
    → (c == equals) ≡ true
    → read_chars i pad (c ∷ cs) ≡ ok r
    → (2 ≤ i)
      × ((rest : List ℕ × ℕ) × (read_chars (suc i) (suc pad) cs ≡ ok rest)
          × (r ≡ (0 ∷ rest.0, rest.1)))
unfolding read_chars
read_padding i pad c cs r padding h = elim (Bool-cases (ltb i 2)) [
  | inl early ↦ absurd (ground arith)
  | inr late ↦ (ground arith, with_value-eq-ok 0 (read_chars (suc i) (suc pad) cs) r (ground arith))
]

-- Behind padding there is only padding.
read_after :
    (i pad c : ℕ) (cs : List ℕ) (r : List ℕ × ℕ)
    → 0 < pad
    → read_chars i pad (c ∷ cs) ≡ ok r
    → (c == equals) ≡ true
unfolding read_chars
read_after i pad c cs r some_pad h = ground arith

read_end : (i pad : ℕ) (r : List ℕ × ℕ) → read_chars i pad [] ≡ ok r → r ≡ ([], pad)
unfolding read_chars
read_end i pad r h = ground arith

-- The ways to read a quantum.
pub data Read (a b c d : ℕ) (r : List ℕ × ℕ) : Type 0 where
  three :
      (decode_table c == invalid) ≡ false
      → (decode_table d == invalid) ≡ false
      → r ≡ (decode_table a ∷ decode_table b ∷ decode_table c ∷ decode_table d ∷ [], 0)
      → Read a b c d r
  two :
      (decode_table c == invalid) ≡ false
      → d ≡ equals
      → r ≡ (decode_table a ∷ decode_table b ∷ decode_table c ∷ 0 ∷ [], 1)
      → Read a b c d r
  one :
      c ≡ equals
      → d ≡ equals
      → r ≡ (decode_table a ∷ decode_table b ∷ 0 ∷ 0 ∷ [], 2)
      → Read a b c d r

read_last_two :
    (a b c d : ℕ) (r : List ℕ × ℕ)
    → read_chars 2 0 (c ∷ d ∷ []) ≡ ok r
    → Read a b c d (decode_table a ∷ decode_table b ∷ r.0, r.1)
read_last_two a b c d r h = elim (Bool-cases (c == equals)) [
  | inl pad_c ↦
      let (late, (r1, h1, same)) = read_padding 2 0 c (d ∷ []) r pad_c h in
      let pad_d = read_after 3 1 d [] r1 (omega arith) h1 in
      let (late', (r2, h2, same')) = read_padding 3 1 d [] r1 pad_d h1 in
      one (ground arith) (ground arith) (ground (arith, read_end 4 2 r2 h2))
  | inr value_c ↦
      let (good, (r1, h1, same)) = read_value 2 c (d ∷ []) r value_c h in
      elim (Bool-cases (d == equals)) [
        | inl pad_d ↦
            let (late', (r2, h2, same')) = read_padding 3 0 d [] r1 pad_d h1 in
            two good (ground arith) (ground (arith, read_end 4 1 r2 h2))
        | inr value_d ↦
            let (good', (r2, h2, same')) = read_value 3 d [] r1 value_d h1 in
            three good good' (ground (arith, read_end 4 0 r2 h2))
      ]
]

pub read_quantum :
    (a b c d : ℕ) (r : List ℕ × ℕ)
    → read_chars 0 0 (a ∷ b ∷ c ∷ d ∷ []) ≡ ok r
    → ((decode_table a == invalid) ≡ false) × ((decode_table b == invalid) ≡ false) × Read a b c d r
read_quantum a b c d r h = elim (Bool-cases (a == equals)) [
  | inl early ↦ absurd (omega (arith, (read_padding 0 0 a (b ∷ c ∷ d ∷ []) r early h).0))
  | inr value_a ↦
      let (good_a, (r1, h1, same1)) = read_value 0 a (b ∷ c ∷ d ∷ []) r value_a h in
      elim (Bool-cases (b == equals)) [
        | inl early ↦ absurd (omega (arith, (read_padding 1 0 b (c ∷ d ∷ []) r1 early h1).0))
        | inr value_b ↦
            let (good_b, (r2, h2, same2)) = read_value 1 b (c ∷ d ∷ []) r1 value_b h1 in
            (good_a, good_b, subst (Read a b c d) (ground arith) (read_last_two a b c d r2 h2))
      ]
]

-- The characters of the bytes that four values hold.
pub spelled_3 :
    (v w x y : ℕ)
    → v < 64
    → w < 64
    → x < 64
    → y < 64
    → (let n = v * 262144 + w * 4096 + x * 64 + y in
        encode_3 alphabet (as_u8 (n / 2 ^ 16)) (as_u8 (n / 2 ^ 8)) (as_u8 n))
      ≡ char v ∷ char w ∷ char x ∷ char y ∷ []
spelled_3 v w x y hv hw hx hy =
    encode_3_lem (as_u8 (n / 2 ^ 16)) (as_u8 (n / 2 ^ 8)) (as_u8 n) (omega arith) (omega arith)
      (omega arith)
    ∙ λ i. char (first i) ∷ char (second i) ∷ char (third i) ∷ char (fourth i) ∷ []
  where
    n : ℕ
    n = v * 262144 + w * 4096 + x * 64 + y

    first : as_u8 (n / 2 ^ 16) / 4 ≡ v
    first = omega arith

    second : as_u8 (n / 2 ^ 16) % 4 * 16 + as_u8 (n / 2 ^ 8) / 16 ≡ w
    second = omega arith

    third : as_u8 (n / 2 ^ 8) % 16 * 4 + as_u8 n / 64 ≡ x
    third = omega arith

    fourth : as_u8 n % 64 ≡ y
    fourth = omega arith

pub spelled_2 :
    (v w x : ℕ)
    → v < 64
    → w < 64
    → x < 64
    → x % 4 ≡ 0
    → (let n = v * 262144 + w * 4096 + x * 64 + 0 in
        encode_2 alphabet true (as_u8 (n / 2 ^ 16)) (as_u8 (n / 2 ^ 8)))
      ≡ char v ∷ char w ∷ char x ∷ equals ∷ []
spelled_2 v w x hv hw hx low =
    encode_2_lem (as_u8 (n / 2 ^ 16)) (as_u8 (n / 2 ^ 8)) (omega arith) (omega arith) ∙ λ i.
    char (first i) ∷ char (second i) ∷ char (third i) ∷ equals ∷ []
  where
    n : ℕ
    n = v * 262144 + w * 4096 + x * 64 + 0

    first : as_u8 (n / 2 ^ 16) / 4 ≡ v
    first = omega arith

    second : as_u8 (n / 2 ^ 16) % 4 * 16 + as_u8 (n / 2 ^ 8) / 16 ≡ w
    second = omega arith

    third : as_u8 (n / 2 ^ 8) % 16 * 4 ≡ x
    third = omega arith

pub spelled_1 :
    (v w : ℕ)
    → v < 64
    → w < 64
    → w % 16 ≡ 0
    → (let n = v * 262144 + w * 4096 + 0 * 64 + 0 in encode_1 alphabet true (as_u8 (n / 2 ^ 16)))
      ≡ char v ∷ char w ∷ equals ∷ equals ∷ []
spelled_1 v w hv hw low = encode_1_lem (as_u8 (n / 2 ^ 16)) (omega arith) ∙ λ i.
    char (first i) ∷ char (second i) ∷ equals ∷ equals ∷ []
  where
    n : ℕ
    n = v * 262144 + w * 4096 + 0 * 64 + 0

    first : as_u8 (n / 2 ^ 16) / 4 ≡ v
    first = omega arith

    second : as_u8 (n / 2 ^ 16) % 4 * 16 ≡ w
    second = omega arith
