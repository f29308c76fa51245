-- ===== src/Crypto/Base64/Quantum.antt =====
-- One quantum of base64 (src/courierust_crypto/base64.rs): three bytes as four characters.
use courierust.Base.{
  ℕ, ◌+◌, ◌*◌, ◌/◌, ◌%◌, ◌^◌, ◌<◌, ◌≡◌, refl, ap, ◌∙◌, arith, true, false, [], ◌∷◌, get_or, ltb,
  ◌==◌, if◌then◌else◌, bit_or,
}
use courierust.Base.Bits.{bit_or_high, bit_and_mask}
use courierust.Base.Bytes.{IsByte, all_bytes, agree_on_bytes}
use courierust.Crypto.Base64.{
  alphabet, decode_table, invalid, char_at, word3, equals, encode_1, encode_2, encode_3, word4,
}

abbrev pub char : ℕ → ℕ
char i = get_or alphabet i 0

-- The table and the alphabet, value by value and character by character.
value_again : (i : ℕ) → i < 256 → (if ltb i 64 then decode_table (char i) else i) ≡ i
unfolding agree_on_bytes decode_table alphabet
value_again = all_bytes (λ i. if ltb i 64 then decode_table (char i) else i) (λ i. i) refl

value_not_padding :
    (i : ℕ) → i < 256 → ◌≡◌ {A = ℕ} (if ltb i 64 then (if char i == equals then 1 else 0) else 0) 0
unfolding agree_on_bytes decode_table alphabet
value_not_padding =
    all_bytes (λ i. if ltb i 64 then (if char i == equals then 1 else 0) else 0) (λ i. 0) refl

char_again :
    (c : ℕ) → c < 256 → (if decode_table c == invalid then c else char (decode_table c)) ≡ c
unfolding agree_on_bytes decode_table alphabet
char_again =
    all_bytes (λ c. if decode_table c == invalid then c else char (decode_table c)) (λ c. c) refl

value_small : (c : ℕ) → c < 256 → (if decode_table c == invalid then 0 else decode_table c / 64) ≡ 0
unfolding agree_on_bytes decode_table alphabet
value_small =
    all_bytes (λ c. if decode_table c == invalid then 0 else decode_table c / 64) (λ c. 0) refl

pub decode_table-char :
    (i : ℕ) → i < 64 → (decode_table (char i) ≡ i) × ((char i == equals) ≡ false)
decode_table-char i h =
    ground (arith, value_again i (omega arith), value_not_padding i (omega arith))

pub char-decode_table :
    (c : ℕ)
    → c < 256
    → (decode_table c == invalid) ≡ false
    → (char (decode_table c) ≡ c) × (decode_table c < 64)
char-decode_table c h k = ground (arith, char_again c h, value_small c h)

word2_lem :
    (a b : ℕ)
    → IsByte a
    → IsByte b
    → bit_or (a * 2 ^ 16 % 2 ^ 32) (b * 2 ^ 8 % 2 ^ 32) ≡ a * 65536 + b * 256
word2_lem a b ha hb = (λ i. bit_or (wide i) (middle i)) ∙ bit_or_high 16 a (b * 256) (omega arith)
  where
    wide : a * 2 ^ 16 % 2 ^ 32 ≡ a * 2 ^ 16
    wide = omega arith

    middle : b * 2 ^ 8 % 2 ^ 32 ≡ b * 256
    middle = omega arith

word3_lem : (a b c : ℕ) → IsByte a → IsByte b → IsByte c → word3 a b c ≡ a * 65536 + b * 256 + c
word3_lem a b c ha hb hc =
    ap (λ n. bit_or n c) (word2_lem a b ha hb ∙ shape)
    ∙ bit_or_high 8 (a * 256 + b) c hc
    ∙ omega arith
  where
    shape : a * 65536 + b * 256 ≡ (a * 256 + b) * 2 ^ 8
    shape = omega arith

pub word4_lem :
    (v w x y : ℕ)
    → v < 64
    → w < 64
    → x < 64
    → y < 64
    → word4 (v ∷ w ∷ x ∷ y ∷ []) ≡ v * 262144 + w * 4096 + x * 64 + y
word4_lem v w x y hv hw hx hy =
    ap (λ n. bit_or n y)
      (ap (λ n. bit_or n (x * 2 ^ 6 % 2 ^ 32))
          ((λ i. bit_or (first i) (second i)) ∙ bit_or_high 18 v (w * 4096) (omega arith))
        ∙ (λ i. bit_or (two i) (third i))
        ∙ bit_or_high 12 (v * 64 + w) (x * 64) (omega arith)
        ∙ three)
    ∙ bit_or_high 6 (v * 4096 + w * 64 + x) y hy
    ∙ omega arith
  where
    first : v * 2 ^ 18 % 2 ^ 32 ≡ v * 2 ^ 18
    first = omega arith

    second : w * 2 ^ 12 % 2 ^ 32 ≡ w * 4096
    second = omega arith

    third : x * 2 ^ 6 % 2 ^ 32 ≡ x * 64
    third = omega arith

    two : v * 2 ^ 18 + w * 4096 ≡ (v * 64 + w) * 2 ^ 12
    two = omega arith

    three : (v * 64 + w) * 2 ^ 12 + x * 64 ≡ (v * 4096 + w * 64 + x) * 2 ^ 6
    three = omega arith

-- A character of a word, by the value of its six bits.
char_at_lem : (n shift v : ℕ) → n / 2 ^ shift % 64 ≡ v → char_at alphabet n shift ≡ char v
char_at_lem n shift v e = ap char (bit_and_mask 6 (n / 2 ^ shift) ∙ e)

-- The values of one, two and three bytes.
pub encode_1_lem :
    (a : ℕ)
    → IsByte a
    → encode_1 alphabet true a ≡ char (a / 4) ∷ char (a % 4 * 16) ∷ equals ∷ equals ∷ []
unfolding encode_1
encode_1_lem a ha = λ i.
    char_at_lem (a * 2 ^ 16 % 2 ^ 32) 18 (a / 4) (omega arith) i
    ∷ char_at_lem (a * 2 ^ 16 % 2 ^ 32) 12 (a % 4 * 16) (omega arith) i
    ∷ equals
    ∷ equals
    ∷ []

pub encode_2_lem :
    (a b : ℕ)
    → IsByte a
    → IsByte b
    → encode_2 alphabet true a b
      ≡ char (a / 4) ∷ char (a % 4 * 16 + b / 16) ∷ char (b % 16 * 4) ∷ equals ∷ []
unfolding encode_2
encode_2_lem a b ha hb = λ i.
    char_at_lem n 18 (a / 4) (omega (arith, word2_lem a b ha hb)) i
    ∷ char_at_lem n 12 (a % 4 * 16 + b / 16) (omega (arith, word2_lem a b ha hb)) i
    ∷ char_at_lem n 6 (b % 16 * 4) (omega (arith, word2_lem a b ha hb)) i
    ∷ equals
    ∷ []
  where
    n : ℕ
    n = bit_or (a * 2 ^ 16 % 2 ^ 32) (b * 2 ^ 8 % 2 ^ 32)

pub encode_3_lem :
    (a b c : ℕ)
    → IsByte a
    → IsByte b
    → IsByte c
    → encode_3 alphabet a b c
      ≡ char (a / 4) ∷ char (a % 4 * 16 + b / 16) ∷ char (b % 16 * 4 + c / 64) ∷ char (c % 64) ∷ []
unfolding encode_3
encode_3_lem a b c ha hb hc = λ i.
    char_at_lem (word3 a b c) 18 (a / 4) (omega (arith, word3_lem a b c ha hb hc)) i
    ∷ char_at_lem (word3 a b c) 12 (a % 4 * 16 + b / 16) (omega (arith, word3_lem a b c ha hb hc)) i
    ∷ char_at_lem (word3 a b c) 6 (b % 16 * 4 + c / 64) (omega (arith, word3_lem a b c ha hb hc)) i
    ∷ char_at_lem (word3 a b c) 0 (c % 64) (omega (arith, word3_lem a b c ha hb hc)) i
    ∷ []
