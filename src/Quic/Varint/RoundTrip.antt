-- ===== src/Quic/Varint/RoundTrip.antt =====
-- Varints: encode, then decode.
use courierust.Base.{
  ℕ, zero, suc, ◌+◌, ◌-◌, ◌*◌, ◌/◌, ◌%◌, ◌^◌, ◌≤◌, ◌<◌, bit_and, bit_or, List, [], ◌∷◌, ◌++◌,
  length, All, ◌≡◌, refl, ap, ◌∙◌, map, arith, ltb, false, inl, inr, Bool-cases, ltb→lt, le→ltb,
  length-append, take-append, some,
}
use courierust.Base.Bits.{bit_or_high, bit_and_mask, low_six_bits, shl_or_byte}
use courierust.Base.Bytes.{IsByte, as_u8}
use courierust.Error.{ok}
use courierust.Quic.Varint.{max, encode, encode_bytes, decode, announced_len, accumulate}
use mathlib.Core.List.{foldl}
use native.Mathlib.Nat.{pow-suc, add-zero, add-suc, suc-add}

low_byte : (v : ℕ) → as_u8 (bit_and v 0xff) ≡ v % 256
low_byte v = omega (arith, bit_and_mask 8 v)

accumulate_lem : (v b : ℕ) → v < 2 ^ 56 → b < 256 → accumulate v b ≡ v * 256 + b
accumulate_lem v b hv hb = ap (λ t. bit_or t b) (omega arith) ∙ shl_or_byte v b hb

-- The rounds of the loop that a varint of up to eight bytes makes.
abbrev pub be_value : ℕ → List ℕ → ℕ
be_value t [] = t
be_value t (b ∷ bs) = be_value (t * 256 + b) bs

fits_accumulate : (k t : ℕ) → k ≤ 6 → t < 64 * 256 ^ k → t < 2 ^ 56
fits_accumulate zero t hk ht = omega arith
fits_accumulate (suc zero) t hk ht = omega arith
fits_accumulate (suc (suc zero)) t hk ht = omega arith
fits_accumulate (suc (suc (suc zero))) t hk ht = omega arith
fits_accumulate (suc (suc (suc (suc zero)))) t hk ht = omega arith
fits_accumulate (suc (suc (suc (suc (suc zero))))) t hk ht = omega arith
fits_accumulate (suc (suc (suc (suc (suc (suc zero)))))) t hk ht = omega arith
fits_accumulate (suc (suc (suc (suc (suc (suc (suc k))))))) t hk ht = absurd (omega arith)

pub fold-accumulate :
    (k t : ℕ) (bs : List ℕ)
    → k + length bs ≤ 7
    → t < 64 * 256 ^ k
    → All IsByte bs
    → (foldl accumulate t bs ≡ be_value t bs) × (be_value t bs < 64 * 256 ^ (k + length bs))
fold-accumulate k t [] hk ht h = (refl, rw add-zero ht)
fold-accumulate k t (b ∷ bs) hk ht h =
    let ih =
      fold-accumulate (suc k) (t * 256 + b) bs (omega arith) (omega (arith, pow-suc 256 k)) h.1 in
    (
      ap (λ s. foldl accumulate s bs)
            (accumulate_lem t b (fits_accumulate k t (omega arith) ht) h.0)
          ∙ ih.0,
      rw (add-suc, ← suc-add) ih.1,
    )

pub announced_len_bounds : (tag : ℕ) → (1 ≤ announced_len tag) × (announced_len tag ≤ 8)
announced_len_bounds zero = omega arith
announced_len_bounds (suc zero) = omega arith
announced_len_bounds (suc (suc zero)) = omega arith
announced_len_bounds (suc (suc (suc _))) = omega arith

-- What `decode` makes of a first byte with the bits `tag` and `t` before the bytes `bs`.
decode_form :
    (tag t : ℕ) (bs rest : List ℕ)
    → tag < 4
    → t < 64
    → announced_len tag ≡ suc (length bs)
    → All IsByte bs
    → decode ((tag * 64 + t) ∷ (bs ++ rest)) ≡ ok (be_value t bs, suc (length bs))
unfolding decode
decode_form tag t bs rest ht hb hl h =
    rw (quotient, hl, enough, low, one_less, take-append bs rest, loop)
  where
    one_less : suc (length bs) - 1 ≡ length bs
    one_less = omega arith

    quotient : (tag * 64 + t) / 64 ≡ tag
    quotient = omega arith

    enough : ltb (suc (length (bs ++ rest))) (suc (length bs)) ≡ false
    enough = le→ltb _ _ (omega (arith, length-append bs rest))

    low : bit_and (tag * 64 + t) 63 ≡ t
    low = omega (arith, low_six_bits (tag * 64 + t))

    loop : foldl accumulate t bs ≡ be_value t bs
    loop = (fold-accumulate 0 t bs (omega (arith, announced_len_bounds tag)) (omega arith) h).0

-- The parts of what `encode` writes.
pub record Form (v : ℕ) (out : List ℕ) : Type 0 where
  pub tag : ℕ
  pub t : ℕ
  pub bs : List ℕ
  pub written : out ≡ (tag * 64 + t) ∷ bs
  pub tag_small : tag < 4
  pub t_small : t < 64
  pub announced : announced_len tag ≡ suc (length bs)
  pub bytes : All IsByte bs
  pub value : be_value t bs ≡ v

first_byte : (tag t : ℕ) → t < 64 → bit_or (tag * 64) (as_u8 t) ≡ tag * 64 + t
first_byte tag t h = ap (λ s. bit_or (tag * 64) s) (omega arith) ∙ bit_or_high 6 tag t h

Form-one : (v : ℕ) → v < 2 ^ 6 → Form v (as_u8 v ∷ [])
Form-one v h = record {
  tag = 0;
  t = v;
  bs = [];
  written = ap (λ b. b ∷ []) (omega arith);
  tag_small = omega arith;
  t_small = omega arith;
  announced = refl;
  bytes = tt;
  value = refl;
}

Form-two : (v : ℕ) → v < 2 ^ 14 → Form v (bit_or 64 (as_u8 (v / 256)) ∷ as_u8 (bit_and v 255) ∷ [])
Form-two v h = record {
  tag = 1;
  t = v / 256;
  bs = v % 256 ∷ [];
  written = λ i. first_byte 1 (v / 256) (omega arith) i ∷ low_byte v i ∷ [];
  tag_small = omega arith;
  t_small = omega arith;
  announced = refl;
  bytes = omega arith;
  value = omega arith;
}

Form-four :
    (v : ℕ)
    → v < 2 ^ 30
    → Form v (
        bit_or 128 (as_u8 (v / 2 ^ 24))
        ∷ as_u8 (bit_and (v / 2 ^ 16) 255)
        ∷ as_u8 (bit_and (v / 256) 255)
        ∷ as_u8 (bit_and v 255)
        ∷ [])
Form-four v h =
    let bs = v / 2 ^ 16 % 256 ∷ v / 256 % 256 ∷ v % 256 ∷ [] in
    record {
      tag = 2;
      t = v / 2 ^ 24;
      bs = bs;
      written = λ i.
          first_byte 2 (v / 2 ^ 24) (omega arith) i
          ∷ low_byte (v / 2 ^ 16) i
          ∷ low_byte (v / 256) i
          ∷ low_byte v i
          ∷ [];
      tag_small = omega arith;
      t_small = omega arith;
      announced = refl;
      bytes = omega arith;
      value = omega arith;
    }

low_bytes : ℕ → List ℕ → List ℕ
low_bytes v = map (λ shift. v / 2 ^ shift % 256)

Form-eight :
    (v : ℕ)
    → v ≤ max
    → Form v (
        bit_or 192 (as_u8 (v / 2 ^ 56))
        ∷ map (λ shift. as_u8 (bit_and (v / 2 ^ shift) 0xff)) (48 ∷ 40 ∷ 32 ∷ 24 ∷ 16 ∷ 8 ∷ 0 ∷ []))
unfolding low_bytes
Form-eight v h =
    let shifts : List ℕ = 48 ∷ 40 ∷ 32 ∷ 24 ∷ 16 ∷ 8 ∷ 0 ∷ [] in
    let bs = low_bytes v shifts in
    record {
      tag = 3;
      t = v / 2 ^ 56;
      bs = bs;
      written = λ i.
          first_byte 3 (v / 2 ^ 56) (omega arith) i
          ∷ map (λ shift. low_byte (v / 2 ^ shift) i) shifts;
      tag_small = omega arith;
      t_small = omega arith;
      announced = refl;
      bytes = omega arith;
      value = omega arith;
    }

pub encode_bytes-Form : (v : ℕ) → v ≤ max → Form v (encode_bytes v)
unfolding encode_bytes
encode_bytes-Form v h = elim (Bool-cases (ltb v (2 ^ 6))) [
  | inl p ↦ rw p (Form-one v (ltb→lt _ _ p))
  | inr p ↦ rw p (elim (Bool-cases (ltb v (2 ^ 14))) [
    | inl q ↦ rw q (Form-two v (ltb→lt _ _ q))
    | inr q ↦ rw q (elim (Bool-cases (ltb v (2 ^ 30))) [
      | inl r ↦ rw r (Form-four v (ltb→lt _ _ r))
      | inr r ↦ rw r (Form-eight v h)
    ])
  ])
]

pub decode-encode_bytes :
    (v : ℕ) (rest : List ℕ)
    → v ≤ max
    → decode (encode_bytes v ++ rest) ≡ ok (v, length (encode_bytes v))
decode-encode_bytes v rest h =
    rw (f.written, decode_form f.tag f.t f.bs rest f.tag_small f.t_small f.announced f.bytes)
      (ap (λ n. ok (n, suc (length f.bs))) f.value)
  where
    f : Form v (encode_bytes v)
    f = encode_bytes-Form v h

-- Every value up to the maximum is encoded, and what is written is read back, with the number of
-- bytes that it takes, whatever follows it.
pub decode-encode :
    (v : ℕ) (rest : List ℕ)
    → v ≤ max
    → (bs : List ℕ) × (encode v ≡ some bs) × (decode (bs ++ rest) ≡ ok (v, length bs))
unfolding encode
decode-encode v rest h = (encode_bytes v, ground arith, decode-encode_bytes v rest h)
