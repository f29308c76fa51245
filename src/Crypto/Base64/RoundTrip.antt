-- ===== src/Crypto/Base64/RoundTrip.antt =====
-- What base64 encodes (src/courierust_crypto/base64.rs), it decodes.
use courierust.Base.{
  ℕ, suc, ◌+◌, ◌*◌, ◌/◌, ◌%◌, ◌^◌, ◌<◌, ◌≡◌, refl, sym, ap, ◌∙◌, arith, Bool, true, false, Option,
  none, some, List, [], ◌∷◌, ◌++◌, length, bit_and, All, length-append, ==_true,
}
use mathlib.Core.List.{append_assoc, append-nil}
use courierust.Base.Bits.{bit_and_mask}
use courierust.Base.Bytes.{IsByte, as_u8}
use courierust.Error.{Result, ok, ◌>>=◌}
use courierust.Crypto.Base64.{
  alphabet, equals, encode_with, encode, encoded_len, read_chars, with_value, quantum,
  decode_quanta, decode_core, decode_into, decode, append_to, Decoded, decoded_size, rolled_back,
}
use courierust.Crypto.Base64.Quantum.{
  char, decode_table-char, word4_lem, encode_1_lem, encode_2_lem, encode_3_lem,
}

read_char :
    (i v : ℕ) (cs : List ℕ)
    → v < 64
    → read_chars i 0 (char v ∷ cs) ≡ with_value v (read_chars (suc i) 0 cs)
unfolding read_chars
read_char i v cs h = ground (arith, decode_table-char v h)

quantum_three :
    (v w x y : ℕ)
    → v < 64
    → w < 64
    → x < 64
    → y < 64
    → read_chars 0 0 (char v ∷ char w ∷ char x ∷ char y ∷ []) ≡ ok (v ∷ w ∷ x ∷ y ∷ [], 0)
quantum_three v w x y hv hw hx hy =
    rw
      (
        read_char 0 v (char w ∷ char x ∷ char y ∷ []) hv,
        read_char 1 w (char x ∷ char y ∷ []) hw,
        read_char 2 x (char y ∷ []) hx,
        read_char 3 y [] hy,
      )
      (unfold read_chars in refl)

quantum_two :
    (v w x : ℕ)
    → v < 64
    → w < 64
    → x < 64
    → read_chars 0 0 (char v ∷ char w ∷ char x ∷ equals ∷ []) ≡ ok (v ∷ w ∷ x ∷ 0 ∷ [], 1)
quantum_two v w x hv hw hx =
    rw
      (
        read_char 0 v (char w ∷ char x ∷ equals ∷ []) hv,
        read_char 1 w (char x ∷ equals ∷ []) hw,
        read_char 2 x (equals ∷ []) hx,
      )
      (unfold read_chars in refl)

quantum_one :
    (v w : ℕ)
    → v < 64
    → w < 64
    → read_chars 0 0 (char v ∷ char w ∷ equals ∷ equals ∷ []) ≡ ok (v ∷ w ∷ 0 ∷ 0 ∷ [], 2)
quantum_one v w hv hw =
    rw (read_char 0 v (char w ∷ equals ∷ equals ∷ []) hv, read_char 1 w (equals ∷ equals ∷ []) hw)
      (unfold read_chars in refl)

-- The bytes come back from their four values.
quantum-encode_3 :
    (a b c : ℕ)
    → IsByte a
    → IsByte b
    → IsByte c
    → quantum
        (char (a / 4))
        (char (a % 4 * 16 + b / 16))
        (char (b % 16 * 4 + c / 64))
        (char (c % 64))
      ≡ ok (a ∷ b ∷ c ∷ [], false)
unfolding quantum
quantum-encode_3 a b c ha hb hc =
    rw
      (quantum_three (a / 4) (a % 4 * 16 + b / 16) (b % 16 * 4 + c / 64) (c % 64) (omega arith)
        (omega arith) (omega arith) (omega arith))
      (ap (λ n. ok (as_u8 (n / 2 ^ 16) ∷ as_u8 (n / 2 ^ 8) ∷ as_u8 n ∷ [], false))
          (word4_lem (a / 4) (a % 4 * 16 + b / 16) (b % 16 * 4 + c / 64) (c % 64) (omega arith)
            (omega arith) (omega arith) (omega arith))
        ∙ ground arith)

quantum-encode_2 :
    (a b : ℕ)
    → IsByte a
    → IsByte b
    → quantum (char (a / 4)) (char (a % 4 * 16 + b / 16)) (char (b % 16 * 4)) equals
      ≡ ok (a ∷ b ∷ [], true)
unfolding quantum
quantum-encode_2 a b ha hb =
    rw
      (
        quantum_two (a / 4) (a % 4 * 16 + b / 16) (b % 16 * 4) (omega arith) (omega arith)
            (omega arith),
        ==_true (bit_and (b % 16 * 4) 0x03) 0 (omega (arith, bit_and_mask 2 (b % 16 * 4))),
      )
      (ap (λ n. ok (as_u8 (n / 2 ^ 16) ∷ as_u8 (n / 2 ^ 8) ∷ [], true))
          (word4_lem (a / 4) (a % 4 * 16 + b / 16) (b % 16 * 4) 0 (omega arith) (omega arith)
            (omega arith) (omega arith))
        ∙ ground arith)

quantum-encode_1 :
    (a : ℕ)
    → IsByte a
    → quantum (char (a / 4)) (char (a % 4 * 16)) equals equals ≡ ok (a ∷ [], true)
unfolding quantum
quantum-encode_1 a ha =
    rw
      (
        quantum_one (a / 4) (a % 4 * 16) (omega arith) (omega arith),
        ==_true (bit_and (a % 4 * 16) 0x0f) 0 (omega (arith, bit_and_mask 4 (a % 4 * 16))),
      )
      (ap (λ n. ok (as_u8 (n / 2 ^ 16) ∷ [], true))
          (word4_lem (a / 4) (a % 4 * 16) 0 0 (omega arith) (omega arith) (omega arith)
            (omega arith))
        ∙ ground arith)

-- The buffer after the bytes, and the count with them.
abbrev DecodedAs : ℕ → Option (List ℕ) → List ℕ → Decoded → Type 0
DecodedAs written out bytes r = r ≡ (ok (written + length bytes), append_to out bytes)

pub append_to-nil : (out : Option (List ℕ)) → out ≡ append_to out []
append_to-nil none = refl
append_to-nil (some buf) = ap some (sym (append-nil buf))

pub append_to-append :
    (out : Option (List ℕ)) (xs ys : List ℕ)
    → append_to (append_to out xs) ys ≡ append_to out (xs ++ ys)
append_to-append none xs ys = refl
append_to-append (some buf) xs ys = ap some (append_assoc buf xs ys)

-- A quantum that is read, and the rest.
one_quantum :
    (written : ℕ) (out : Option (List ℕ)) (p q r s : ℕ) (text bytes more : List ℕ) (padded : Bool)
    → quantum p q r s ≡ ok (bytes, padded)
    → DecodedAs
        (written + length bytes)
        (append_to out bytes)
        more
        (decode_quanta padded (written + length bytes) (append_to out bytes) text)
    → DecodedAs written out (bytes ++ more) (decode_quanta false written out (p ∷ q ∷ r ∷ s ∷ text))
unfolding decode_quanta
one_quantum written out p q r s text bytes more padded e rest =
    rw (e, decode_quanta) (rest ∙ λ i. (ok (count i), append_to-append out bytes more i))
  where
    count : written + length bytes + length more ≡ written + length (bytes ++ more)
    count = omega (arith, length-append {0} bytes more)

nothing_more :
    (padded : Bool) (written : ℕ) (out : Option (List ℕ))
    → DecodedAs written out [] (decode_quanta padded written out [])
unfolding decode_quanta
nothing_more padded written out = λ i. (ok (same i), append_to-nil out i)
  where
    same : written ≡ written + 0
    same = omega arith

decode_quanta-encode_with :
    (bytes : List ℕ) (written : ℕ) (out : Option (List ℕ))
    → All IsByte bytes
    → DecodedAs written out bytes
        (decode_quanta false written out (encode_with alphabet true bytes))
unfolding encode_with
decode_quanta-encode_with [] written out h = nothing_more false written out
decode_quanta-encode_with (a ∷ []) written out h = rw (encode_1_lem a h.0) (
    one_quantum written out _ _ _ _ [] (a ∷ []) [] true (quantum-encode_1 a h.0)
      (nothing_more true _ _))
decode_quanta-encode_with (a ∷ b ∷ []) written out h = rw (encode_2_lem a b h.0 h.1.0) (
    one_quantum written out _ _ _ _ [] (a ∷ b ∷ []) [] true (quantum-encode_2 a b h.0 h.1.0)
      (nothing_more true _ _))
decode_quanta-encode_with (a ∷ b ∷ c ∷ bytes) written out h =
    rw (encode_3_lem a b c h.0 h.1.0 h.1.1.0) (
      one_quantum written out _ _ _ _ (encode_with alphabet true bytes) (a ∷ b ∷ c ∷ []) bytes false
        (quantum-encode_3 a b c h.0 h.1.0 h.1.1.0)
        (decode_quanta-encode_with bytes (written + 3) (append_to out (a ∷ b ∷ c ∷ [])) h.1.1.1))

length-encode_with :
    (bytes : List ℕ)
    → All IsByte bytes
    → length (encode_with alphabet true bytes) ≡ encoded_len (length bytes)
unfolding encode_with encoded_len
length-encode_with [] h = refl
length-encode_with (a ∷ []) h = rw (encode_1_lem a h.0) refl
length-encode_with (a ∷ b ∷ []) h = rw (encode_2_lem a b h.0 h.1.0) refl
length-encode_with (a ∷ b ∷ c ∷ bytes) h =
    rw (encode_3_lem a b c h.0 h.1.0 h.1.1.0) (ground (arith, length-encode_with bytes h.1.1.1))

-- Encoding takes as many characters as `encoded_len` says.
pub length-encode :
    (bytes : List ℕ) → All IsByte bytes → length (encode bytes) ≡ encoded_len (length bytes)
unfolding encode
length-encode bytes h = length-encode_with bytes h

decode_core-encode :
    (bytes : List ℕ) (out : Option (List ℕ))
    → All IsByte bytes
    → decode_core (encode bytes) out ≡ (ok (length bytes), append_to out bytes)
unfolding decode_core encode
decode_core-encode bytes out h =
    rw (==_true (length (encode_with alphabet true bytes) % 4) 0 whole)
      (decode_quanta-encode_with bytes 0 out h ∙ λ i. (ok (same i), append_to out bytes))
  where
    same : 0 + length bytes ≡ length bytes
    same = omega arith

    whole : length (encode_with alphabet true bytes) % 4 ≡ 0
    whole = unfold encoded_len in omega (arith, length-encode_with bytes h)

-- What is encoded is decoded again behind what the buffer held, and is sized right without decoding.
pub decode_into-encode :
    (bytes out : List ℕ)
    → All IsByte bytes
    → (decode_into (encode bytes) out ≡ (ok tt, out ++ bytes))
      × (decoded_size (encode bytes) ≡ ok (length bytes))
      × (decode (encode bytes) ≡ ok bytes)
unfolding decode_into decoded_size decode
decode_into-encode bytes out h = (
  ap (rolled_back (length out)) (decode_core-encode bytes (some out) h),
  ap (λ r. r.0) (decode_core-encode bytes none h),
  ap finish (decode_core-encode bytes (some []) h),
)
  where
    finish : Decoded → Result (List ℕ)
    finish r = (rolled_back 0 r).0 >>= λ _. ok (rolled_back 0 r).1
