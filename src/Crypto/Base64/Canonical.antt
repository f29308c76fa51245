-- ===== src/Crypto/Base64/Canonical.antt =====
-- Base64 that is accepted (src/courierust_crypto/base64.rs) is the one spelling of its bytes.
use courierust.Base.{
  ℕ, ◌+◌, ◌/◌, ◌%◌, ◌^◌, ◌<◌, ◌≡◌, refl, sym, ap, ◌∙◌, arith, Bool, true, false, ◌||◌, Option, none,
  some, List, [], ◌∷◌, ◌++◌, ltb, ◌==◌, length, bit_and, All, Bool-cases, inl, inr,
}
use mathlib.Core.Path.{subst}
use courierust.Base.Bits.{bit_and_mask}
use courierust.Base.Bytes.{IsByte, as_u8}
use courierust.Error.{Result, ok, err, ◌>>=◌, >>=-eq-ok}
use courierust.Crypto.Base64.{
  alphabet, decode_table, invalid, equals, encode_1, encode_2, encode_3, encode_with, encode,
  read_chars, word4, quantum_bytes, quantum, decode_quanta, decode_core, decode_into, decode,
  append_to, Decoded, rolled_back,
}
use mathlib.Core.List.{append-nil}
use courierust.Crypto.Base64.RoundTrip.{append_to-append, append_to-nil}
use courierust.Crypto.Base64.Quantum.{char, char-decode_table, word4_lem}
use courierust.Crypto.Base64.Values.{
  Read, three, two, one, read_quantum, spelled_1, spelled_2, spelled_3,
}

ok-injective : {a b : List ℕ} → ok a ≡ ok b → a ≡ b
ok-injective h = ground arith

-- The characters that the encoder gives the bytes of a quantum.
abbrev Spelled : List ℕ → Bool → List ℕ → Type 0
Spelled (x ∷ y ∷ z ∷ []) false q = encode_3 alphabet x y z ≡ q
Spelled (x ∷ y ∷ []) true q = encode_2 alphabet true x y ≡ q
Spelled (x ∷ []) true q = encode_1 alphabet true x ≡ q
Spelled _ _ q = ⊥

three-Spelled :
    (v w x y : ℕ) (bytes : List ℕ)
    → v < 64
    → w < 64
    → x < 64
    → y < 64
    → quantum_bytes (v ∷ w ∷ x ∷ y ∷ [], 0) ≡ ok bytes
    → Spelled bytes false (char v ∷ char w ∷ char x ∷ char y ∷ [])
unfolding quantum_bytes
three-Spelled v w x y bytes hv hw hx hy h =
    subst (λ bs. Spelled bs false (char v ∷ char w ∷ char x ∷ char y ∷ [])) (ok-injective h)
      (rw (word4_lem v w x y hv hw hx hy) (spelled_3 v w x y hv hw hx hy))

two-Spelled :
    (v w x : ℕ) (bytes : List ℕ)
    → v < 64
    → w < 64
    → x < 64
    → quantum_bytes (v ∷ w ∷ x ∷ 0 ∷ [], 1) ≡ ok bytes
    → Spelled bytes true (char v ∷ char w ∷ char x ∷ equals ∷ [])
unfolding quantum_bytes
two-Spelled v w x bytes hv hw hx h = elim (Bool-cases (bit_and x 0x03 == 0)) [
  | inr low ↦ absurd (ground arith)
  | inl clear ↦
      subst (λ bs. Spelled bs true (char v ∷ char w ∷ char x ∷ equals ∷ []))
        (ok-injective
          {a = as_u8 (word4 (v ∷ w ∷ x ∷ 0 ∷ []) / 2 ^ 16)
            ∷ as_u8 (word4 (v ∷ w ∷ x ∷ 0 ∷ []) / 2 ^ 8)
            ∷ []}
          (ground arith))
        (rw (word4_lem v w x 0 hv hw hx (omega arith))
          (spelled_2 v w x hv hw hx (ground (arith, bit_and_mask 2 x))))
]

one-Spelled :
    (v w : ℕ) (bytes : List ℕ)
    → v < 64
    → w < 64
    → quantum_bytes (v ∷ w ∷ 0 ∷ 0 ∷ [], 2) ≡ ok bytes
    → Spelled bytes true (char v ∷ char w ∷ equals ∷ equals ∷ [])
unfolding quantum_bytes
one-Spelled v w bytes hv hw h = elim (Bool-cases (bit_and w 0x0f == 0)) [
  | inr low ↦ absurd (ground arith)
  | inl clear ↦
      subst (λ bs. Spelled bs true (char v ∷ char w ∷ equals ∷ equals ∷ []))
        (ok-injective {a = as_u8 (word4 (v ∷ w ∷ 0 ∷ 0 ∷ []) / 2 ^ 16) ∷ []} (ground arith))
        (rw (word4_lem v w 0 0 hv hw (omega arith) (omega arith))
          (spelled_1 v w hv hw (ground (arith, bit_and_mask 4 w))))
]

module _ (a b c d : ℕ) (ha : IsByte a) (hb : IsByte b) (hc : IsByte c) (hd : IsByte d) where
  abbrev q : List ℕ
  q = a ∷ b ∷ c ∷ d ∷ []

  Spelled-read :
      (r : List ℕ × ℕ) (bytes : List ℕ)
      → (decode_table a == invalid) ≡ false
      → (decode_table b == invalid) ≡ false
      → Read a b c d r
      → quantum_bytes r ≡ ok bytes
      → Spelled bytes (ltb 0 r.1) q
  Spelled-read r bytes good_a good_b (three good_c good_d e) h =
      let (again_a, small_a) = char-decode_table a ha good_a in
      let (again_b, small_b) = char-decode_table b hb good_b in
      let (again_c, small_c) = char-decode_table c hc good_c in
      let (again_d, small_d) = char-decode_table d hd good_d in
      rw e (
        subst (Spelled bytes false) (λ i. again_a i ∷ again_b i ∷ again_c i ∷ again_d i ∷ [])
          (three-Spelled _ _ _ _ bytes small_a small_b small_c small_d
            (ap quantum_bytes (sym e) ∙ h)))
  Spelled-read r bytes good_a good_b (two good_c pad_d e) h =
      let (again_a, small_a) = char-decode_table a ha good_a in
      let (again_b, small_b) = char-decode_table b hb good_b in
      let (again_c, small_c) = char-decode_table c hc good_c in
      rw e (
        subst (Spelled bytes true) (λ i. again_a i ∷ again_b i ∷ again_c i ∷ sym pad_d i ∷ [])
          (two-Spelled _ _ _ bytes small_a small_b small_c (ap quantum_bytes (sym e) ∙ h)))
  Spelled-read r bytes good_a good_b (one pad_c pad_d e) h =
      let (again_a, small_a) = char-decode_table a ha good_a in
      let (again_b, small_b) = char-decode_table b hb good_b in
      rw e (
        subst (Spelled bytes true) (λ i. again_a i ∷ again_b i ∷ sym pad_c i ∷ sym pad_d i ∷ [])
          (one-Spelled _ _ bytes small_a small_b (ap quantum_bytes (sym e) ∙ h)))

  quantum-Spelled :
      (bytes : List ℕ) (padded : Bool)
      → quantum a b c d ≡ ok (bytes, padded)
      → Spelled bytes padded q
  unfolding quantum
  quantum-Spelled bytes padded h =
      let (r, read, after) = >>=-eq-ok (read_chars 0 0 q) _ h in
      let (bytes', held, same) = >>=-eq-ok (quantum_bytes r) _ after in
      let (good_a, good_b, way) = read_quantum a b c d r read in
      let spelled = Spelled-read r bytes' good_a good_b way held in
      let padding : ltb 0 r.1 ≡ padded = ground arith in
      let whole : bytes' ≡ bytes = ground arith in
      subst (λ bs. Spelled bs padded q) whole (subst (λ p. Spelled bytes' p q) padding spelled)

-- The bytes of a text that was accepted.
abbrev pub Accepts : ℕ → Option (List ℕ) → List ℕ → ℕ → Option (List ℕ) → Type 0
Accepts written out text n out' =
    (bytes : List ℕ) × (encode_with alphabet true bytes ≡ text)
    × (n ≡ written + length bytes)
    × (out' ≡ append_to out bytes)

-- Nothing is accepted behind padding.
finished_end :
    (written n : ℕ) (out out' : Option (List ℕ)) (text : List ℕ)
    → length text % 4 ≡ 0
    → decode_quanta true written out text ≡ (ok n, out')
    → (text ≡ []) × (n ≡ written) × (out' ≡ out)
unfolding decode_quanta
finished_end written n out out' [] whole h = (refl, ground arith, ground arith)
finished_end written n out out' (a ∷ []) whole h = absurd (omega arith)
finished_end written n out out' (a ∷ b ∷ []) whole h = absurd (omega arith)
finished_end written n out out' (a ∷ b ∷ c ∷ []) whole h = absurd (omega arith)
finished_end written n out out' (a ∷ b ∷ c ∷ d ∷ text) whole h = absurd (ground arith)

-- A quantum, and what was accepted behind it.
quantum-Accepts :
    (written n : ℕ) (out out' : Option (List ℕ)) (bs : List ℕ) (padded : Bool) (q text : List ℕ)
    → length text % 4 ≡ 0
    → Spelled bs padded q
    → decode_quanta padded (written + length bs) (append_to out bs) text ≡ (ok n, out')
    → (padded ≡ false → Accepts (written + length bs) (append_to out bs) text n out')
    → Accepts written out (q ++ text) n out'
unfolding encode_with
quantum-Accepts written n out out' [] true q text whole s h more = absurd s
quantum-Accepts written n out out' [] false q text whole s h more = absurd s
quantum-Accepts written n out out' (x ∷ []) false q text whole s h more = absurd s
quantum-Accepts written n out out' (x ∷ []) true q text whole s h more =
    let (end, count, same) =
      finished_end (written + 1) n (append_to out (x ∷ [])) out' text whole h in
    (x ∷ [], rw end (s ∙ sym (append-nil q)), count, same)
quantum-Accepts written n out out' (x ∷ y ∷ []) false q text whole s h more = absurd s
quantum-Accepts written n out out' (x ∷ y ∷ []) true q text whole s h more =
    let (end, count, same) =
      finished_end (written + 2) n (append_to out (x ∷ y ∷ [])) out' text whole h in
    (x ∷ y ∷ [], rw end (s ∙ sym (append-nil q)), count, same)
quantum-Accepts written n out out' (x ∷ y ∷ z ∷ []) true q text whole s h more = absurd s
quantum-Accepts written n out out' (x ∷ y ∷ z ∷ []) false q text whole s h more =
    let (bytes, spelled, count, same) = more refl in
    (
      x ∷ y ∷ z ∷ bytes,
      (λ i. s i ++ spelled i),
      omega (arith, count),
      same ∙ append_to-append out _ _,
    )
quantum-Accepts written n out out' (x ∷ y ∷ z ∷ w ∷ bs) true q text whole s h more = absurd s
quantum-Accepts written n out out' (x ∷ y ∷ z ∷ w ∷ bs) false q text whole s h more = absurd s

decode_quanta-Accepts :
    (text : List ℕ) (written n : ℕ) (out out' : Option (List ℕ))
    → All IsByte text
    → length text % 4 ≡ 0
    → decode_quanta false written out text ≡ (ok n, out')
    → Accepts written out text n out'
unfolding decode_quanta encode_with
decode_quanta-Accepts [] written n out out' h whole e =
    ([], refl, ground arith, sym (ap (λ r. r.1) e) ∙ append_to-nil out)
decode_quanta-Accepts (a ∷ []) written n out out' h whole e = absurd (omega arith)
decode_quanta-Accepts (a ∷ b ∷ []) written n out out' h whole e = absurd (omega arith)
decode_quanta-Accepts (a ∷ b ∷ c ∷ []) written n out out' h whole e = absurd (omega arith)
decode_quanta-Accepts (a ∷ b ∷ c ∷ d ∷ text) written n out out' h whole e =
    step (quantum a b c d) refl e (λ bs read.
      decode_quanta-Accepts text (written + length bs) n (append_to out bs) out' h.1.1.1.1
        (omega arith) read)
  where
    step :
        (r : Result (List ℕ × Bool))
        → quantum a b c d ≡ r
        → (elim r [
          | err x ↦ (err x, out)
          | ok r' ↦ decode_quanta (false || r'.1) (written + length r'.0) (append_to out r'.0) text
        ])
          ≡ (ok n, out')
        → ((bs : List ℕ)
            → decode_quanta false (written + length bs) (append_to out bs) text ≡ (ok n, out')
            → Accepts (written + length bs) (append_to out bs) text n out')
        → Accepts written out (a ∷ b ∷ c ∷ d ∷ text) n out'
    step (err x) same e go = absurd (ground arith)
    step (ok (bs, true)) same e go =
        quantum-Accepts written n out out' bs true (a ∷ b ∷ c ∷ d ∷ []) text (omega arith)
          (quantum-Spelled a b c d h.0 h.1.0 h.1.1.0 h.1.1.1.0 bs true same) e (λ p. cc)
    step (ok (bs, false)) same e go =
        quantum-Accepts written n out out' bs false (a ∷ b ∷ c ∷ d ∷ []) text (omega arith)
          (quantum-Spelled a b c d h.0 h.1.0 h.1.1.0 h.1.1.1.0 bs false same) e (λ p. go bs e)

decode_core-Accepts :
    (text : List ℕ) (n : ℕ) (out out' : Option (List ℕ))
    → All IsByte text
    → decode_core text out ≡ (ok n, out')
    → Accepts 0 out text n out'
unfolding decode_core
decode_core-Accepts text n out out' h e = elim (Bool-cases (length text % 4 == 0)) [
  | inl whole ↦ decode_quanta-Accepts text 0 n out out' h (ground arith) (ground arith)
  | inr part ↦ absurd (ground arith)
]

-- A text that is decoded is the encoding of the bytes that come out: two texts that decode to the same
-- bytes are the same text.
pub encode-decode :
    (text bytes : List ℕ) → All IsByte text → decode text ≡ ok bytes → encode bytes ≡ text
unfolding encode decode decode_into
encode-decode text bytes h e = from (decode_core text (some [])) refl e
  where
    from :
        (r : Decoded)
        → decode_core text (some []) ≡ r
        → ((rolled_back 0 r).0 >>= λ _. ok (rolled_back 0 r).1) ≡ ok bytes
        → encode_with alphabet true bytes ≡ text
    from (err x, out) same e = absurd (ground arith)
    from (ok n, none) same e =
        let (bs, spelled, count, out) = decode_core-Accepts text n (some []) none h same in
        absurd (ground arith)
    from (ok n, some buf) same e =
        let (bs, spelled, count, out) = decode_core-Accepts text n (some []) (some buf) h same in
        ap (encode_with alphabet true) (ground arith) ∙ spelled
