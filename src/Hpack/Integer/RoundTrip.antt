-- ===== src/Hpack/Integer/RoundTrip.antt =====
-- Integers: write, then read.
use courierust.Base.{
  ℕ, zero, suc, ◌+◌, ◌-◌, ◌*◌, ◌/◌, ◌%◌, ◌^◌, ◌≤◌, ◌<◌, ◌≡◌, refl, ap, ◌∙◌, arith, List, [], ◌∷◌,
  ◌++◌, true, false, length, ltb, leb, ◌==◌, if◌then◌else◌, bit_and, bit_or, inl, inr, Bool-cases,
  ltb→lt, ltb→le, ==_iff, lt→ltb,
}
use courierust.Base.Bits.{bit_or_high, bit_or_low, bit_and_mask, top_bit}
use courierust.Base.Bytes.{as_u8}
use courierust.Error.{ok}
use courierust.Hpack.Integer.{read_more, read_int, octets_of, write_int}
use native.Mathlib.Nat.{
  pow-suc, div-add-mod', mul-add-mod_self_right, mod-eq_of_lt, pow-le-pow_right, one-le-pow,
}

-- The octets that are written for a value below 128 and for the low seven bits of another.
last_octet :
    (v : ℕ) → v < 128 → (bit_and (as_u8 v) 0x7f ≡ v) × ((bit_and (as_u8 v) 0x80 == 0) ≡ true)
last_octet v h = (
  omega (arith, bit_and_mask 7 (as_u8 v)),
  ground (arith, top_bit (as_u8 v) (omega arith), ==_iff (bit_and (as_u8 v) 0x80) 0),
)

abbrev chained : ℕ → ℕ
chained v = bit_or (as_u8 (v % 128)) 0x80

chained_lem : (v : ℕ) → chained v ≡ v % 128 + 128
chained_lem v = bit_or_low 7 (as_u8 (v % 128)) 1 (omega arith) ∙ omega arith

chained_octet :
    (v : ℕ) → (bit_and (chained v) 0x7f ≡ v % 128) × ((bit_and (chained v) 0x80 == 0) ≡ false)
chained_octet v = rw (chained_lem v) (
  omega (arith, bit_and_mask 7 (v % 128 + 128)),
  ground (arith, top_bit (v % 128 + 128) (omega arith), ==_iff (bit_and (v % 128 + 128) 0x80) 0),
)

digits_at : (v p : ℕ) → v / 128 * (p * 128) + v % 128 * p ≡ v * p
digits_at v p = omega (arith, ap (λ t. t * p) (div-add-mod' v 128))

seven_more : (s : ℕ) → 2 ^ (s + 7) ≡ 2 ^ s * 128
seven_more s =
    ap (λ k. 2 ^ k) {y = suc (suc (suc (suc (suc (suc (suc s))))))} (omega arith)
    ∙ omega (
      arith,
      pow-suc 2 (suc (suc (suc (suc (suc (suc s)))))),
      pow-suc 2 (suc (suc (suc (suc (suc s))))),
      pow-suc 2 (suc (suc (suc (suc s)))),
      pow-suc 2 (suc (suc (suc s))),
      pow-suc 2 (suc (suc s)),
      pow-suc 2 (suc s),
      pow-suc 2 s,
    )

-- One octet of seven bits.
read_last :
    (v : ℕ) (rest : List ℕ) (pos val shift : ℕ)
    → v < 128
    → shift < 64
    → v * 2 ^ shift + val < 2 ^ 64
    → read_more (as_u8 v ∷ rest) pos val shift ≡ ok (v * 2 ^ shift + val, pos + 1)
unfolding read_more
read_last v rest pos val shift small word fits =
    let (seven, ends) = last_octet v small in rw (seven, ends, lt→ltb _ _ word) (ground arith)

-- One octet with more behind it.
read_chained :
    (v : ℕ) (more : List ℕ) (pos val shift : ℕ)
    → shift + 7 < 64
    → v % 128 * 2 ^ shift + val < 2 ^ 64
    → read_more (chained v ∷ more) pos val shift
      ≡ read_more more (pos + 1) (val + v % 128 * 2 ^ shift) (shift + 7)
read_chained v more pos val shift word fits =
    let (seven, goes_on) = chained_octet v in
    unfold read_more in rw (read_more, seven, goes_on, whole, taken, in_word, no_overflow) refl
  where
    in_word : ltb shift 64 ≡ true
    in_word = ground arith

    taken : leb 64 (shift + 7) ≡ false
    taken = ground arith

    whole : v % 128 * 2 ^ shift % 2 ^ 64 ≡ v % 128 * 2 ^ shift
    whole = omega arith

    no_overflow : leb (2 ^ 64) (val + v % 128 * 2 ^ shift) ≡ false
    no_overflow = ground arith

read_more-octets_of :
    (rounds v : ℕ) (rest : List ℕ) (pos val shift : ℕ)
    → shift + 7 * rounds ≡ 63
    → v * 2 ^ shift + val < 2 ^ 64
    → read_more (octets_of rounds v ++ rest) pos val shift
      ≡ ok (v * 2 ^ shift + val, pos + length (octets_of rounds v))
unfolding octets_of
read_more-octets_of zero v rest pos val shift h fits =
    read_last v rest pos val shift small (omega arith) fits
  where
    small : v < 128
    small = omega (arith, ap (λ s. v * 2 ^ s) {x = shift} {y = 63} (omega arith))
read_more-octets_of (suc rounds) v rest pos val shift h fits = elim (Bool-cases (ltb v 128)) [
  | inl p ↦ rw p (read_last v rest pos val shift (ltb→lt _ _ p) (omega arith) fits)
  | inr p ↦
      let part = v % 128 * 2 ^ shift in
      let split : v / 128 * 2 ^ (shift + 7) + (val + part) ≡ v * 2 ^ shift + val =
        omega (arith, digits_at v (2 ^ shift), ap (λ q. v / 128 * q) (seven_more shift)) in
      let later =
        read_more-octets_of rounds (v / 128) rest (pos + 1) (val + part) (shift + 7) (omega arith)
          (omega (arith, split)) in
      let here =
        read_chained v (octets_of rounds (v / 128) ++ rest) pos val shift (omega arith)
          (omega (arith, split)) in
      let end : pos + 1 + length (octets_of rounds (v / 128))
          ≡ pos + suc (length (octets_of rounds (v / 128))) =
        omega arith in
      rw p (here ∙ later ∙ λ i. ok (split i, end i))
]

-- A first octet with the flags above the prefix, and what the mask of the prefix leaves of it.
first_octet :
    (n c low : ℕ)
    → n ≤ 8
    → low < 2 ^ n
    → (bit_or (c * 2 ^ n) (as_u8 low) ≡ c * 2 ^ n + low)
      × (bit_and (bit_or (c * 2 ^ n) (as_u8 low)) (2 ^ n - 1) ≡ low)
first_octet n c low hn hl = (joined, rw joined masked)
  where
    octet : as_u8 low ≡ low
    octet = omega (arith, pow-le-pow_right {n = 2} (omega arith) hn)

    joined : bit_or (c * 2 ^ n) (as_u8 low) ≡ c * 2 ^ n + low
    joined = ap (bit_or (c * 2 ^ n)) octet ∙ bit_or_high n c low hl

    masked : bit_and (c * 2 ^ n + low) (2 ^ n - 1) ≡ low
    masked =
        bit_and_mask n (c * 2 ^ n + low) ∙ mul-add-mod_self_right c (2 ^ n) low ∙ mod-eq_of_lt hl

-- What is written under a prefix of at most eight bits is a first octet, with the flags above the
-- prefix, and further octets; read back, with anything behind them, they give the value, for every
-- u64, and the position after them.
pub read_int-write_int :
    (n c value : ℕ) (rest : List ℕ)
    → n ≤ 8
    → value < 2 ^ 64
    → (first : ℕ) × (octets : List ℕ) × (write_int (c * 2 ^ n) n value ≡ first ∷ octets)
      × (first ≡ c * 2 ^ n + bit_and first (2 ^ n - 1))
      × (read_int (first ∷ (octets ++ rest)) 1 n (bit_and first (2 ^ n - 1))
          ≡ ok (value, suc (length octets)))
unfolding write_int read_int
read_int-write_int n c value rest hn hv = elim (Bool-cases (ltb value (2 ^ n - 1))) [
  | inl p ↦
      let (joined, masked) = first_octet n c value hn (omega (arith, ltb→lt _ _ p)) in
      (bit_or (c * 2 ^ n) (as_u8 value), [], rw p refl, rw masked joined, rw (masked, p) refl)
  | inr p ↦
      let top = 2 ^ n - 1 in
      let positive : 0 < 2 ^ n = one-le-pow n 2 (omega arith) in
      let (joined, masked) = first_octet n c top hn (omega (arith, positive)) in
      let full : ltb top top ≡ false = ground arith in
      let v = value - top in
      let exact : v * 2 ^ 0 + top ≡ value = omega (arith, ltb→le _ _ p) in
      let onward : 1 + length (octets_of 9 v) ≡ suc (length (octets_of 9 v)) = omega arith in
      let chain = read_more-octets_of 9 v rest 1 top 0 (omega arith) (omega (arith, exact)) in
      (
        bit_or (c * 2 ^ n) (as_u8 top),
        octets_of 9 v,
        rw p refl,
        rw masked joined,
        rw (masked, full) (chain ∙ λ i. ok (exact i, onward i)),
      )
]

one_round_more :
    (rounds v : ℕ) → v < 128 ^ suc rounds → octets_of (suc rounds) v ≡ octets_of rounds v
unfolding octets_of
one_round_more zero v h = rw (lt→ltb v 128 (omega arith))
one_round_more (suc rounds) v h =
    ap (λ more. if ltb v 128 then as_u8 v ∷ [] else bit_or (as_u8 (v % 128)) 0x80 ∷ more)
      (one_round_more rounds (v / 128) (omega (arith, pow-suc 128 (suc rounds))))

-- Nine rounds of the loop of `write_int` are enough: with more of them a u64 is written the same.
pub octets_of_rounds : (extra v : ℕ) → v < 2 ^ 64 → octets_of (extra + 9) v ≡ octets_of 9 v
octets_of_rounds zero v h = refl
octets_of_rounds (suc extra) v h =
    ap (λ rounds. octets_of rounds v) {y = suc (extra + 9)} (omega arith)
    ∙ one_round_more (extra + 9) v (omega (arith, enough))
    ∙ octets_of_rounds extra v h
  where
    enough : 128 ^ 10 ≤ 128 ^ suc (extra + 9)
    enough = pow-le-pow_right {n = 128} (omega arith) {i = 10} (omega arith)
