-- ===== src/Ws/Mask/Lanes.antt =====
-- Masking in lanes (src/courierust_ws/frame.rs) is masking byte by byte.
use courierust.Base.{
  ℕ, zero, suc, ◌+◌, ◌%◌, ◌≤◌, ◌≡◌, refl, sym, ap, ◌∙◌, arith, Bool, List, [], ◌∷◌, ◌++◌, length,
  take, drop, All, leb, bit_and, length-append, length-take, take-drop, All-take, All-drop,
  Bool-cases, inl, inr,
}
use Prim.Native.Nat.{bit_xor}
use mathlib.Core.List.{append_assoc}
use courierust.Base.Bits.{bit_and_mask}
use courierust.Base.Bytes.{IsByte}
use courierust.Base.Words.{from_ne_bytes, to_ne_bytes, xor_bytes, xor_ne, length-to_ne_bytes}
use courierust.Ws.Frame.{Key}
use courierust.Ws.Mask.{key_byte, pattern_bytes, lanes, tail_bytes, mask_bytes}

-- Only the phase of the offset counts.
mask_bytes_phase :
    (key : Key) (i j : ℕ) (xs : List ℕ) → i % 4 ≡ j % 4 → mask_bytes key i xs ≡ mask_bytes key j xs
unfolding mask_bytes
mask_bytes_phase key i j [] same = refl
mask_bytes_phase key i j (x ∷ xs) same =
    (λ t. bit_xor x (key_byte key (same t)) ∷ mask_bytes key (suc i) xs)
    ∙ ap (λ more. bit_xor x (key_byte key (j % 4)) ∷ more)
        (mask_bytes_phase key (suc i) (suc j) xs (omega arith))

pub mask_bytes-append :
    (key : Key) (i : ℕ) (xs ys : List ℕ)
    → mask_bytes key i (xs ++ ys) ≡ mask_bytes key i xs ++ mask_bytes key (i + length xs) ys
unfolding mask_bytes
mask_bytes-append key i [] ys = ap (λ j. mask_bytes key j ys) (omega arith)
mask_bytes-append key i (x ∷ xs) ys =
    ap (λ more. bit_xor x (key_byte key (i % 4)) ∷ more)
      (mask_bytes-append key (suc i) xs ys
        ∙ ap (λ j. mask_bytes key (suc i) xs ++ mask_bytes key j ys) (omega arith))

same_phase : (phase start i : ℕ) → (phase + start) % 4 ≡ i % 4 → bit_and (phase + start) 3 ≡ i % 4
same_phase phase start i h = bit_and_mask 2 (phase + start) ∙ h

pattern_lem :
    (key : Key) (phase start i : ℕ) (xs : List ℕ)
    → (phase + start) % 4 ≡ i % 4
    → xor_bytes xs (pattern_bytes key phase start (length xs)) ≡ mask_bytes key i xs
unfolding xor_bytes pattern_bytes mask_bytes
pattern_lem key phase start i [] h = refl
pattern_lem key phase start i (x ∷ xs) h =
    (λ t.
      bit_xor x (key_byte key (same_phase phase start i h t))
      ∷ xor_bytes xs (pattern_bytes key phase (suc start) (length xs)))
    ∙ ap (λ more. bit_xor x (key_byte key (i % 4)) ∷ more)
        (pattern_lem key phase (suc start) (suc i) xs (omega arith))

pub tail_bytes_lem :
    (key : Key) (phase start i : ℕ) (xs : List ℕ)
    → (phase + start) % 4 ≡ i % 4
    → tail_bytes key phase start xs ≡ mask_bytes key i xs
unfolding tail_bytes mask_bytes
tail_bytes_lem key phase start i [] h = refl
tail_bytes_lem key phase start i (x ∷ xs) h =
    (λ t.
      bit_xor x (key_byte key (same_phase phase start i h t)) ∷ tail_bytes key phase (suc start) xs)
    ∙ ap (λ more. bit_xor x (key_byte key (i % 4)) ∷ more)
        (tail_bytes_lem key phase (suc start) (suc i) xs (omega arith))

-- The bytes of a key.
abbrev pub IsKey : Key → Type 0
IsKey (a, b, c, d) = IsByte a × IsByte b × IsByte c × IsByte d

pub key_byte-IsByte : (key : Key) (i : ℕ) → IsKey key → IsByte (key_byte key i)
key_byte-IsByte (a, b, c, d) zero h = h.0
key_byte-IsByte (a, b, c, d) (suc zero) h = h.1
key_byte-IsByte (a, b, c, d) (suc (suc zero)) h = h.2
key_byte-IsByte (a, b, c, d) (suc (suc (suc i))) h = h.3

pattern_bytes-IsByte :
    (key : Key) (phase start count : ℕ)
    → IsKey key
    → All IsByte (pattern_bytes key phase start count)
unfolding pattern_bytes
pattern_bytes-IsByte key phase start zero h = tt
pattern_bytes-IsByte key phase start (suc count) h = (
  key_byte-IsByte key (bit_and (phase + start) 3) h,
  pattern_bytes-IsByte key phase (suc start) count h,
)

length-pattern_bytes :
    (key : Key) (phase start count : ℕ) → length (pattern_bytes key phase start count) ≡ count
unfolding pattern_bytes
length-pattern_bytes key phase start zero = refl
length-pattern_bytes key phase start (suc count) =
    ap suc (length-pattern_bytes key phase (suc start) count)

-- One lane.
lane_lem :
    (little : Bool) (key : Key) (phase i : ℕ) (xs : List ℕ)
    → phase % 4 ≡ i % 4
    → IsKey key
    → All IsByte xs
    → to_ne_bytes little (length xs) (
        bit_xor
          (from_ne_bytes little xs)
          (from_ne_bytes little (pattern_bytes key phase 0 (length xs))))
      ≡ mask_bytes key i xs
lane_lem little key phase i xs h k bytes =
    xor_ne little xs (pattern_bytes key phase 0 (length xs)) bytes
      (pattern_bytes-IsByte key phase 0 (length xs) k)
      (sym (length-pattern_bytes key phase 0 (length xs)))
    ∙ pattern_lem key phase 0 i xs (omega arith)

-- What a loop over lanes leaves: whole lanes that are masked, and the other bytes as they were.
pub record LaneLoop (key : Key) (i : ℕ) (bytes : List ℕ) (out : List ℕ × List ℕ) : Type 0 where
  pub masked : mask_bytes key i bytes ≡ out.0 ++ mask_bytes key i out.1
  pub whole : length out.0 % 4 ≡ 0
  pub left : All IsByte out.1

abbrev pub pattern_word : Bool → Key → ℕ → ℕ → ℕ
pattern_word little key phase width = from_ne_bytes little (pattern_bytes key phase 0 width)

module _ (little : Bool) (key : Key) (phase i width : ℕ) where
  abbrev word : ℕ
  word = pattern_word little key phase width

  first_lane :
      (bytes : List ℕ)
      → phase % 4 ≡ i % 4
      → IsKey key
      → All IsByte bytes
      → width ≤ length bytes
      → to_ne_bytes little width (bit_xor (from_ne_bytes little (take width bytes)) word)
        ≡ mask_bytes key i (take width bytes)
  first_lane bytes h k byte long =
      ap
        (λ w. to_ne_bytes little w (
          bit_xor (from_ne_bytes little (take width bytes))
            (from_ne_bytes little (pattern_bytes key phase 0 w))))
        (sym taken)
      ∙ lane_lem little key phase i (take width bytes) h k (All-take IsByte width bytes byte)
    where
      taken : length (take width bytes) ≡ width
      taken = omega (arith, length-take width bytes)

  pub lanes-LaneLoop :
      (fuel : ℕ) (bytes : List ℕ)
      → phase % 4 ≡ i % 4
      → width % 4 ≡ 0
      → IsKey key
      → All IsByte bytes
      → LaneLoop key i bytes (lanes little width word fuel bytes)
  unfolding lanes
  lanes-LaneLoop zero bytes h four k byte = record { masked = refl; whole = refl; left = byte }
  lanes-LaneLoop (suc fuel) bytes h four k byte = elim (Bool-cases (leb width (length bytes))) [
    | inr short ↦ rw short (record { masked = refl; whole = refl; left = byte })
    | inl long ↦
        let rest =
          lanes-LaneLoop fuel (drop width bytes) h four k (All-drop IsByte width bytes byte) in
        let taken : length (take width bytes) ≡ width = ground (arith, length-take width bytes) in
        let out = lanes little width word fuel (drop width bytes) in
        let lane =
          to_ne_bytes little width (bit_xor (from_ne_bytes little (take width bytes)) word) in
        rw long (record {
          masked =
              ap (mask_bytes key i) (sym (take-drop width bytes))
              ∙ mask_bytes-append key i (take width bytes) (drop width bytes)
              ∙ (λ t.
                  sym (first_lane bytes h k byte (ground arith)) t
                  ++ mask_bytes key (i + taken t) (drop width bytes))
              ∙ ap (λ more. lane ++ more)
                  (mask_bytes_phase key (i + width) i (drop width bytes) (omega arith)
                    ∙ rest.masked)
              ∙ sym (append_assoc lane out.0 (mask_bytes key i out.1));
          whole = omega (
            arith,
            length-append {0} lane out.0,
            rest.whole,
            length-to_ne_bytes little width
                (bit_xor (from_ne_bytes little (take width bytes)) word),
          );
          left = rest.left;
        })
  ]
