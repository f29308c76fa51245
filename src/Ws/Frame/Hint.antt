-- ===== src/Ws/Frame/Hint.antt =====
-- The length hint and the parser of a header (src/courierust_ws/frame.rs) agree.
use courierust.Base.{
  ℕ, ◌+◌, ◌<◌, ◌≤◌, ◌≡◌, ◌≢◌, arith, Bool, Option, none, some, ◌==◌, bit_and, length, List, [], ◌∷◌,
  Option-cases, inl, inr, if◌then◌else◌,
}
use courierust.Base.Bytes.{has_bit}
use courierust.Error.{ok, >>=-eq-ok}
use native.Mathlib.Decide.{dec_lt}
use courierust.Ws.Frame.Accepted.{parse-ReadFrom}
use courierust.Ws.Frame.{
  FrameHeader, OpCode, parse, parse_rest, header_len_hint, extended_len, mask_of, from_u8,
  after_length, checked, Key,
}

-- The bytes that the length field takes, and the two before it.
abbrev base : ℕ → ℕ
base len7 = if len7 == 126 then 4 else if len7 == 127 then 10 else 2

-- The length field is read exactly when its bytes are there, unless it is refused.
extended_len-need :
    (buf : List ℕ) (len7 len need : ℕ)
    → extended_len buf len7 ≡ ok (some (len, need))
    → (need ≡ base len7) × (2 ≤ length buf → need ≤ length buf)
unfolding extended_len
extended_len-need buf len7 len need h = ground arith

extended_len-ne-none :
    (buf : List ℕ) (len7 : ℕ) → base len7 ≤ length buf → extended_len buf len7 ≢ ok none
unfolding extended_len
extended_len-ne-none buf len7 long h = ground arith

-- The key is missing exactly when fewer than four bytes are left for it.
abbrev mask_len : Bool → ℕ
mask_len masked = if masked then 4 else 0

mask_of-need :
    (buf : List ℕ) (masked : Bool) (need need' : ℕ) (key : Key)
    → need ≤ length buf
    → mask_of buf masked need ≡ some (key, need')
    → (need' ≡ need + mask_len masked) × (need' ≤ length buf)
unfolding mask_of
mask_of-need buf masked need need' key h e = ground arith

mask_of-ne-none :
    (buf : List ℕ) (masked : Bool) (need : ℕ)
    → need + mask_len masked ≤ length buf
    → mask_of buf masked need ≢ none
unfolding mask_of
mask_of-ne-none buf masked need h e = ground arith

after_length-ne-none :
    (buf : List ℕ) (b0 b1 len need : ℕ) (op : OpCode)
    → need + mask_len (has_bit b1 0x80) ≤ length buf
    → after_length buf b0 b1 op (some (len, need)) ≢ ok none
unfolding after_length checked
after_length-ne-none buf b0 b1 len need op long e =
    elim (Option-cases (mask_of buf (has_bit b1 0x80) need)) [
      | inl short ↦ mask_of-ne-none buf (has_bit b1 0x80) need long short
      | inr (key, mask) ↦ ground arith
    ]

parse_rest-ne-none :
    (b0 b1 : ℕ) (rest : List ℕ) (op : OpCode)
    → base (bit_and b1 0x7f) + mask_len (has_bit b1 0x80) ≤ length (b0 ∷ b1 ∷ rest)
    → parse_rest (b0 ∷ b1 ∷ rest) b0 b1 op ≢ ok none
unfolding parse_rest
parse_rest-ne-none b0 b1 rest op long e = split (>>=-eq-ok (extended_len buf (bit_and b1 0x7f)) _ e)
  where
    buf : List ℕ
    buf = b0 ∷ b1 ∷ rest

    split :
        ((extended : Option (ℕ × ℕ)) × (extended_len buf (bit_and b1 0x7f) ≡ ok extended)
          × (after_length buf b0 b1 op extended ≡ ok none))
        → ⊥
    split (none, read, after) = extended_len-ne-none buf (bit_and b1 0x7f) (omega arith) read
    split (some (len, need), read, after) =
        after_length-ne-none buf b0 b1 len need op
          (omega (arith, (extended_len-need buf (bit_and b1 0x7f) len need read).0)) after

-- What a result of the parser says of the buffer and of the length that the hint gives.
abbrev pub Expects : List ℕ → ℕ → Option FrameHeader → Type 0
Expects buf n none = length buf < n
Expects buf n (some h) = (h.header_len ≡ n) × (n ≤ length buf)

Expects-none :
    (b0 b1 : ℕ) (rest : List ℕ)
    → parse (b0 ∷ b1 ∷ rest) ≡ ok none
    → length (b0 ∷ b1 ∷ rest) < base (bit_and b1 0x7f) + mask_len (has_bit b1 0x80)
unfolding parse
Expects-none b0 b1 rest e = elim (Option-cases (from_u8 (bit_and b0 0x0f))) [
  | inl reserved ↦ absurd (ground arith)
  | inr (op, known) ↦
      elim (dec_lt (length (b0 ∷ b1 ∷ rest))
        (base (bit_and b1 0x7f) + mask_len (has_bit b1 0x80))) [
          | yes short ↦ short
          | no long ↦ absurd (parse_rest-ne-none b0 b1 rest op (omega arith) (ground arith))
        ]
]

-- Without an error, a buffer with at least two bytes is either shorter than the hint, and then
-- more is asked for, or it holds a header of exactly the hinted length.
pub header_len_hint-parse :
    (buf : List ℕ) (n : ℕ) (r : Option FrameHeader)
    → header_len_hint buf ≡ some n
    → parse buf ≡ ok r
    → Expects buf n r
unfolding header_len_hint
header_len_hint-parse [] n r hint e = cc
header_len_hint-parse (b0 ∷ []) n r hint e = cc
header_len_hint-parse (b0 ∷ b1 ∷ rest) n none hint e = ground (arith, Expects-none b0 b1 rest e)
header_len_hint-parse (b0 ∷ b1 ∷ rest) n (some h) hint e =
    let from = parse-ReadFrom b0 b1 rest h e in
    let buf : List ℕ = b0 ∷ b1 ∷ rest in
    let (at_base, within) =
      extended_len-need buf (bit_and b1 0x7f) h.payload_len from.need from.extended in
    let needed =
      mask_of-need buf (has_bit b1 0x80) from.need h.header_len h.mask_key (within (omega arith))
        from.mask in
    ground (arith, needed, at_base)
