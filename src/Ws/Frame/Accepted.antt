-- ===== src/Ws/Frame/Accepted.antt =====
-- What a header that was accepted (src/courierust_ws/frame.rs) was read from.
use courierust.Base.{
  ℕ, ◌≡◌, refl, arith, true, none, some, bit_and, List, ◌∷◌, Bool-cases, Option, Option-cases, inl,
  inr, ltb, ◌≤◌,
}
use courierust.Base.Bytes.{has_bit}
use mathlib.Core.Path.{subst}
use courierust.Error.{ok, >>=-eq-ok}
use courierust.Ws.Frame.{
  FrameHeader, OpCode, Key, parse, parse_rest, extended_len, mask_of, from_u8, is_control,
  max_control_payload, checked, header, after_length,
}

-- The two bytes, the length and the key behind a header.
pub record ReadFrom (buf : List ℕ) (b0 b1 : ℕ) (h : FrameHeader) : Type 0 where
  pub need : ℕ
  pub extended : extended_len buf (bit_and b1 0x7f) ≡ ok (some (h.payload_len, need))
  pub mask : mask_of buf (has_bit b1 0x80) need ≡ some (h.mask_key, h.header_len)
  pub opcode : from_u8 (bit_and b0 0x0f) ≡ some h.opcode
  pub fin : h.fin ≡ has_bit b0 0x80
  pub rsv1 : h.rsv1 ≡ has_bit b0 0x40
  pub rsv2 : h.rsv2 ≡ has_bit b0 0x20
  pub rsv3 : h.rsv3 ≡ has_bit b0 0x10
  pub masked : h.masked ≡ has_bit b1 0x80
  pub whole_control : is_control h.opcode ≡ true → h.fin ≡ true
  pub short_control : is_control h.opcode ≡ true → h.payload_len ≤ 125

checked-eq-ok :
    (h g : FrameHeader)
    → checked h ≡ ok (some g)
    → (is_control h.opcode ≡ true → h.fin ≡ true)
      × (is_control h.opcode ≡ true → h.payload_len ≤ 125)
      × (h ≡ g)
unfolding checked
checked-eq-ok h g e = elim (Bool-cases (is_control h.opcode)) [
  | inl control ↦ elim (Bool-cases h.fin) [
    | inl whole ↦ elim (Bool-cases (ltb max_control_payload h.payload_len)) [
      | inl long ↦ absurd (ground arith)
      | inr short ↦ ((λ _. whole), (λ _. ground arith), ground arith)
    ]
    | inr part ↦ absurd (ground arith)
  ]
  | inr other ↦ ((λ control. cc), (λ control. cc), ground arith)
]

checked-ReadFrom :
    (buf : List ℕ) (b0 b1 : ℕ) (op : OpCode) (len need need' : ℕ) (key : Key) (h : FrameHeader)
    → from_u8 (bit_and b0 0x0f) ≡ some op
    → extended_len buf (bit_and b1 0x7f) ≡ ok (some (len, need))
    → mask_of buf (has_bit b1 0x80) need ≡ some (key, need')
    → checked (header b0 b1 op len key need') ≡ ok (some h)
    → ReadFrom buf b0 b1 h
checked-ReadFrom buf b0 b1 op len need need' key h known extended mask e =
    let (whole, short, same) = checked-eq-ok (header b0 b1 op len key need') h e in
    subst (ReadFrom buf b0 b1) same (record {
      need = need;
      extended = extended;
      mask = mask;
      opcode = known;
      fin = refl;
      rsv1 = refl;
      rsv2 = refl;
      rsv3 = refl;
      masked = refl;
      whole_control = whole;
      short_control = short;
    })

parse_rest-ReadFrom :
    (buf : List ℕ) (b0 b1 : ℕ) (op : OpCode) (h : FrameHeader)
    → from_u8 (bit_and b0 0x0f) ≡ some op
    → parse_rest buf b0 b1 op ≡ ok (some h)
    → ReadFrom buf b0 b1 h
unfolding parse_rest
parse_rest-ReadFrom buf b0 b1 op h known e =
    let (extended, read, rest) = >>=-eq-ok (extended_len buf (bit_and b1 0x7f)) _ e in
    from_length extended read rest
  where
    from_length :
        (extended : Option (ℕ × ℕ))
        → extended_len buf (bit_and b1 0x7f) ≡ ok extended
        → after_length buf b0 b1 op extended ≡ ok (some h)
        → ReadFrom buf b0 b1 h
    from_length none read rest = cc
    from_length (some (len, need)) read rest =
        elim (Option-cases (mask_of buf (has_bit b1 0x80) need)) [
          | inl short ↦ absurd (ground arith)
          | inr ((key, need'), mask) ↦
              checked-ReadFrom buf b0 b1 op len need need' key h known read mask (ground arith)
        ]

-- A header is accepted only from two bytes or more.
pub parse-ReadFrom :
    (b0 b1 : ℕ) (rest : List ℕ) (h : FrameHeader)
    → parse (b0 ∷ b1 ∷ rest) ≡ ok (some h)
    → ReadFrom (b0 ∷ b1 ∷ rest) b0 b1 h
unfolding parse
parse-ReadFrom b0 b1 rest h e = elim (Option-cases (from_u8 (bit_and b0 0x0f))) [
  | inl reserved ↦ absurd (ground arith)
  | inr (op, known) ↦ parse_rest-ReadFrom (b0 ∷ b1 ∷ rest) b0 b1 op h known (ground arith)
]
