-- ===== src/Ws/Utf8/Scalars.antt =====
-- Unicode's scalar values and their encoding, which the validator (src/courierust_ws/utf8.rs) knows
-- only as a table of byte ranges.
use courierust.Base.{
  ℕ, ◌+◌, ◌-◌, ◌*◌, ◌/◌, ◌%◌, ◌<◌, ◌≤◌, ◌≡◌, ◌⊎◌, arith, some, List, [], ◌∷◌, ◌++◌, length, take,
  ltb, inl, inr, if◌then◌else◌,
}
use native.Mathlib.Decide.{dec_lt}
use courierust.Ws.Utf8.{table_row, follows, char_len}

-- Not a surrogate half, and at most U+10FFFF.
abbrev pub IsScalar : ℕ → Type 0
IsScalar c = (c < 0x110000) × ((c < 0xd800) ⊎ (0xdfff < c))

unfoldable pub encode_scalar : ℕ → List ℕ
encode_scalar c =
    if ltb c 0x80
    then c ∷ []
    else if ltb c 0x800
    then (0xc0 + c / 64) ∷ (0x80 + c % 64) ∷ []
    else if ltb c 0x10000
    then (0xe0 + c / 4096) ∷ (0x80 + c / 64 % 64) ∷ (0x80 + c % 64) ∷ []
    else (0xf0 + c / 262144) ∷ (0x80 + c / 4096 % 64) ∷ (0x80 + c / 64 % 64) ∷ (0x80 + c % 64) ∷ []

pub char_len-encode_scalar :
    (c : ℕ) (rest : List ℕ)
    → IsScalar c
    → char_len (encode_scalar c ++ rest) ≡ some (length (encode_scalar c))
unfolding char_len table_row follows encode_scalar
char_len-encode_scalar c rest h = ground arith

-- The value of the character that the bytes start with.
abbrev pub decode_scalar : List ℕ → ℕ
decode_scalar [] = 0
decode_scalar (a ∷ []) = a
decode_scalar (a ∷ b ∷ []) = if ltb a 0x80 then a else (a - 0xc0) * 64 + (b - 0x80)
decode_scalar (a ∷ b ∷ c ∷ []) =
    if ltb a 0x80
    then a
    else if ltb a 0xe0
    then (a - 0xc0) * 64 + (b - 0x80)
    else (a - 0xe0) * 4096 + (b - 0x80) * 64 + (c - 0x80)
decode_scalar (a ∷ b ∷ c ∷ d ∷ rest) =
    if ltb a 0x80
    then a
    else if ltb a 0xe0
    then (a - 0xc0) * 64 + (b - 0x80)
    else if ltb a 0xf0
    then (a - 0xe0) * 4096 + (b - 0x80) * 64 + (c - 0x80)
    else (a - 0xf0) * 262144 + (b - 0x80) * 4096 + (c - 0x80) * 64 + (d - 0x80)

decode_scalar-lt :
    (bytes : List ℕ) (n : ℕ) → char_len bytes ≡ some n → decode_scalar bytes < 0x110000
unfolding char_len table_row follows
decode_scalar-lt [] n h = cc
decode_scalar-lt (a ∷ []) n h = ground arith
decode_scalar-lt (a ∷ b ∷ []) n h = ground arith
decode_scalar-lt (a ∷ b ∷ c ∷ []) n h = ground arith
decode_scalar-lt (a ∷ b ∷ c ∷ d ∷ rest) n h = ground arith

-- There is nothing between the two ranges.
decode_scalar_gap :
    (bytes : List ℕ) (n : ℕ)
    → char_len bytes ≡ some n
    → decode_scalar bytes ≤ 0xdfff
    → decode_scalar bytes < 0xd800
unfolding char_len table_row follows
decode_scalar_gap [] n h k = cc
decode_scalar_gap (a ∷ []) n h k = ground arith
decode_scalar_gap (a ∷ b ∷ []) n h k = ground arith
decode_scalar_gap (a ∷ b ∷ c ∷ []) n h k = ground arith
decode_scalar_gap (a ∷ b ∷ c ∷ d ∷ rest) n h k = ground arith

pub IsScalar-decode_scalar :
    (bytes : List ℕ) (n : ℕ) → char_len bytes ≡ some n → IsScalar (decode_scalar bytes)
IsScalar-decode_scalar bytes n h = elim (dec_lt 0xdfff (decode_scalar bytes)) [
  | yes above ↦ (decode_scalar-lt bytes n h, inr above)
  | no below ↦ (decode_scalar-lt bytes n h, inl (decode_scalar_gap bytes n h (omega arith)))
]

pub encode_scalar-decode_scalar :
    (bytes : List ℕ) (n : ℕ)
    → char_len bytes ≡ some n
    → take n bytes ≡ encode_scalar (decode_scalar bytes)
unfolding char_len table_row follows encode_scalar
encode_scalar-decode_scalar [] n h = cc
encode_scalar-decode_scalar (a ∷ []) n h = ground arith
encode_scalar-decode_scalar (a ∷ b ∷ []) n h = ground arith
encode_scalar-decode_scalar (a ∷ b ∷ c ∷ []) n h = ground arith
encode_scalar-decode_scalar (a ∷ b ∷ c ∷ d ∷ rest) n h = ground arith
