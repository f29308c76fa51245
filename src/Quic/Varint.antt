-- ===== src/Quic/Varint.antt =====
-- src/courierust_quic/varint.rs. Buffers are lists of numbers below 256.
pub mod RoundTrip
pub mod Bounds
use courierust.Base.{
  ℕ, zero, suc, ◌+◌, ◌-◌, ◌*◌, ◌/◌, ◌%◌, ◌^◌, bit_and, bit_or, List, [], ◌∷◌, Option, none, some,
  map, length, take, ltb, leb, if◌then◌else◌,
}
use courierust.Base.Bytes.{as_u8}
use courierust.Error.{Result, ok, err, unexpected_eof, ◌>>=◌}
use mathlib.Core.List.{foldl}

abbrev pub max : ℕ
max = 2 ^ 62 - 1

-- The body of `encode` after its assertion.
unfoldable pub encode_bytes : ℕ → List ℕ
encode_bytes value =
    if ltb value (2 ^ 6)
    then as_u8 value ∷ []
    else if ltb value (2 ^ 14)
    then bit_or 0x40 (as_u8 (value / 2 ^ 8)) ∷ as_u8 (bit_and value 0xff) ∷ []
    else if ltb value (2 ^ 30)
    then bit_or 0x80 (as_u8 (value / 2 ^ 24))
      ∷ as_u8 (bit_and (value / 2 ^ 16) 0xff)
      ∷ as_u8 (bit_and (value / 2 ^ 8) 0xff)
      ∷ as_u8 (bit_and value 0xff)
      ∷ []
    else bit_or 0xc0 (as_u8 (value / 2 ^ 56))
      ∷ map (λ shift. as_u8 (bit_and (value / 2 ^ shift) 0xff))
          (48 ∷ 40 ∷ 32 ∷ 24 ∷ 16 ∷ 8 ∷ 0 ∷ [])

-- `none` is the panic of the assertion.
unfoldable pub encode : ℕ → Option (List ℕ)
encode value = if leb value max then some (encode_bytes value) else none

-- The length that the two top bits announce.
abbrev pub announced_len : ℕ → ℕ
announced_len zero = 1
announced_len (suc zero) = 2
announced_len (suc (suc zero)) = 4
announced_len (suc (suc (suc _))) = 8

-- `value = (value << 8) | byte` on a u64.
abbrev pub accumulate : ℕ → ℕ → ℕ
accumulate value byte = bit_or (value * 2 ^ 8 % 2 ^ 64) byte

unfoldable pub decode : List ℕ → Result (ℕ × ℕ)
decode [] = err unexpected_eof
decode (first ∷ rest) =
    let len = announced_len (first / 2 ^ 6) in
    if ltb (suc (length rest)) len
    then err unexpected_eof
    else ok (foldl accumulate (bit_and first 0x3f) (take (len - 1) rest), len)

unfoldable pub read : List ℕ → Result ℕ
unfolding decode
read buf = do (v, _) ← decode buf; ok v
