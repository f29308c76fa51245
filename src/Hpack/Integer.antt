-- ===== src/Hpack/Integer.antt =====
-- `read_int` and `write_int` of src/courierust_hpack/mod.rs: an integer after a prefix of `n` bits.
pub mod RoundTrip
pub mod Bounds
use courierust.Base.{
  ℕ, zero, suc, ◌+◌, ◌-◌, ◌*◌, ◌/◌, ◌%◌, ◌^◌, List, [], ◌∷◌, drop, ltb, leb, ◌==◌, if◌then◌else◌,
  bit_and, bit_or,
}
use courierust.Base.Bytes.{as_u8}
use courierust.Error.{Result, ok, err, protocol, overflow, ◌>>=◌, ◌>>◌, fail_if}

-- `(b as usize).checked_shl(shift)`: a shift below 64 is taken, and the bits above 64 are lost.
abbrev pub checked_shl : ℕ → ℕ → Result ℕ
checked_shl b shift = if ltb shift 64 then ok (b * 2 ^ shift % 2 ^ 64) else err overflow

-- The loop of `read_int`, over the octets from `pos` on: the value and the position after it.
unfoldable pub read_more : List ℕ → ℕ → ℕ → ℕ → Result (ℕ × ℕ)
read_more [] pos val shift = err protocol
read_more (b ∷ octets) pos val shift = do
  part ← checked_shl (bit_and b 0x7f) shift
  fail_if (leb (2 ^ 64) (val + part)) overflow
  let more = read_more octets (pos + 1) (val + part) (shift + 7)
  (if bit_and b 0x80 == 0
      then ok (val + part, pos + 1)
      else fail_if (leb 64 (shift + 7)) overflow >> more)

unfoldable pub read_int : List ℕ → ℕ → ℕ → ℕ → Result (ℕ × ℕ)
read_int input pos n prefix =
    if ltb prefix (2 ^ n - 1) then ok (prefix, pos) else read_more (drop pos input) pos prefix 0

-- The loop of `write_int` and its last octet. A u64 needs nine rounds at most.
unfoldable pub octets_of : ℕ → ℕ → List ℕ
octets_of zero v = as_u8 v ∷ []
octets_of (suc rounds) v =
    let more = octets_of rounds (v / 128) in
    if ltb v 128 then as_u8 v ∷ [] else bit_or (as_u8 (v % 128)) 0x80 ∷ more

-- The octets that are appended.
unfoldable pub write_int : ℕ → ℕ → ℕ → List ℕ
write_int prefix n value =
    if ltb value (2 ^ n - 1)
    then bit_or prefix (as_u8 value) ∷ []
    else bit_or prefix (as_u8 (2 ^ n - 1)) ∷ octets_of 9 (value - (2 ^ n - 1))
