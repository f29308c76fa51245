-- ===== src/Quic/PacketNumber.antt =====
-- src/courierust_quic/packet.rs: packet numbers, which are cut to their low bytes on the wire.
pub mod Recovery
use courierust.Base.{
  ℕ, zero, suc, ◌+◌, ◌*◌, ◌-◌, ◌/◌, ◌%◌, ◌^◌, Bool, not, ◌&&◌, Option, none, some, List, [], ◌∷◌,
  take, min, ltb, leb, ◌==◌, if◌then◌else◌, bit_and, bit_or,
}
use courierust.Base.Bytes.{as_u8}
use courierust.Error.{Result, ok, err, protocol, ◌>>=◌, ◌>>◌, fail_if}

-- The loop of `encode_pn`: the byte at each shift below `pn_len`, the highest first.
abbrev pub low_bytes : ℕ → ℕ → List ℕ
low_bytes pn zero = []
low_bytes pn (suc shift) = as_u8 (pn / 2 ^ (shift * 8)) ∷ low_bytes pn shift

unfoldable pub encode_pn : ℕ → ℕ → Result (List ℕ)
encode_pn pn pn_len = do
  fail_if (not (leb 1 pn_len && leb pn_len 4)) protocol
  ok (low_bytes pn pn_len)

abbrev pub bits_of : ℕ → Option ℕ
bits_of pn_len =
    if pn_len == 1
    then some 8
    else if pn_len == 2
    then some 16
    else if pn_len == 3
    then some 24
    else if pn_len == 4
    then some 32
    else none

-- The value of the truncated bytes, behind those that were read.
abbrev pub fold_bytes : ℕ → List ℕ → ℕ
fold_bytes acc [] = acc
fold_bytes acc (b ∷ bytes) = fold_bytes (bit_or (acc * 256 % 2 ^ 64) b) bytes

-- `(expected & !mask) | truncated_value`
abbrev pub candidate_of : ℕ → ℕ → ℕ → ℕ
candidate_of bits expected value = bit_or (bit_and expected (2 ^ 64 - 1 - (2 ^ bits - 1))) value

-- The candidate, or the number one window above or below it that is nearer to what is expected.
unfoldable pub nearest : ℕ → ℕ → ℕ → ℕ → ℕ
nearest win window expected candidate =
    let below =
      if ltb (min (expected + win) (2 ^ 64 - 1)) candidate && leb window candidate
      then candidate - window
      else candidate in
    if leb win expected && leb candidate (expected - win)
    then (if ltb (candidate + window) (2 ^ 64) then candidate + window else below)
    else below

unfoldable pub decode_pn : List ℕ → ℕ → ℕ → ℕ
decode_pn truncated expected pn_len = elim (bits_of pn_len) [
  | none ↦ expected
  | some bits ↦
      nearest (2 ^ (bits - 1)) (2 ^ bits) expected
        (candidate_of bits expected (fold_bytes 0 (take pn_len truncated)))
]
