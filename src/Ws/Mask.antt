-- ===== src/Ws/Mask.antt =====
-- src/courierust_ws/frame.rs: the masking key, applied in lanes of 16 and 4 bytes.
pub mod Lanes
pub mod Apply
use courierust.Base.{
  ℕ, zero, suc, ◌+◌, ◌%◌, Bool, List, [], ◌∷◌, ◌++◌, length, take, drop, map, leb, if◌then◌else◌,
  bit_and,
}
use Prim.Native.Nat.{bit_xor}
use courierust.Base.Words.{from_ne_bytes, to_ne_bytes}
use courierust.Ws.Frame.{Key}

-- `key[i]` for an index below 4.
abbrev pub key_byte : Key → ℕ → ℕ
key_byte (a, b, c, d) zero = a
key_byte (a, b, c, d) (suc zero) = b
key_byte (a, b, c, d) (suc (suc zero)) = c
key_byte (a, b, c, d) (suc (suc (suc _))) = d

-- A value for each of the four phases: `[u128; 4]` and `[u32; 4]`.
abbrev pub at_phase : ℕ × ℕ × ℕ × ℕ → ℕ → ℕ
at_phase lanes phase = key_byte lanes phase

-- `key[(phase + j) & 3]` for `j` from `start`, `count` times.
unfoldable pub pattern_bytes : Key → ℕ → ℕ → ℕ → List ℕ
pattern_bytes key phase start zero = []
pattern_bytes key phase start (suc count) =
    key_byte key (bit_and (phase + start) 3) ∷ pattern_bytes key phase (suc start) count

pub record Mask : Type 0 where
  pub key : Key
  pub wide : ℕ × ℕ × ℕ × ℕ
  pub word : ℕ × ℕ × ℕ × ℕ

-- `Mask::new` on a machine of the given order.
unfoldable pub new : Bool → Key → Mask
unfolding pattern_bytes from_ne_bytes
new little key =
    let lane = λ (width phase : ℕ). from_ne_bytes little (pattern_bytes key phase 0 width) in
    record {
      key = key;
      wide = (lane 16 0, lane 16 1, lane 16 2, lane 16 3);
      word = (lane 4 0, lane 4 1, lane 4 2, lane 4 3);
    }

-- `while i + width <= data.len()`, a lane for each round: what was masked, and the bytes left. There
-- are no more rounds than bytes.
unfoldable pub lanes : Bool → ℕ → ℕ → ℕ → List ℕ → List ℕ × List ℕ
unfolding to_ne_bytes from_ne_bytes
lanes little width pattern zero bytes = ([], bytes)
lanes little width pattern (suc fuel) bytes =
    let rest = lanes little width pattern fuel (drop width bytes) in
    let lane = bit_xor (from_ne_bytes little (take width bytes)) pattern in
    if leb width (length bytes)
    then (to_ne_bytes little width lane ++ rest.0, rest.1)
    else ([], bytes)

-- The bytes that fill no lane, from index `i` on.
unfoldable pub tail_bytes : Key → ℕ → ℕ → List ℕ → List ℕ
tail_bytes key phase i [] = []
tail_bytes key phase i (b ∷ bytes) =
    bit_xor b (key_byte key (bit_and (phase + i) 3)) ∷ tail_bytes key phase (suc i) bytes

-- `Mask::apply`: the bytes that take the place of the given ones.
unfoldable pub apply : Bool → Mask → ℕ → List ℕ → List ℕ
unfolding lanes tail_bytes
apply little m offset bytes =
    let phase = bit_and offset 3 in
    let (wide, left) = lanes little 16 (at_phase m.wide phase) (length bytes) bytes in
    let (words, ends) = lanes little 4 (at_phase m.word phase) (length left) left in
    wide ++ (words ++ tail_bytes m.key phase (length wide + length words) ends)

-- The specification: payload byte `offset` meets key byte `offset % 4`.
unfoldable pub mask_bytes : Key → ℕ → List ℕ → List ℕ
mask_bytes key offset [] = []
mask_bytes key offset (b ∷ bytes) =
    bit_xor b (key_byte key (offset % 4)) ∷ mask_bytes key (suc offset) bytes
