-- ===== src/Ws/Mask/Apply.antt =====
-- `Mask::apply` (src/courierust_ws/frame.rs) against its specification byte by byte.
use courierust.Base.{
  ℕ, zero, suc, ◌+◌, ◌%◌, ◌<◌, ◌≡◌, refl, sym, ap, ◌∙◌, arith, Bool, List, [], ◌∷◌, ◌++◌, length,
  All, bit_and,
}
use courierust.Base.Bits.{bit_and_mask}
use courierust.Base.Bytes.{IsByte}
use courierust.Base.Xor.{bit_xor_twice, bit_xor-lt}
use courierust.Ws.Frame.{Key}
use courierust.Ws.Mask.{key_byte, at_phase, lanes, tail_bytes, mask_bytes, apply, new}
use courierust.Ws.Mask.Lanes.{IsKey, pattern_word, lanes-LaneLoop, tail_bytes_lem, key_byte-IsByte}

-- The lane of a phase.
wide_lem :
    (little : Bool) (key : Key) (phase : ℕ)
    → phase < 4
    → at_phase (new little key).wide phase ≡ pattern_word little key phase 16
unfolding new
wide_lem little key zero h = refl
wide_lem little key (suc zero) h = refl
wide_lem little key (suc (suc zero)) h = refl
wide_lem little key (suc (suc (suc zero))) h = refl
wide_lem little key (suc (suc (suc (suc n)))) h = absurd (omega arith)

word_lem :
    (little : Bool) (key : Key) (phase : ℕ)
    → phase < 4
    → at_phase (new little key).word phase ≡ pattern_word little key phase 4
unfolding new
word_lem little key zero h = refl
word_lem little key (suc zero) h = refl
word_lem little key (suc (suc zero)) h = refl
word_lem little key (suc (suc (suc zero))) h = refl
word_lem little key (suc (suc (suc (suc n)))) h = absurd (omega arith)

key-new : (little : Bool) (key : Key) → (new little key).key ≡ key
unfolding new
key-new little key = refl

-- The three loops, from the two patterns of a phase.
abbrev three_loops : Bool → Key → ℕ → ℕ → ℕ → List ℕ → List ℕ
three_loops little key wide word phase bytes =
    let (front, left) = lanes little 16 wide (length bytes) bytes in
    let (middle, ends) = lanes little 4 word (length left) left in
    front ++ (middle ++ tail_bytes key phase (length front + length middle) ends)

three_loops_lem :
    (little : Bool) (key : Key) (phase i : ℕ) (bytes : List ℕ)
    → phase % 4 ≡ i % 4
    → IsKey key
    → All IsByte bytes
    → three_loops little key
        (pattern_word little key phase 16)
        (pattern_word little key phase 4)
        phase
        bytes
      ≡ mask_bytes key i bytes
three_loops_lem little key phase i bytes h k byte =
    let (front, left) = lanes little 16 (pattern_word little key phase 16) (length bytes) bytes in
    let (middle, ends) = lanes little 4 (pattern_word little key phase 4) (length left) left in
    let first = lanes-LaneLoop little key phase i 16 (length bytes) bytes h (omega arith) k byte in
    let second =
      lanes-LaneLoop little key phase i 4 (length left) left h (omega arith) k first.left in
    ap (λ more. front ++ (middle ++ more))
      (tail_bytes_lem key phase (length front + length middle) i ends
        (omega (arith, first.whole, second.whole)))
    ∙ ap (λ more. front ++ more) (sym second.masked)
    ∙ sym first.masked

-- In lanes of 16 and of 4 bytes and byte by byte at the end, payload byte `i` meets key byte
-- `i % 4`, on a machine of either byte order and for every offset.
pub apply-mask_bytes :
    (little : Bool) (key : Key) (offset : ℕ) (bytes : List ℕ)
    → IsKey key
    → All IsByte bytes
    → apply little (new little key) offset bytes ≡ mask_bytes key offset bytes
unfolding apply
apply-mask_bytes little key offset bytes k byte =
    rw
      (
        wide_lem little key (bit_and offset 3) (omega (arith, phase)),
        word_lem little key (bit_and offset 3) (omega (arith, phase)),
        key-new little key,
      )
      (three_loops_lem little key (bit_and offset 3) offset bytes (omega (arith, phase)) k byte)
  where
    phase : bit_and offset 3 ≡ offset % 4
    phase = bit_and_mask 2 offset

mask_bytes-IsByte :
    (key : Key) (i : ℕ) (bytes : List ℕ)
    → IsKey key
    → All IsByte bytes
    → All IsByte (mask_bytes key i bytes)
unfolding mask_bytes
mask_bytes-IsByte key i [] k h = tt
mask_bytes-IsByte key i (b ∷ bytes) k h = (
  bit_xor-lt 8 b (key_byte key (i % 4)) h.0 (key_byte-IsByte key (i % 4) k),
  mask_bytes-IsByte key (suc i) bytes k h.1,
)

mask_bytes_twice :
    (key : Key) (i : ℕ) (bytes : List ℕ) → mask_bytes key i (mask_bytes key i bytes) ≡ bytes
unfolding mask_bytes
mask_bytes_twice key i [] = refl
mask_bytes_twice key i (b ∷ bytes) =
    λ t. bit_xor_twice b (key_byte key (i % 4)) t ∷ mask_bytes_twice key (suc i) bytes t

-- Unmasking is masking: a second pass at the same offset gives the payload back.
pub apply_twice :
    (little : Bool) (key : Key) (offset : ℕ) (bytes : List ℕ)
    → IsKey key
    → All IsByte bytes
    → apply little (new little key) offset (apply little (new little key) offset bytes) ≡ bytes
apply_twice little key offset bytes k byte =
    ap (apply little (new little key) offset) (apply-mask_bytes little key offset bytes k byte)
    ∙ apply-mask_bytes little key offset (mask_bytes key offset bytes) k
        (mask_bytes-IsByte key offset bytes k byte)
    ∙ mask_bytes_twice key offset bytes
