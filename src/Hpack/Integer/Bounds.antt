-- ===== src/Hpack/Integer/Bounds.antt =====
-- Integers: where a read ends, and how large its value is.
use courierust.Base.{
  ℕ, ◌+◌, ◌-◌, ◌*◌, ◌%◌, ◌^◌, ◌≤◌, ◌<◌, ◌≡◌, arith, List, [], ◌∷◌, length, drop, length-drop,
  bit_and, ltb, inl, inr, Bool-cases,
}
use courierust.Error.{ok}
use courierust.Hpack.Integer.{read_more, read_int}

read_more_bounds :
    (octets : List ℕ) (pos val shift v end : ℕ)
    → read_more octets pos val shift ≡ ok (v, end)
    → (pos < end) × (end ≤ pos + length octets) × (v < 2 ^ 64)
unfolding read_more
read_more_bounds [] pos val shift v end h = cc
read_more_bounds (b ∷ octets) pos val shift v end h =
    let part = bit_and b 0x7f * 2 ^ shift % 2 ^ 64 in
    ground (arith, read_more_bounds octets (pos + 1) (val + part) (shift + 7) v end)

-- A read that succeeds ends at or behind the position it began at and inside the input, with a value
-- that fits 64 bits.
pub read_int_bounds :
    (input : List ℕ) (pos n prefix v end : ℕ)
    → pos ≤ length input
    → prefix < 2 ^ 8
    → read_int input pos n prefix ≡ ok (v, end)
    → (pos ≤ end) × (end ≤ length input) × (v < 2 ^ 64)
unfolding read_int
read_int_bounds input pos n prefix v end hp hv h = elim (Bool-cases (ltb prefix (2 ^ n - 1))) [
  | inl p ↦ ground (arith, rw p at h)
  | inr p ↦ ground (
    arith,
    read_more_bounds (drop pos input) pos prefix 0 v end (rw p at h),
    length-drop pos input,
  )
]
