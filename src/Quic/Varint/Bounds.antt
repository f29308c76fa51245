-- ===== src/Quic/Varint/Bounds.antt =====
-- Varints: the bounds of a successful read, and input that ends too early.
use courierust.Base.{
  All-take, ℕ, zero, suc, ◌+◌, ◌-◌, ◌*◌, ◌/◌, ◌^◌, ◌≤◌, ◌<◌, bit_and, List, [], ◌∷◌, length, take,
  All, length-take, ◌≡◌, refl, arith, ltb, true, inl, inr, Bool-cases, lt→ltb, ltb→le,
}
use courierust.Base.Bits.{low_six_bits}
use courierust.Base.Bytes.{IsByte}
use courierust.Error.{ok, err, unexpected_eof}
use courierust.Quic.Varint.{max, encode_bytes, decode, announced_len, accumulate}
use courierust.Quic.Varint.RoundTrip.{
  Form, encode_bytes-Form, be_value, fold-accumulate, announced_len_bounds,
}
use mathlib.Core.List.{foldl}
use mathlib.Core.Path.{subst}

-- What a successful read of a buffer with the first byte `b` has found.
decode_inversion :
    (b : ℕ) (rest : List ℕ) (v n : ℕ)
    → All IsByte (b ∷ rest)
    → decode (b ∷ rest) ≡ ok (v, n)
    → (n ≡ announced_len (b / 64)) × (n ≤ suc (length rest)) × (v < 64 * 256 ^ (n - 1))
unfolding decode
decode_inversion b rest v n h e = elim (Bool-cases (ltb (suc (length rest)) len)) [
  | inl short ↦ cc (rw short at e)
  | inr enough ↦ ground (
    arith,
    rw enough at e,
    announced_len_bounds (b / 64),
    low_six_bits b h.0,
    length-take (len - 1) rest,
    loop (ltb→le _ _ enough),
  )
]
  where
    len : ℕ
    len = announced_len (b / 64)

    loop :
        len ≤ suc (length rest)
        → (foldl accumulate (bit_and b 63) (take (len - 1) rest) < 64 * 256 ^ (len - 1))
    loop fits =
        let bytes = take (len - 1) rest in
        let rounds : 0 + length bytes ≡ len - 1 = omega (arith, length-take (len - 1) rest) in
        let (value, below) =
          fold-accumulate 0 (bit_and b 63) bytes (omega (arith, announced_len_bounds (b / 64)))
            (omega (arith, low_six_bits b h.0)) (All-take IsByte (len - 1) rest h.1) in
        rw value (subst (λ k. be_value (bit_and b 63) bytes < 64 * 256 ^ k) rounds below)

sized :
    (tag v n : ℕ)
    → tag < 4
    → n ≡ announced_len tag
    → v < 64 * 256 ^ (n - 1)
    → (v ≤ max) × (length (encode_bytes v) ≤ n)
unfolding encode_bytes
sized zero v n h e k = ground arith
sized (suc zero) v n h e k = ground arith
sized (suc (suc zero)) v n h e k = ground arith
sized (suc (suc (suc zero))) v n h e k = ground arith
sized (suc (suc (suc (suc tag)))) v n h e k = absurd (omega arith)

-- A successful read of bytes gives a value of 62 bits at most, and has taken at least one byte, none
-- behind the buffer, and no fewer than the shortest form of the value has.
pub decode_bounds :
    (buf : List ℕ) (v n : ℕ)
    → All IsByte buf
    → decode buf ≡ ok (v, n)
    → (v ≤ max) × (1 ≤ n) × (n ≤ length buf) × (length (encode_bytes v) ≤ n)
decode_bounds [] v n h e = unfold decode in cc
decode_bounds (b ∷ rest) v n h e =
    let (len, fits, small) = decode_inversion b rest v n h e in
    let (top, shortest) = sized (b / 64) v n (omega (arith, h.0)) len small in
    (top, omega (arith, announced_len_bounds (b / 64)), fits, shortest)

cut_short :
    (tag t k : ℕ) (bs : List ℕ)
    → t < 64
    → announced_len tag ≡ suc (length bs)
    → k < length bs
    → decode ((tag * 64 + t) ∷ take k bs) ≡ err unexpected_eof
unfolding decode
cut_short tag t k bs ht e h = rw (quotient, e, short)
  where
    quotient : (tag * 64 + t) / 64 ≡ tag
    quotient = omega arith

    short : ltb (suc (length (take k bs))) (suc (length bs)) ≡ true
    short = lt→ltb _ _ (omega (arith, length-take k bs))

-- What `encode` writes, cut short anywhere, is refused as ending too early.
pub decode_truncated :
    (v k : ℕ)
    → v ≤ max
    → k < length (encode_bytes v)
    → decode (take k (encode_bytes v)) ≡ err unexpected_eof
decode_truncated v k h hk = rw f.written (cut k (rw f.written at hk))
  where
    f : Form v (encode_bytes v)
    f = encode_bytes-Form v h

    cut :
        (k : ℕ)
        → k < suc (length f.bs)
        → decode (take k ((f.tag * 64 + f.t) ∷ f.bs)) ≡ err unexpected_eof
    cut zero hk = unfold decode in refl
    cut (suc k) hk = cut_short f.tag f.t k f.bs f.t_small f.announced (omega arith)
