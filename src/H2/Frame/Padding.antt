-- ===== src/H2/Frame/Padding.antt =====
-- Padded frames: DATA, HEADERS and PUSH_PROMISE.
use courierust.Base.{
  ℕ, suc, ◌+◌, ◌-◌, ◌^◌, ◌≤◌, ◌<◌, ◌≡◌, arith, List, [], ◌∷◌, ◌++◌, true, false, length, take,
  length-append, take-append, ltb, leb, ◌==◌, if◌then◌else◌, inl, inr, Bool-cases,
}
use courierust.Base.Bytes.{u32_to_be_bytes}
use courierust.Error.{ok, err}
use courierust.H2.Frame.{data_frame, headers, push_promise}
use courierust.H2.Frame.Framing.{stream_id_of-bytes}
use courierust.H2.Frame.Header.{
  is_set, flag_padded, flag_priority, flag_end_stream, flag_end_headers,
}
use courierust.H2.Frame.Parse.{parse_data, parse_headers, parse_push_promise, frame_size}
use mathlib.Core.Option.{none}

take_less : (n : ℕ) (xs ys : List ℕ) → n ≡ length xs → take n (xs ++ ys) ≡ xs
take_less n xs ys h = rw h (take-append xs ys)

-- A DATA frame with a Pad Length field `p` in front of its body and `p` bytes of padding behind it
-- gives the body alone, and counts the field and the padding as `p + 1` bytes of padding.
pub parse_data_padded :
    (sid flags p : ℕ) (body pad : List ℕ)
    → 0 < sid
    → is_set flags flag_padded ≡ true
    → length pad ≡ p
    → parse_data sid flags (p ∷ (body ++ pad))
      ≡ ok (data_frame sid body (is_set flags flag_end_stream) (p + 1))
unfolding parse_data
parse_data_padded sid flags p body pad h padded e =
    rw (nonzero, padded, fits, take_less _ body pad stripped, whole)
  where
    nonzero : (sid == 0) ≡ false
    nonzero = ground arith

    fits : leb (suc (length (body ++ pad))) p ≡ false
    fits = ground (arith, length-append body pad)

    stripped : suc (length (body ++ pad)) - p - 1 ≡ length body
    stripped = omega (arith, length-append body pad)

    whole : suc (length (body ++ pad)) - length body ≡ p + 1
    whole = omega (arith, length-append body pad)

-- A HEADERS frame with no priority: the padding is taken off, whatever its length is.
pub parse_headers_padded :
    (sid flags p : ℕ) (block pad : List ℕ)
    → 0 < sid
    → is_set flags flag_padded ≡ true
    → is_set flags flag_priority ≡ false
    → length pad ≡ p
    → parse_headers sid flags (p ∷ (block ++ pad))
      ≡ ok (headers sid block (is_set flags flag_end_stream) (is_set flags flag_end_headers) none)
unfolding parse_headers
parse_headers_padded sid flags p block pad h padded plain e =
    rw (nonzero, padded, plain, fits, take_less _ block pad stripped)
  where
    nonzero : (sid == 0) ≡ false
    nonzero = ground arith

    fits : ltb (length (block ++ pad)) p ≡ false
    fits = ground (arith, length-append block pad)

    stripped : length (block ++ pad) - p ≡ length block
    stripped = omega (arith, length-append block pad)

-- A PUSH_PROMISE frame with `p` bytes of padding is parsed if `p` is at most 5, and refused with a
-- frame size error if it is more, although its padding fits.
pub parse_push_promise_padded :
    (sid flags p promised : ℕ) (block pad : List ℕ)
    → 0 < sid
    → is_set flags flag_padded ≡ true
    → promised < 2 ^ 31
    → length pad ≡ p
    → parse_push_promise sid flags (p ∷ (u32_to_be_bytes promised ++ (block ++ pad))) ≡ (
        if leb p 5
        then ok (push_promise sid promised block (is_set flags flag_end_headers))
        else err frame_size)
unfolding parse_push_promise
parse_push_promise_padded sid flags p promised block pad h padded fit e =
    elim (Bool-cases (leb p 5)) [
      | inl few ↦ rw (
        nonzero,
        padded,
        few,
        enough,
        ltb-few few,
        stream_id_of-bytes promised (block ++ pad) fit,
        take_less _ block pad stripped,
      )
      | inr many ↦ rw (nonzero, padded, many, enough, ltb-many many)
    ]
  where
    nonzero : (sid == 0) ≡ false
    nonzero = ground arith

    stripped : length (block ++ pad) - p ≡ length block
    stripped = omega (arith, length-append block pad)

    enough : ltb (suc (suc (suc (suc (length (block ++ pad)))))) 4 ≡ false
    enough = ground arith

    ltb-few :
        leb p 5 ≡ true
        → ltb (suc (suc (suc (suc (suc (length (block ++ pad))))))) (length (block ++ pad) + p)
          ≡ false
    ltb-few few = ground arith

    ltb-many :
        leb p 5 ≡ false
        → ltb (suc (suc (suc (suc (suc (length (block ++ pad))))))) (length (block ++ pad) + p)
          ≡ true
    ltb-many many = ground arith

-- A PUSH_PROMISE frame that announces more padding than it holds, but at most 5 bytes of it, is
-- accepted with an empty field block.
pub parse_push_promise_overrun :
    (sid flags p promised : ℕ) (rest : List ℕ)
    → 0 < sid
    → is_set flags flag_padded ≡ true
    → promised < 2 ^ 31
    → length rest < p
    → p ≤ 5
    → parse_push_promise sid flags (p ∷ (u32_to_be_bytes promised ++ rest))
      ≡ ok (push_promise sid promised [] (is_set flags flag_end_headers))
unfolding parse_push_promise
parse_push_promise_overrun sid flags p promised rest h padded fit short few =
    rw (nonzero, padded, enough, accepted, stream_id_of-bytes promised rest fit, none_left)
  where
    nonzero : (sid == 0) ≡ false
    nonzero = ground arith

    enough : ltb (suc (suc (suc (suc (length rest))))) 4 ≡ false
    enough = ground arith

    accepted : ltb (suc (suc (suc (suc (suc (length rest)))))) (length rest + p) ≡ false
    accepted = ground arith

    none_left : length rest - p ≡ 0
    none_left = omega arith
