-- ===== src/H3/Frame/RoundTrip.antt =====
-- HTTP/3 frames: encode, then decode.
use courierust.Base.{
  ℕ, ◌+◌, ◌^◌, ◌≤◌, ◌<◌, ◌≡◌, refl, sym, ap, ◌∙◌, arith, false, some, List, ◌++◌, length,
  length-append, take, drop, take-append, drop-append, drop-add, ltb, leb, ◌==◌,
}
use courierust.Error.{ok}
use courierust.Quic.Varint
use courierust.Quic.Varint.RoundTrip.{decode-encode_bytes}
use courierust.Quic.Frame.NumberArms.{e}
use courierust.H3.Frame.{Frame, frame_type, to_bytes, decode_payload, or_wait, decode_body, decode}
use courierust.H3.Frame.Written.{WellFormed, length-e, frame-Written, wire, to_bytes-wire}
use mathlib.Core.List.{append_assoc}

-- The path of `decode` through a buffer that holds a type, a length and a payload.
decode_steps :
    (buf : List ℕ) (t u n u' : ℕ) (after_type after_length payload : List ℕ) (f : Frame)
    → 0 < u
    → u + u' + n ≤ length buf
    → length buf < 2 ^ 64
    → Varint.decode buf ≡ ok (t, u)
    → drop u buf ≡ after_type
    → Varint.decode after_type ≡ ok (n, u')
    → drop (u + u') buf ≡ after_length
    → take n after_length ≡ payload
    → decode_payload t payload ≡ ok f
    → decode buf 0 ≡ ok (some f, u + u' + n)
unfolding decode decode_body
decode_steps buf t u n u' after_type after_length payload f hu fits small d1 r1 d2 r2 body read =
    rw
      (
        in_buffer, not_empty, d1, or_wait, start, no_overflow1, r1, d2, no_overflow2, no_overflow3,
        present, r2, body, read,
      )
      refl
  where
    start : 0 + u ≡ u
    start = omega arith

    in_buffer : ltb (length buf) 0 ≡ false
    in_buffer = ground arith

    not_empty : (0 == length buf) ≡ false
    not_empty = ground arith

    no_overflow1 : leb (2 ^ 64) u ≡ false
    no_overflow1 = ground arith

    no_overflow2 : leb (2 ^ 64) (u + u') ≡ false
    no_overflow2 = ground arith

    no_overflow3 : leb (2 ^ 64) (u + u' + n) ≡ false
    no_overflow3 = ground arith

    present : ltb (length buf) (u + u' + n) ≡ false
    present = ground arith

decode-wire :
    (t : ℕ) (payload rest : List ℕ) (f : Frame)
    → t ≤ Varint.max
    → length payload ≤ Varint.max
    → length (wire t payload ++ rest) < 2 ^ 64
    → decode_payload t payload ≡ ok f
    → decode (wire t payload ++ rest) 0 ≡ ok (some f, length (wire t payload))
decode-wire t payload rest f ht hp small read =
    ap (λ buf. decode buf 0) shape
    ∙ decode_steps buf t (length (e t)) (length payload) (length (e (length payload))) after_type
        (payload ++ rest) payload f (length-e t).0 fits (rw shape at small)
        (decode-encode_bytes t after_type ht) (drop-append (e t) after_type)
        (decode-encode_bytes (length payload) (payload ++ rest) hp) skipped
        (take-append payload rest) read
    ∙ ap (λ n. ok (some f, n)) (sym whole)
  where
    after_type : List ℕ
    after_type = e (length payload) ++ (payload ++ rest)

    buf : List ℕ
    buf = e t ++ after_type

    shape : wire t payload ++ rest ≡ buf
    shape =
        append_assoc (e t) (e (length payload) ++ payload) rest
        ∙ ap (λ more. e t ++ more) (append_assoc (e (length payload)) payload rest)

    whole : length (wire t payload) ≡ length (e t) + length (e (length payload)) + length payload
    whole = omega (
      arith,
      length-append (e t) (e (length payload) ++ payload),
      length-append (e (length payload)) payload,
    )

    fits : length (e t) + length (e (length payload)) + length payload ≤ length buf
    fits = omega (
      arith,
      length-append (e t) after_type,
      length-append (e (length payload)) (payload ++ rest),
      length-append payload rest,
    )

    skipped : drop (length (e t) + length (e (length payload))) buf ≡ payload ++ rest
    skipped =
        drop-add (length (e t)) (length (e (length payload))) buf
        ∙ ap (drop (length (e (length payload)))) (drop-append (e t) after_type)
        ∙ drop-append (e (length payload)) (payload ++ rest)

-- A well-formed HTTP/3 frame is encoded without a panic, and decoding what was written, with `rest`
-- behind it, gives the frame and the position after it, if the buffer fits `usize`.
pub decode-h3_to_bytes :
    (f : Frame) (rest : List ℕ)
    → WellFormed f
    → ((bs : List ℕ) → to_bytes f ≡ some bs → length (bs ++ rest) < 2 ^ 64)
    → (bs : List ℕ) × (to_bytes f ≡ some bs) × (decode (bs ++ rest) 0 ≡ ok (some f, length bs))
decode-h3_to_bytes f rest h fits =
    let w = frame-Written f h in
    let t = frame_type f in
    let written = to_bytes-wire f w.payload w.written w.typed w.small in
    (
      wire t w.payload,
      written,
      decode-wire t w.payload rest f w.typed w.small (fits (wire t w.payload) written) w.read,
    )
