-- ===== src/Quic/Frame/Transmits.antt =====
-- The arms of frames with more than one form: written, then read back.
use courierust.Base.{
  ℕ, suc, ◌-◌, List, [], ◌∷◌, ◌++◌, Bool, true, false, Option, none, some, length, ◌≡◌, refl, sym,
  ◌∙◌, arith, if◌then◌else◌,
}
use mathlib.Core.Path.{subst}
use courierust.Quic.Frame.Reads.{run_after}
use courierust.Quic.Frame.Encode.{is_some, stream_kind, frame_bytes}
use courierust.Quic.Frame.Decode.{
  decode, decode_ack, decode_stream, decode_connection_close, decode_datagram,
}
use courierust.Quic.Frame.Arms.{
  optional_wire, Delimits-Fits, stream-Reads, connection_close-Reads, datagram-Reads,
}
use courierust.Quic.Frame.NumberArms.{e, encode-bytes, ranges_wire, ecn_wire, ack-Reads}
use courierust.Quic.Frame.{ack, stream, connection_close, datagram}
use courierust.Quic.Frame.Forms.{
  WellFormed, Transmits, encode_ranges-wire, encode_ecn-wire, encode_optional-wire,
}

Transmits-ack_from :
    (largest delay first : ℕ) (ranges : List (ℕ × ℕ)) (ecn : Option (ℕ × ℕ × ℕ)) (rest : List ℕ)
    → WellFormed (ack largest delay ((0, first) ∷ ranges) ecn) rest
    → (k : ℕ) × (body : List ℕ) × Transmits
        (ack largest delay ((0, first) ∷ ranges) ecn)
        rest
        k
        body
unfolding frame_bytes
Transmits-ack_from largest delay first ranges ecn rest (hl, hd, (hg, hf, hn, hr), he) = (
  if is_some ecn then 0x03 else 0x02,
  e largest
      ++ (e delay ++ (e (length ranges) ++ (e first ++ (ranges_wire ranges ++ ecn_wire ecn)))),
  (
    rw (
      encode-bytes largest hl,
      encode-bytes delay hd,
      less,
      encode-bytes (length ranges) (omega arith),
      encode-bytes first (omega arith),
      encode_ranges-wire (largest - first) ranges (omega arith) hr,
      encode_ecn-wire ecn he,
    ),
    λ fits.
        arm ecn _
        ∙ run_after (if is_some ecn then 0x03 else 0x02)
            (ack-Reads largest delay first ranges ecn rest hl hd hn hf hr he) fits,
  ),
)
  where
    less : suc (length ranges) - 1 ≡ length ranges
    less = omega arith

    arm :
        (ecn : Option (ℕ × ℕ × ℕ)) (buf : List ℕ)
        → let k : ℕ = if is_some ecn then 0x03 else 0x02 in
          decode (k ∷ buf) ≡ decode_ack (is_some ecn) (k ∷ buf) 1
    arm none buf = unfold decode in refl
    arm (some x) buf = unfold decode in refl

pub Transmits-ack :
    (largest delay : ℕ) (ranges : List (ℕ × ℕ)) (ecn : Option (ℕ × ℕ × ℕ)) (rest : List ℕ)
    → WellFormed (ack largest delay ranges ecn) rest
    → (k : ℕ) × (body : List ℕ) × Transmits (ack largest delay ranges ecn) rest k body
Transmits-ack largest delay [] ecn rest h = absurd h.2
Transmits-ack largest delay ((gap, first) ∷ ranges) ecn rest (hl, hd, (hg, hf, hn, hr), he) =
    subst
      (λ g.
        (k : ℕ) × (body : List ℕ) × Transmits (ack largest delay ((g, first) ∷ ranges) ecn) rest k
          body)
      (sym hg)
      (Transmits-ack_from largest delay first ranges ecn rest (hl, hd, (refl, hf, hn, hr), he))

pub Transmits-stream :
    (id : ℕ) (offset : Option ℕ) (bs : List ℕ) (len : Option ℕ) (fin : Bool) (rest : List ℕ)
    → WellFormed (stream id offset bs len fin) rest
    → (k : ℕ) × (body : List ℕ) × Transmits (stream id offset bs len fin) rest k body
unfolding frame_bytes
Transmits-stream id offset bs len fin rest (hi, ho, hd) = (
  stream_kind fin (is_some offset) (is_some len),
  e id ++ (optional_wire offset ++ (optional_wire len ++ bs)),
  (
    rw (
      encode-bytes id hi,
      encode_optional-wire offset ho,
      encode_optional-wire len (Delimits-Fits len bs rest hd),
    ),
    λ fits.
        arm fin offset len _
        ∙ run_after (stream_kind fin (is_some offset) (is_some len))
            (stream-Reads id offset len bs rest fin hi ho hd) fits,
  ),
)
  where
    arm :
        (fin : Bool) (offset len : Option ℕ) (buf : List ℕ)
        → let k = stream_kind fin (is_some offset) (is_some len) in
          decode (k ∷ buf) ≡ decode_stream (is_some offset) (is_some len) fin (k ∷ buf) 1
    arm true (some o) (some l) buf = unfold decode in refl
    arm true (some o) none buf = unfold decode in refl
    arm true none (some l) buf = unfold decode in refl
    arm true none none buf = unfold decode in refl
    arm false (some o) (some l) buf = unfold decode in refl
    arm false (some o) none buf = unfold decode in refl
    arm false none (some l) buf = unfold decode in refl
    arm false none none buf = unfold decode in refl

pub Transmits-close :
    (code : ℕ) (frame_type : Option ℕ) (reason rest : List ℕ)
    → WellFormed (connection_close code frame_type reason) rest
    → (k : ℕ) × (body : List ℕ) × Transmits (connection_close code frame_type reason) rest k body
unfolding frame_bytes
Transmits-close code frame_type reason rest (hc, ht, hr) = (
  if is_some frame_type then 0x1c else 0x1d,
  e code ++ (optional_wire frame_type ++ (e (length reason) ++ reason)),
  (
    rw (encode-bytes code hc, encode_optional-wire frame_type ht, encode-bytes (length reason) hr),
    λ fits.
        arm frame_type _
        ∙ run_after (if is_some frame_type then 0x1c else 0x1d)
            (connection_close-Reads code frame_type reason rest hc ht hr) fits,
  ),
)
  where
    arm :
        (frame_type : Option ℕ) (buf : List ℕ)
        → let k : ℕ = if is_some frame_type then 0x1c else 0x1d in
          decode (k ∷ buf) ≡ decode_connection_close (is_some frame_type) (k ∷ buf) 1
    arm none buf = unfold decode in refl
    arm (some x) buf = unfold decode in refl

pub Transmits-datagram :
    (bs : List ℕ) (len : Option ℕ) (rest : List ℕ)
    → WellFormed (datagram bs len) rest
    → (k : ℕ) × (body : List ℕ) × Transmits (datagram bs len) rest k body
unfolding frame_bytes
Transmits-datagram bs len rest h = (
  if is_some len then 0x31 else 0x30,
  optional_wire len ++ bs,
  (
    rw (encode_optional-wire len (Delimits-Fits len bs rest h)),
    λ fits.
        arm len _
        ∙ run_after (if is_some len then 0x31 else 0x30) (datagram-Reads len bs rest h) fits,
  ),
)
  where
    arm :
        (len : Option ℕ) (buf : List ℕ)
        → let k : ℕ = if is_some len then 0x31 else 0x30 in
          decode (k ∷ buf) ≡ decode_datagram (is_some len) (k ∷ buf) 1
    arm none buf = unfold decode in refl
    arm (some x) buf = unfold decode in refl
