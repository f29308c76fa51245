-- ===== src/Quic/Frame/Forms.antt =====
-- What a well-formed frame is, and what it means that it is written and read back.
use courierust.Base.{
  ℕ, ◌+◌, ◌-◌, ◌^◌, ◌≤◌, ◌<◌, List, [], ◌∷◌, ◌++◌, Option, none, some, length, ◌≡◌, refl, ◌∙◌,
  arith,
}
use courierust.Error.{ok}
use courierust.Quic.Varint
use courierust.Quic.Frame.Cursor.{zeros}
use courierust.Quic.Frame.Reads.{run_after}
use courierust.Quic.Frame.Encode.{
  encode_ranges, encode_ecn, frame_bytes, encode_optional, one_varint, two_varints,
}
use courierust.Quic.Frame.Decode.{
  max_ack_ranges, max_connection_id_len, decode, one_number, two_numbers,
}
use courierust.Quic.Frame.Arms.{Fits, optional_wire, Delimits}
use courierust.Quic.Frame.NumberArms.{
  e, encode-bytes, RangesBelow, ranges_wire, EcnFits, ecn_wire, one_number-Reads, two_numbers-Reads,
}
use courierust.Quic.Frame.{
  Frame, padding, ping, ack, reset_stream, stop_sending, crypto, new_token, stream, max_data,
  max_stream_data, max_streams, data_blocked, stream_data_blocked, streams_blocked,
  new_connection_id, retire_connection_id, path_challenge, path_response, connection_close,
  handshake_done, datagram,
}

-- Acknowledged ranges in the form that the decoder returns: a first range with no gap before it.
abbrev AckRanges : ℕ → List (ℕ × ℕ) → Type 0
AckRanges largest [] = ⊥
AckRanges largest ((gap, first) ∷ ranges) =
    (gap ≡ 0)
    × (first ≤ largest)
    × (length ranges ≤ max_ack_ranges)
    × RangesBelow (largest - first) ranges

-- The frames that RFC 9000 allows, before `rest`: padding is followed by no further padding, and a
-- frame with no length of its own by nothing.
abbrev pub WellFormed : Frame → List ℕ → Type 0
WellFormed (padding n) rest = (1 ≤ n) × (zeros rest ≡ 0)
WellFormed ping rest = Unit
WellFormed (ack largest delay ranges ecn) rest =
    (largest ≤ Varint.max) × (delay ≤ Varint.max) × AckRanges largest ranges × EcnFits ecn
WellFormed (reset_stream a b c) rest = (a ≤ Varint.max) × (b ≤ Varint.max) × (c ≤ Varint.max)
WellFormed (stop_sending a b) rest = (a ≤ Varint.max) × (b ≤ Varint.max)
WellFormed (crypto offset bs) rest = (offset ≤ Varint.max) × (length bs ≤ Varint.max)
WellFormed (new_token bs) rest = length bs ≤ Varint.max
WellFormed (stream id offset bs len fin) rest =
    (id ≤ Varint.max) × Fits offset × Delimits len bs rest
WellFormed (max_data v) rest = v ≤ Varint.max
WellFormed (max_stream_data a b) rest = (a ≤ Varint.max) × (b ≤ Varint.max)
WellFormed (max_streams u v) rest = v ≤ Varint.max
WellFormed (data_blocked v) rest = v ≤ Varint.max
WellFormed (stream_data_blocked a b) rest = (a ≤ Varint.max) × (b ≤ Varint.max)
WellFormed (streams_blocked u v) rest = v ≤ Varint.max
WellFormed (new_connection_id sequence retire cid token) rest =
    (sequence ≤ Varint.max)
    × (retire ≤ sequence)
    × (1 ≤ length cid)
    × (length cid ≤ max_connection_id_len)
    × (length token ≡ 16)
WellFormed (retire_connection_id v) rest = v ≤ Varint.max
WellFormed (path_challenge d) rest = length d ≡ 8
WellFormed (path_response d) rest = length d ≡ 8
WellFormed (connection_close code frame_type reason) rest =
    (code ≤ Varint.max) × Fits frame_type × (length reason ≤ Varint.max)
WellFormed handshake_done rest = Unit
WellFormed (datagram bs len) rest = Delimits len bs rest

-- A frame is written as a type byte and a body, which are read back together.
abbrev pub Transmits : Frame → List ℕ → ℕ → List ℕ → Type 0
Transmits f rest kind body =
    (frame_bytes f ≡ some (kind ∷ body))
    × (length (kind ∷ (body ++ rest)) < 2 ^ 64
        → decode (kind ∷ (body ++ rest)) ≡ ok (f, length (kind ∷ body)))

-- The shapes that several frames share.
pub Transmits-one :
    (make : ℕ → Frame) (kind v : ℕ) (rest : List ℕ)
    → v ≤ Varint.max
    → frame_bytes (make v) ≡ one_varint kind v
    → ((buf : List ℕ) → decode (kind ∷ buf) ≡ one_number make (kind ∷ buf) 1)
    → (k : ℕ) × (body : List ℕ) × Transmits (make v) rest k body
Transmits-one make kind v rest h written arm = (
  kind,
  e v,
  (
    written ∙ rw (encode-bytes v h),
    λ fits. arm (e v ++ rest) ∙ run_after kind (one_number-Reads make v rest h) fits,
  ),
)

pub Transmits-two :
    (make : ℕ → ℕ → Frame) (kind v w : ℕ) (rest : List ℕ)
    → v ≤ Varint.max
    → w ≤ Varint.max
    → frame_bytes (make v w) ≡ two_varints kind v w
    → ((buf : List ℕ) → decode (kind ∷ buf) ≡ two_numbers make (kind ∷ buf) 1)
    → (k : ℕ) × (body : List ℕ) × Transmits (make v w) rest k body
Transmits-two make kind v w rest hv hw written arm = (
  kind,
  e v ++ e w,
  (
    written ∙ rw (encode-bytes v hv, encode-bytes w hw),
    λ fits.
        arm ((e v ++ e w) ++ rest) ∙ run_after kind (two_numbers-Reads make v w rest hv hw) fits,
  ),
)

pub encode_ranges-wire :
    (low : ℕ) (ranges : List (ℕ × ℕ))
    → low ≤ Varint.max
    → RangesBelow low ranges
    → encode_ranges ranges ≡ some (ranges_wire ranges)
unfolding encode_ranges
encode_ranges-wire low [] hl h = refl
encode_ranges-wire low ((gap, len) ∷ ranges) hl (hg, hn, h) = rw (
  encode-bytes gap (omega arith),
  encode-bytes len (omega arith),
  encode_ranges-wire (low - (gap + 2) - len) ranges (omega arith) h,
)

pub encode_ecn-wire :
    (ecn : Option (ℕ × ℕ × ℕ)) → EcnFits ecn → encode_ecn ecn ≡ some (ecn_wire ecn)
unfolding encode_ecn
encode_ecn-wire none h = refl
encode_ecn-wire (some (a, b, c)) (ha, hb, hc) =
    rw (encode-bytes a ha, encode-bytes b hb, encode-bytes c hc)

pub encode_optional-wire : (o : Option ℕ) → Fits o → encode_optional o ≡ some (optional_wire o)
encode_optional-wire none h = refl
encode_optional-wire (some v) h = encode-bytes v h
