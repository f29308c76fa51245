-- ===== src/Quic/Frame/NumberArms.antt =====
-- The arms of `Frame::decode` that read numbers, on the bytes of `Frame::encode`.
use courierust.Base.{
  ℕ, ◌+◌, ◌-◌, ◌^◌, ◌≤◌, List, [], ◌∷◌, ◌++◌, Option, none, some, length, replicate, ltb, leb, ◌≡◌,
  arith,
}
use courierust.Quic.Varint
use courierust.Quic.Frame.Cursor.{zeros, bytes}
use mathlib.Core.Path.{subst}
use courierust.Quic.Frame.Reads.{
  Reads, Reads-pure, Reads-then, Reads-last, Reads-reject, Reads-varint, Reads-bytes,
  Reads-zero_run,
}
use courierust.Quic.Frame.Encode.{is_some}
use courierust.Quic.Frame.Decode.{
  max_ack_ranges, decode_padding, decode_ranges, decode_ecn, decode_ack, decode_reset_stream,
  one_number, two_numbers, eight_bytes,
}
use courierust.Quic.Frame.{Frame, padding, ack, reset_stream}

abbrev pub e : ℕ → List ℕ
e = Varint.encode_bytes

pub encode-bytes : (v : ℕ) → v ≤ Varint.max → Varint.encode v ≡ some (e v)
unfolding Varint.encode
encode-bytes v h = ground arith

pub padding-Reads :
    (n : ℕ) (rest : List ℕ)
    → zeros rest ≡ 0
    → Reads decode_padding (replicate n 0) rest (padding (1 + n))
unfolding decode_padding
padding-Reads n rest h = Reads-last (λ k. padding (1 + k)) (Reads-zero_run n rest h)

pub one_number-Reads :
    (make : ℕ → Frame) (v : ℕ) (rest : List ℕ)
    → v ≤ Varint.max
    → Reads (one_number make) (e v) rest (make v)
one_number-Reads make v rest h = Reads-last make (Reads-varint v rest h)

pub two_numbers-Reads :
    (make : ℕ → ℕ → Frame) (v w : ℕ) (rest : List ℕ)
    → v ≤ Varint.max
    → w ≤ Varint.max
    → Reads (two_numbers make) (e v ++ e w) rest (make v w)
two_numbers-Reads make v w rest hv hw =
    Reads-then _ (Reads-varint v _ hv) (Reads-last (make v) (Reads-varint w rest hw))

pub eight_bytes-Reads :
    (make : List ℕ → Frame) (d rest : List ℕ)
    → length d ≡ 8
    → Reads (eight_bytes make) d rest (make d)
eight_bytes-Reads make d rest h =
    Reads-last make (subst (λ n. Reads (bytes n) d rest d) h (Reads-bytes d rest))

pub reset_stream-Reads :
    (a b c : ℕ) (rest : List ℕ)
    → a ≤ Varint.max
    → b ≤ Varint.max
    → c ≤ Varint.max
    → Reads decode_reset_stream (e a ++ (e b ++ e c)) rest (reset_stream a b c)
unfolding decode_reset_stream
reset_stream-Reads a b c rest ha hb hc =
    Reads-then _ (Reads-varint a _ ha)
      (Reads-then _ (Reads-varint b _ hb) (Reads-last (reset_stream a b) (Reads-varint c _ hc)))

-- The ranges below `previous_low` that the decoder accepts.
abbrev pub RangesBelow : ℕ → List (ℕ × ℕ) → Type 0
RangesBelow low [] = Unit
RangesBelow low ((gap, len) ∷ ranges) =
    (gap + 2 ≤ low) × (len ≤ low - (gap + 2)) × RangesBelow (low - (gap + 2) - len) ranges

abbrev pub ranges_wire : List (ℕ × ℕ) → List ℕ
ranges_wire [] = []
ranges_wire ((gap, len) ∷ ranges) = e gap ++ (e len ++ ranges_wire ranges)

ranges-Reads :
    (low : ℕ) (ranges : List (ℕ × ℕ)) (rest : List ℕ)
    → low ≤ Varint.max
    → RangesBelow low ranges
    → Reads (decode_ranges (length ranges) low) (ranges_wire ranges) rest ranges
unfolding decode_ranges
ranges-Reads low [] rest hl h = Reads-pure [] rest
ranges-Reads low ((gap, len) ∷ ranges) rest hl (hg, hn, h) =
    Reads-then _ (Reads-varint gap _ (omega arith)) (
      Reads-then _ (Reads-varint len _ (omega arith)) (
        Reads-reject (leb (2 ^ 64) (gap + 2)) _ (ground arith) (
          Reads-reject (ltb low (gap + 2)) _ (ground arith) (
            Reads-reject (ltb (low - (gap + 2)) len) _ (ground arith) (
              Reads-last (λ rs. (gap, len) ∷ rs)
                (ranges-Reads (low - (gap + 2) - len) ranges rest (omega arith) h))))))

abbrev pub EcnFits : Option (ℕ × ℕ × ℕ) → Type 0
EcnFits none = Unit
EcnFits (some (ce, ect0, ect1)) = (ce ≤ Varint.max) × (ect0 ≤ Varint.max) × (ect1 ≤ Varint.max)

abbrev pub ecn_wire : Option (ℕ × ℕ × ℕ) → List ℕ
ecn_wire none = []
ecn_wire (some (ce, ect0, ect1)) = e ce ++ (e ect0 ++ e ect1)

ecn-Reads :
    (ecn : Option (ℕ × ℕ × ℕ)) (rest : List ℕ)
    → EcnFits ecn
    → Reads (decode_ecn (is_some ecn)) (ecn_wire ecn) rest ecn
unfolding decode_ecn
ecn-Reads none rest h = Reads-pure none rest
ecn-Reads (some (ce, ect0, ect1)) rest (ha, hb, hc) = Reads-then _ (Reads-varint ce _ ha) (
    Reads-then _ (Reads-varint ect0 _ hb)
      (Reads-last (λ x. some (ce, ect0, x)) (Reads-varint ect1 _ hc)))

pub ack-Reads :
    (largest delay first : ℕ) (ranges : List (ℕ × ℕ)) (ecn : Option (ℕ × ℕ × ℕ)) (rest : List ℕ)
    → largest ≤ Varint.max
    → delay ≤ Varint.max
    → length ranges ≤ max_ack_ranges
    → first ≤ largest
    → RangesBelow (largest - first) ranges
    → EcnFits ecn
    → Reads
        (decode_ack (is_some ecn))
        (e largest
          ++ (e delay ++ (e (length ranges) ++ (e first ++ (ranges_wire ranges ++ ecn_wire ecn)))))
        rest
        (ack largest delay ((0, first) ∷ ranges) ecn)
unfolding decode_ack
ack-Reads largest delay first ranges ecn rest hl hd hn hf hr he =
    Reads-then _ (Reads-varint largest _ hl) (
      Reads-then _ (Reads-varint delay _ hd) (
        Reads-then _ (Reads-varint (length ranges) _ (omega arith)) (
          Reads-reject (ltb max_ack_ranges (length ranges)) _ (ground arith) (
            Reads-then _ (Reads-varint first _ (omega arith)) (
              Reads-reject (ltb largest first) _ (ground arith) (
                Reads-then _ (ranges-Reads (largest - first) ranges _ (omega arith) hr) (
                  Reads-last (ack largest delay ((0, first) ∷ ranges))
                    (ecn-Reads ecn rest he))))))))
