-- ===== src/Quic/Frame/Arms.antt =====
-- The arms of `Frame::decode` that read bytes, on the bytes of `Frame::encode`.
use courierust.Base.{
  ℕ, ◌≤◌, List, [], ◌∷◌, ◌++◌, Bool, not, ◌&&◌, Option, none, some, length, ltb, leb, ◌≡◌, refl,
  sym, ap, arith,
}
use courierust.Base.Bytes.{as_u8}
use courierust.Quic.Varint
use courierust.Quic.Frame.Cursor.{◌>>=◌, pure, optional_varint, bytes, remaining}
use mathlib.Core.List.{append-nil}
use mathlib.Core.Path.{subst}
use courierust.Quic.Frame.Reads.{
  Reads, Reads-pure, Reads-then, Reads-last, Reads-reject, Reads-varint, Reads-optional_varint,
  Reads-no_varint, Reads-bytes, Reads-byte, Reads-remaining,
}
use courierust.Quic.Frame.Encode.{is_some}
use courierust.Quic.Frame.Decode.{
  max_connection_id_len, decode_crypto, decode_new_token, data_len, decode_stream,
  decode_new_connection_id, decode_connection_close, decode_datagram, kept_length,
}
use courierust.Quic.Frame.{crypto, new_token, stream, new_connection_id, connection_close, datagram}
use courierust.Quic.Frame.NumberArms.{e}

pub crypto-Reads :
    (offset : ℕ) (bs rest : List ℕ)
    → offset ≤ Varint.max
    → length bs ≤ Varint.max
    → Reads decode_crypto (e offset ++ (e (length bs) ++ bs)) rest (crypto offset bs)
unfolding decode_crypto
crypto-Reads offset bs rest ho hb = Reads-then _ (Reads-varint offset _ ho) (
    Reads-then _ (Reads-varint (length bs) _ hb) (Reads-last (crypto offset) (Reads-bytes bs rest)))

pub new_token-Reads :
    (bs rest : List ℕ)
    → length bs ≤ Varint.max
    → Reads decode_new_token (e (length bs) ++ bs) rest (new_token bs)
unfolding decode_new_token
new_token-Reads bs rest hb =
    Reads-then _ (Reads-varint (length bs) _ hb) (Reads-last new_token (Reads-bytes bs rest))

-- An optional number that is there fits a varint.
abbrev pub Fits : Option ℕ → Type 0
Fits none = Unit
Fits (some v) = v ≤ Varint.max

abbrev pub optional_wire : Option ℕ → List ℕ
optional_wire none = []
optional_wire (some v) = e v

pub optional-Reads :
    (o : Option ℕ) (rest : List ℕ)
    → Fits o
    → Reads (optional_varint (is_some o)) (optional_wire o) rest o
optional-Reads none rest h = Reads-no_varint rest
optional-Reads (some v) rest h = Reads-optional_varint v rest h

-- A length that is written is that of the payload; without one the payload ends the buffer.
abbrev pub Delimits : Option ℕ → List ℕ → List ℕ → Type 0
Delimits none bs rest = rest ≡ []
Delimits (some n) bs rest = (n ≡ length bs) × (n ≤ Varint.max)

pub Delimits-Fits : (o : Option ℕ) (bs rest : List ℕ) → Delimits o bs rest → Fits o
Delimits-Fits none bs rest h = tt
Delimits-Fits (some n) bs rest h = h.1

all_remaining : (bs rest : List ℕ) → rest ≡ [] → Reads remaining [] (bs ++ rest) (length bs)
all_remaining bs rest h = rw (h, append-nil) (Reads-remaining bs)

pub payload-Reads :
    {B : Type 0} (len : Option ℕ) (make : ℕ → List ℕ → B) (bs rest : List ℕ)
    → Delimits len bs rest
    → Reads (data_len len >>= λ n. bytes n >>= λ d. pure (make n d)) bs rest (make (length bs) bs)
unfolding data_len
payload-Reads none make bs rest h =
    Reads-then (λ n. bytes n >>= λ d. pure (make n d)) (all_remaining bs rest h)
      (Reads-last (make (length bs)) (Reads-bytes bs rest))
payload-Reads (some n) make bs rest (h, _) = rw h (
    Reads-then (λ n. bytes n >>= λ d. pure (make n d)) (Reads-pure (length bs) _)
      (Reads-last (make (length bs)) (Reads-bytes bs rest)))

pub stream-Reads :
    (id : ℕ) (offset len : Option ℕ) (bs rest : List ℕ) (fin : Bool)
    → id ≤ Varint.max
    → Fits offset
    → Delimits len bs rest
    → Reads
        (decode_stream (is_some offset) (is_some len) fin)
        (e id ++ (optional_wire offset ++ (optional_wire len ++ bs)))
        rest
        (stream id offset bs len fin)
unfolding decode_stream
stream-Reads id offset len bs rest fin hi ho hd = Reads-then _ (Reads-varint id _ hi) (
    Reads-then _ (optional-Reads offset _ ho) (
      Reads-then _ (optional-Reads len _ (Delimits-Fits len bs rest hd))
        (payload-Reads len (λ n d. stream id offset d len fin) bs rest hd)))

pub new_connection_id-Reads :
    (sequence retire : ℕ) (cid token rest : List ℕ)
    → sequence ≤ Varint.max
    → retire ≤ sequence
    → 1 ≤ length cid
    → length cid ≤ max_connection_id_len
    → length token ≡ 16
    → Reads decode_new_connection_id
        (e sequence ++ (e retire ++ (as_u8 (length cid) ∷ (cid ++ token))))
        rest
        (new_connection_id sequence retire cid token)
unfolding decode_new_connection_id
new_connection_id-Reads sequence retire cid token rest hs hr hlo hhi ht =
    Reads-then _ (Reads-varint sequence _ hs) (
      Reads-then _ (Reads-varint retire _ (omega arith)) (
        Reads-reject (ltb sequence retire) _ (ground arith) (
          rw small (
            Reads-then _ (Reads-byte (length cid) (cid ++ token ++ rest)) (
              Reads-reject (not (leb 1 (length cid) && leb (length cid) max_connection_id_len)) _
                (ground arith)
                (Reads-then _ (Reads-bytes cid _)
                  (Reads-last (new_connection_id sequence retire cid) sixteen)))))))
  where
    small : as_u8 (length cid) ≡ length cid
    small = omega arith

    sixteen : Reads (bytes 16) token rest token
    sixteen = subst (λ n. Reads (bytes n) token rest token) ht (Reads-bytes token rest)

pub connection_close-Reads :
    (code : ℕ) (frame_type : Option ℕ) (reason rest : List ℕ)
    → code ≤ Varint.max
    → Fits frame_type
    → length reason ≤ Varint.max
    → Reads
        (decode_connection_close (is_some frame_type))
        (e code ++ (optional_wire frame_type ++ (e (length reason) ++ reason)))
        rest
        (connection_close code frame_type reason)
unfolding decode_connection_close
connection_close-Reads code frame_type reason rest hc ht hr =
    Reads-then _ (Reads-varint code _ hc) (
      Reads-then _ (optional-Reads frame_type _ ht) (
        Reads-then _ (Reads-varint (length reason) _ hr)
          (Reads-last (connection_close code frame_type) (Reads-bytes reason rest))))

pub kept-length :
    (len : Option ℕ) (bs rest : List ℕ)
    → Delimits len bs rest
    → kept_length (is_some len) (length bs) ≡ len
kept-length none bs rest h = refl
kept-length (some n) bs rest h = ap some (sym h.0)

pub datagram-Reads :
    (len : Option ℕ) (bs rest : List ℕ)
    → Delimits len bs rest
    → Reads (decode_datagram (is_some len)) (optional_wire len ++ bs) rest (datagram bs len)
unfolding decode_datagram
datagram-Reads len bs rest h =
    let made : datagram bs (kept_length (is_some len) (length bs)) ≡ datagram bs len =
      ap (datagram bs) (kept-length len bs rest h) in
    subst (λ f. Reads (decode_datagram (is_some len)) (optional_wire len ++ bs) rest f) made
      (Reads-then _ (optional-Reads len _ (Delimits-Fits len bs rest h))
        (payload-Reads len (λ n d. datagram d (kept_length (is_some len) n)) bs rest h))
