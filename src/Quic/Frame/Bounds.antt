-- ===== src/Quic/Frame/Bounds.antt =====
-- What `Frame::decode` consumes, an arm at a time.
use courierust.Base.{
  ℕ, zero, suc, ◌+◌, ◌-◌, ◌^◌, ◌≤◌, List, [], ◌∷◌, Bool, true, false, Option, none, some, length,
  All, ltb, leb, ◌≡◌, arith, ◌==◌, ◌||◌, ◌&&◌, not,
}
use courierust.Base.Bytes.{IsByte}
use courierust.Error.{ok, err, ErrorKind, protocol, overflow}
use courierust.Quic.Frame.Decode.{
  decode_padding, decode_ranges, decode_ecn, decode_ack, decode_reset_stream, decode_crypto,
  decode_new_token, data_len, decode_stream, decode_new_connection_id, decode_connection_close,
  decode_datagram, kept_length, one_number, two_numbers, eight_bytes, decode_from, decode,
  decode_from_10, decode_from_1a, max_ack_ranges, max_connection_id_len,
}
use courierust.Quic.Frame.{
  Frame, padding, ping, ack, reset_stream, stop_sending, crypto, new_token, stream, max_data,
  max_stream_data, max_streams, data_blocked, stream_data_blocked, streams_blocked,
  new_connection_id, retire_connection_id, path_challenge, path_response, connection_close,
  handshake_done, datagram,
}
use courierust.Quic.Frame.Moves.{
  Moves, Moves-pure, Moves-then, Moves-reject, Moves-if, Moves-varint, Moves-optional_varint,
  Moves-bytes, Moves-byte, Moves-remaining, Moves-zero_run,
}

Moves-ranges : (count low : ℕ) → Moves (decode_ranges count low)
unfolding decode_ranges
Moves-ranges zero low = Moves-pure []
Moves-ranges (suc count) low = Moves-then _ Moves-varint λ gap. Moves-then _ Moves-varint λ len.
    let next = low - (gap + 2) in
    Moves-reject (leb (2 ^ 64) (gap + 2)) protocol (
      Moves-reject (ltb low (gap + 2)) protocol (
        Moves-reject (ltb next len) protocol
          (Moves-then _ (Moves-ranges count (next - len)) λ rs. Moves-pure ((gap, len) ∷ rs))))

Moves-ecn : (b : Bool) → Moves (decode_ecn b)
unfolding decode_ecn
Moves-ecn false = Moves-pure none
Moves-ecn true = Moves-then _ Moves-varint λ ce.
    Moves-then _ Moves-varint
      λ ect0. Moves-then _ Moves-varint λ ect1. Moves-pure (some (ce, ect0, ect1))

Moves-ack : (b : Bool) → Moves (decode_ack b)
unfolding decode_ack
Moves-ack b = Moves-then _ Moves-varint λ largest. Moves-then _ Moves-varint λ delay.
    Moves-then _ Moves-varint λ count. Moves-reject (ltb max_ack_ranges count) overflow (
      Moves-then _ Moves-varint λ first. Moves-reject (ltb largest first) protocol (
        Moves-then _ (Moves-ranges count (largest - first)) λ rs.
          Moves-then _ (Moves-ecn b) λ ecn. Moves-pure (ack largest delay ((0, first) ∷ rs) ecn)))

Moves-one : (make : ℕ → Frame) → Moves (one_number make)
Moves-one make = Moves-then _ Moves-varint λ v. Moves-pure (make v)

Moves-two : (make : ℕ → ℕ → Frame) → Moves (two_numbers make)
Moves-two make = Moves-then _ Moves-varint λ v. Moves-then _ Moves-varint λ w. Moves-pure (make v w)

Moves-eight : (make : List ℕ → Frame) → Moves (eight_bytes make)
Moves-eight make = Moves-then _ (Moves-bytes 8) λ d. Moves-pure (make d)

Moves-data_len : (len : Option ℕ) → Moves (data_len len)
unfolding data_len
Moves-data_len none = Moves-remaining
Moves-data_len (some n) = Moves-pure n

Moves-padding : Moves decode_padding
unfolding decode_padding
Moves-padding = Moves-then _ Moves-zero_run λ n. Moves-pure (padding (1 + n))

Moves-reset_stream : Moves decode_reset_stream
unfolding decode_reset_stream
Moves-reset_stream = Moves-then _ Moves-varint λ a.
    Moves-then _ Moves-varint λ b. Moves-then _ Moves-varint λ c. Moves-pure (reset_stream a b c)

Moves-crypto : Moves decode_crypto
unfolding decode_crypto
Moves-crypto = Moves-then _ Moves-varint λ offset.
    Moves-then _ Moves-varint
      λ len. Moves-then _ (Moves-bytes len) λ bs. Moves-pure (crypto offset bs)

Moves-new_token : Moves decode_new_token
unfolding decode_new_token
Moves-new_token =
    Moves-then _ Moves-varint λ len. Moves-then _ (Moves-bytes len) λ bs. Moves-pure (new_token bs)

Moves-stream : (o l f : Bool) → Moves (decode_stream o l f)
unfolding decode_stream
Moves-stream o l f = Moves-then _ Moves-varint λ id.
    Moves-then _ (Moves-optional_varint o) λ offset. Moves-then _ (Moves-optional_varint l) λ len.
      Moves-then _ (Moves-data_len len)
        λ n. Moves-then _ (Moves-bytes n) λ bs. Moves-pure (stream id offset bs len f)

Moves-new_connection_id : Moves decode_new_connection_id
unfolding decode_new_connection_id
Moves-new_connection_id = Moves-then _ Moves-varint λ sequence. Moves-then _ Moves-varint λ retire.
    Moves-reject (ltb sequence retire) protocol (
      Moves-then _ Moves-byte λ n.
        Moves-reject (not (leb 1 n && leb n max_connection_id_len)) protocol (
          Moves-then _ (Moves-bytes n) λ cid.
            Moves-then _ (Moves-bytes 16)
              λ token. Moves-pure (new_connection_id sequence retire cid token)))

Moves-connection_close : (b : Bool) → Moves (decode_connection_close b)
unfolding decode_connection_close
Moves-connection_close b = Moves-then _ Moves-varint λ code.
    Moves-then _ (Moves-optional_varint b) λ ft.
      Moves-then _ Moves-varint
        λ n. Moves-then _ (Moves-bytes n) λ reason. Moves-pure (connection_close code ft reason)

Moves-datagram : (b : Bool) → Moves (decode_datagram b)
unfolding decode_datagram
Moves-datagram b = Moves-then _ (Moves-optional_varint b) λ len.
    Moves-then _ (Moves-data_len len)
      λ n. Moves-then _ (Moves-bytes n) λ bs. Moves-pure (datagram bs (kept_length b n))

Moves-unknown : {A : Type 0} (x : ErrorKind) → Moves {A = A} (λ buf pos. err x)
Moves-unknown x = record { run = λ buf pos b pos' hb hp e. cc }

Moves-from_1a : (k : ℕ) → Moves (decode_from_1a k)
unfolding decode_from_1a
Moves-from_1a k = Moves-if (k == 0x1a) (Moves-eight path_challenge) (
    Moves-if (k == 0x1b) (Moves-eight path_response) (
      Moves-if (k == 0x1c || k == 0x1d) (Moves-connection_close (k == 0x1c)) (
        Moves-if (k == 0x1e) (Moves-pure handshake_done) (
          Moves-if (k == 0x30 || k == 0x31) (Moves-datagram (k == 0x31))
            (Moves-unknown protocol)))))

Moves-from_10 : (k : ℕ) → Moves (decode_from_10 k)
unfolding decode_from_10
Moves-from_10 k = Moves-if (k == 0x10) (Moves-one max_data) (
    Moves-if (k == 0x11) (Moves-two max_stream_data) (
      Moves-if (k == 0x12 || k == 0x13) (Moves-one (max_streams (k == 0x13))) (
        Moves-if (k == 0x14) (Moves-one data_blocked) (
          Moves-if (k == 0x15) (Moves-two stream_data_blocked) (
            Moves-if (k == 0x16 || k == 0x17) (Moves-one (streams_blocked (k == 0x17))) (
              Moves-if (k == 0x18) Moves-new_connection_id
                (Moves-if (k == 0x19) (Moves-one retire_connection_id) (Moves-from_1a k))))))))

Moves-from : (k : ℕ) → Moves (decode_from k)
unfolding decode_from
Moves-from k = Moves-if (k == 0x00) Moves-padding (
    Moves-if (k == 0x01) (Moves-pure ping) (
      Moves-if (k == 0x02 || k == 0x03) (Moves-ack (k == 0x03)) (
        Moves-if (k == 0x04) Moves-reset_stream (
          Moves-if (k == 0x05) (Moves-two stop_sending) (
            Moves-if (k == 0x06) Moves-crypto (
              Moves-if (k == 0x07) Moves-new_token
                (Moves-if (leb 0x08 k && leb k 0x0f) (Moves-stream _ _ _) (Moves-from_10 k))))))))

-- A decoded frame took the type byte at least, and no byte behind the buffer.
pub decode_consumes :
    (buf : List ℕ) (f : Frame) (n : ℕ)
    → All IsByte buf
    → decode buf ≡ ok (f, n)
    → (1 ≤ n) × (n ≤ length buf)
unfolding decode
decode_consumes [] f n hb e = cc
decode_consumes (b ∷ rest) f n hb e = (Moves-from b).run (b ∷ rest) 1 f n hb (omega arith) e
