-- ===== src/Quic/Frame/RoundTrip.antt =====
-- Frames: encode, then decode.
use courierust.Base.{
  ℕ, zero, suc, ◌+◌, ◌^◌, ◌<◌, List, [], ◌∷◌, ◌++◌, true, false, some, length, replicate, ◌≡◌, refl,
  arith,
}
use courierust.Base.Bytes.{as_u8}
use courierust.Error.{ok}
use mathlib.Core.Path.{subst}
use courierust.Quic.Frame.Reads.{Reads, Reads-pure, run_after}
use courierust.Quic.Frame.Encode.{frame_bytes, to_bytes}
use courierust.Quic.Frame.Decode.{decode, decode_padding}
use courierust.Quic.Frame.Arms.{crypto-Reads, new_token-Reads, new_connection_id-Reads}
use courierust.Quic.Frame.NumberArms.{
  e, encode-bytes, padding-Reads, eight_bytes-Reads, reset_stream-Reads,
}
use courierust.Quic.Frame.Transmits.{
  Transmits-ack, Transmits-stream, Transmits-close, Transmits-datagram,
}
use courierust.Quic.Frame.Forms.{WellFormed, Transmits, Transmits-one, Transmits-two}
use courierust.Quic.Frame.{
  Frame, padding, ping, ack, reset_stream, stop_sending, crypto, new_token, stream, max_data,
  max_stream_data, max_streams, data_blocked, stream_data_blocked, streams_blocked,
  new_connection_id, retire_connection_id, path_challenge, path_response, connection_close,
  handshake_done, datagram,
}

one-add : (n : ℕ) → 1 + n ≡ suc n
one-add n = omega arith

transmits :
    (f : Frame) (rest : List ℕ)
    → WellFormed f rest
    → (kind : ℕ) × (body : List ℕ) × Transmits f rest kind body
unfolding decode frame_bytes
transmits (padding zero) rest h = absurd (omega arith)
transmits (padding (suc n)) rest (_, h) = (
  0,
  replicate n 0,
  (
    refl,
    run_after 0 (
        subst (λ k. Reads decode_padding (replicate n 0) rest (padding k)) (one-add n)
          (padding-Reads n rest h)),
  ),
)
transmits ping rest h = (1, [], (refl, run_after 1 (Reads-pure ping rest)))
transmits (ack largest delay ranges ecn) rest h = Transmits-ack largest delay ranges ecn rest h
transmits (reset_stream a b c) rest (ha, hb, hc) = (
  0x04,
  e a ++ (e b ++ e c),
  (
    rw (encode-bytes a ha, encode-bytes b hb, encode-bytes c hc),
    run_after 0x04 (reset_stream-Reads a b c rest ha hb hc),
  ),
)
transmits (stop_sending a b) rest (ha, hb) =
    Transmits-two stop_sending 0x05 a b rest ha hb refl (λ buf. refl)
transmits (crypto offset bs) rest (ho, hb) = (
  0x06,
  e offset ++ (e (length bs) ++ bs),
  (
    rw (encode-bytes offset ho, encode-bytes (length bs) hb),
    run_after 0x06 (crypto-Reads offset bs rest ho hb),
  ),
)
transmits (new_token bs) rest h = (
  0x07,
  e (length bs) ++ bs,
  (rw (encode-bytes (length bs) h), run_after 0x07 (new_token-Reads bs rest h)),
)
transmits (stream id offset bs len fin) rest h = Transmits-stream id offset bs len fin rest h
transmits (max_data v) rest h = Transmits-one max_data 0x10 v rest h refl (λ buf. refl)
transmits (max_stream_data a b) rest (ha, hb) =
    Transmits-two max_stream_data 0x11 a b rest ha hb refl (λ buf. refl)
transmits (max_streams true v) rest h =
    Transmits-one (max_streams true) 0x13 v rest h refl (λ buf. refl)
transmits (max_streams false v) rest h =
    Transmits-one (max_streams false) 0x12 v rest h refl (λ buf. refl)
transmits (data_blocked v) rest h = Transmits-one data_blocked 0x14 v rest h refl (λ buf. refl)
transmits (stream_data_blocked a b) rest (ha, hb) =
    Transmits-two stream_data_blocked 0x15 a b rest ha hb refl (λ buf. refl)
transmits (streams_blocked true v) rest h =
    Transmits-one (streams_blocked true) 0x17 v rest h refl (λ buf. refl)
transmits (streams_blocked false v) rest h =
    Transmits-one (streams_blocked false) 0x16 v rest h refl (λ buf. refl)
transmits (new_connection_id sequence retire cid token) rest (hs, hr, hlo, hhi, ht) = (
  0x18,
  e sequence ++ (e retire ++ (as_u8 (length cid) ∷ (cid ++ token))),
  (
    rw (encode-bytes sequence hs, encode-bytes retire (omega arith)),
    run_after 0x18 (new_connection_id-Reads sequence retire cid token rest hs hr hlo hhi ht),
  ),
)
transmits (retire_connection_id v) rest h =
    Transmits-one retire_connection_id 0x19 v rest h refl (λ buf. refl)
transmits (path_challenge d) rest h =
    (0x1a, d, (refl, run_after 0x1a (eight_bytes-Reads path_challenge d rest h)))
transmits (path_response d) rest h =
    (0x1b, d, (refl, run_after 0x1b (eight_bytes-Reads path_response d rest h)))
transmits (connection_close code frame_type reason) rest h =
    Transmits-close code frame_type reason rest h
transmits handshake_done rest h =
    (0x1e, [], (refl, run_after 0x1e (Reads-pure handshake_done rest)))
transmits (datagram bs len) rest h = Transmits-datagram bs len rest h

-- A well-formed frame is encoded without a panic, and decoding what was written, with `rest` behind
-- it, gives the frame back and consumes exactly what was written, if the buffer fits `usize`.
pub decode-to_bytes :
    (f : Frame) (rest : List ℕ)
    → WellFormed f rest
    → ((bs : List ℕ) → to_bytes f ≡ some bs → length (bs ++ rest) < 2 ^ 64)
    → (bs : List ℕ) × (to_bytes f ≡ some bs) × (decode (bs ++ rest) ≡ ok (f, length bs))
unfolding to_bytes
decode-to_bytes f rest h fits =
    let (kind, body, t) = transmits f rest h in
    let written : to_bytes f ≡ some (kind ∷ body) = unfold to_bytes in rw t.0 in
    (kind ∷ body, written, t.1 (fits (kind ∷ body) written))
