-- ===== src/H2/Frame/SimpleArms.antt =====
-- The arms of `Frame::parse` without a priority, on the payloads of `Frame::encode`.
use courierust.Base.{
  ℕ, ◌*◌, ◌/◌, ◌%◌, ◌^◌, ◌≤◌, ◌<◌, ◌≡◌, ◌≢◌, refl, arith, List, [], ◌∷◌, ◌++◌, Bool, true, false,
  length, ◌==◌, take_all, if◌then◌else◌,
}
use courierust.Base.Bytes.{as_u8, u32_to_be_bytes, u32_from_be_bytes_lem, u16_from_be_bytes}
use courierust.Error.{ok}
use courierust.H2.ErrorCode.{ErrorCode, no_error, as_u32, as_u32-le}
use courierust.H2.Settings.{Setting, entries_to_wire}
use courierust.H2.Frame.Framing.{stream_id_of-bytes}
use courierust.H2.Frame.Header.{flag_end_stream}
use courierust.H2.Frame.Parse.{parse_kind, word_at, entries_of, code_or_no_error}
use courierust.H2.Frame.Encode.{set_if}
use courierust.H2.Frame.{
  FrameHeader, data_frame, rst_stream, settings, push_promise, ping, go_away, window_update,
  continuation, priority_update, unknown,
}

-- The frame header that `encode` writes.
abbrev pub header_for : ℕ → ℕ → ℕ → List ℕ → FrameHeader
header_for k fl sid payload = record { len = length payload; kind = k; flags = fl; stream_id = sid }

pub data_parses :
    (sid : ℕ) (body : List ℕ) (es : Bool)
    → 0 < sid
    → parse_kind (header_for 0 (set_if es 0 flag_end_stream) sid body) body
      ≡ ok (data_frame sid body es 0)
unfolding parse_kind
data_parses sid body true h = ground arith
data_parses sid body false h = ground arith

pub continuation_parses :
    (sid : ℕ) (block : List ℕ) (eh : Bool)
    → 0 < sid
    → parse_kind (header_for 9 (if eh then 4 else 0) sid block) block
      ≡ ok (continuation sid eh block)
unfolding parse_kind
continuation_parses sid block true h = ground arith
continuation_parses sid block false h = ground arith

pub window_update_parses :
    (sid inc : ℕ)
    → 0 < inc
    → inc < 2 ^ 31
    → parse_kind (header_for 8 0 sid (u32_to_be_bytes inc)) (u32_to_be_bytes inc)
      ≡ ok (window_update sid inc)
unfolding parse_kind
window_update_parses sid inc h k = rw (stream_id_of-bytes inc [] k) (ground arith)

code-as_u32 : (c : ErrorCode) → code_or_no_error (as_u32 c) ≡ c
unfolding code_or_no_error
code-as_u32 no_error = refl
code-as_u32 _ = refl

word : (v : ℕ) (rest : List ℕ) → v < 2 ^ 32 → word_at (u32_to_be_bytes v ++ rest) 0 ≡ v
word v rest h = u32_from_be_bytes_lem v h

pub rst_stream_parses :
    (sid : ℕ) (c : ErrorCode)
    → 0 < sid
    → parse_kind (header_for 3 0 sid (u32_to_be_bytes (as_u32 c))) (u32_to_be_bytes (as_u32 c))
      ≡ ok (rst_stream sid c)
unfolding parse_kind
rst_stream_parses sid c h =
    rw (word (as_u32 c) [] (omega (arith, as_u32-le c)), code-as_u32 c) (ground arith)

-- The entries that 16 and 32 bits hold.
abbrev pub EntriesFit : List Setting → Type 0
EntriesFit [] = Unit
EntriesFit (s ∷ ss) = (s.id < 2 ^ 16) × (s.value < 2 ^ 32) × EntriesFit ss

entries_of-wire : (ss : List Setting) → EntriesFit ss → entries_of (entries_to_wire ss) ≡ ss
entries_of-wire [] h = refl
entries_of-wire (s ∷ ss) (hi, hv, h) = λ i.
    record { id = number i; value = u32_from_be_bytes_lem s.value hv i } ∷ entries_of-wire ss h i
  where
    number : u16_from_be_bytes (as_u8 (s.id / 256)) (as_u8 s.id) ≡ s.id
    number = omega arith

length-wire : (ss : List Setting) → length (entries_to_wire ss) ≡ 6 * length ss
length-wire [] = omega arith
length-wire (s ∷ ss) = omega (arith, length-wire ss)

pub settings_parses :
    (ss : List Setting)
    → EntriesFit ss
    → parse_kind (header_for 4 0 0 (entries_to_wire ss)) (entries_to_wire ss)
      ≡ ok (settings false ss)
unfolding parse_kind
settings_parses ss h = rw (whole, entries_of-wire ss h)
  where
    whole : (length (entries_to_wire ss) % 6 == 0) ≡ true
    whole = ground (arith, length-wire ss)

pub push_promise_parses :
    (sid promised : ℕ) (block : List ℕ) (eh : Bool)
    → 0 < sid
    → promised < 2 ^ 31
    → parse_kind
        (header_for 5 (if eh then 4 else 0) sid (u32_to_be_bytes promised ++ block))
        (u32_to_be_bytes promised ++ block)
      ≡ ok (push_promise sid promised block eh)
unfolding parse_kind
push_promise_parses sid promised block true h k =
    rw (stream_id_of-bytes promised block k) (ground (arith, take_all block))
push_promise_parses sid promised block false h k =
    rw (stream_id_of-bytes promised block k) (ground (arith, take_all block))

pub ping_parses :
    (bytes : List ℕ) (a : Bool)
    → length bytes ≡ 8
    → parse_kind (header_for 6 (if a then 1 else 0) 0 bytes) bytes ≡ ok (ping a bytes)
unfolding parse_kind
ping_parses bytes true h = ground arith
ping_parses bytes false h = ground arith

pub go_away_parses :
    (last : ℕ) (c : ErrorCode) (debug : List ℕ)
    → last < 2 ^ 31
    → let payload = u32_to_be_bytes last ++ (u32_to_be_bytes (as_u32 c) ++ debug) in
      parse_kind (header_for 7 0 0 payload) payload ≡ ok (go_away last c debug)
unfolding parse_kind
go_away_parses last c debug h =
    rw
      (
        stream_id_of-bytes last (u32_to_be_bytes (as_u32 c) ++ debug) h,
        word (as_u32 c) debug (omega (arith, as_u32-le c)),
        code-as_u32 c,
      )
      (ground arith)

pub priority_update_parses :
    (sid : ℕ) (field : List ℕ)
    → 0 < sid
    → sid < 2 ^ 31
    → parse_kind (header_for 16 0 0 (u32_to_be_bytes sid ++ field)) (u32_to_be_bytes sid ++ field)
      ≡ ok (priority_update sid field)
unfolding parse_kind
priority_update_parses sid field h k = rw (stream_id_of-bytes sid field k) (ground arith)

-- The kinds that have no frame of their own.
abbrev pub IsUnknown : ℕ → Type 0
IsUnknown k = (10 ≤ k) × (k ≢ 16)

pub unknown_parses :
    (k fl sid : ℕ) (payload : List ℕ)
    → IsUnknown k
    → parse_kind (header_for k fl sid payload) payload ≡ ok (unknown k fl sid payload)
unfolding parse_kind
unknown_parses k fl sid payload (h, ne) = rw (
  differs 0 (omega arith),
  differs 1 (omega arith),
  differs 2 (omega arith),
  differs 3 (omega arith),
  differs 4 (omega arith),
  differs 5 (omega arith),
  differs 6 (omega arith),
  differs 7 (omega arith),
  differs 8 (omega arith),
  differs 9 (omega arith),
  differs 16 ne,
)
  where
    differs : (j : ℕ) → k ≢ j → (k == j) ≡ false
    differs j d = ground arith
