-- ===== src/H2/Frame/AcceptedArms.antt =====
-- What an arm of `Frame::parse` accepts.
use courierust.Base.{
  ℕ, zero, suc, ◌+◌, ◌-◌, ◌*◌, ◌≤◌, ◌<◌, ◌≡◌, refl, ap, arith, List, [], ◌∷◌, true, false, Option,
  length, drop, get_or, if◌then◌else◌, length-take, length-drop, inl, inr, ◌⊎◌,
}
use courierust.Error.{Result, ok, err, ErrorKind}
use courierust.H2.Frame.{
  LegacyPriority, Frame, data_frame, headers, priority, rst_stream, settings, push_promise, ping,
  go_away, window_update, continuation, priority_update, unknown,
}
use courierust.H2.Frame.Header.{is_set, flag_padded, flag_priority}
use courierust.H2.Frame.Parse.{
  parse_data, parse_headers, parse_priority, parse_rst_stream, parse_push_promise, parse_goaway,
  parse_window_update, entries_of, strip_padding, pad_length, headers_priority,
}

Result-cases :
    {A : Type 0} (r : Result A) → ((a : A) × (r ≡ ok a)) ⊎ ((e : ErrorKind) × (r ≡ err e))
Result-cases (ok a) = inl (a, refl)
Result-cases (err e) = inr (e, refl)

-- The bytes that a frame with the PADDED flag spends on padding: the Pad Length field, which is the
-- first byte of the payload, and as many bytes as it announces.
abbrev pub padding_len : ℕ → List ℕ → ℕ
padding_len flags payload = if is_set flags flag_padded then 1 + get_or payload 0 0 else 0

-- The bytes of the priority, with the PRIORITY flag.
abbrev pub priority_len : ℕ → ℕ
priority_len flags = if is_set flags flag_priority then 5 else 0

-- Frames of a stream carry its identifier, those of the connection none, and the parts of the
-- payload add up. A PUSH_PROMISE has its block in what the identifier and the padding leave, if they
-- leave any, and announces at most 5 bytes of padding.
abbrev pub Accepted : ℕ → ℕ → List ℕ → Frame → Type 0
Accepted sid flags payload (data_frame id body es padding) =
    (id ≡ sid)
    × (0 < sid)
    × (length body + padding ≡ length payload)
    × (padding ≡ padding_len flags payload)
Accepted sid flags payload (headers id block es eh prio) =
    (id ≡ sid)
    × (0 < sid)
    × (length block + priority_len flags + padding_len flags payload ≡ length payload)
Accepted sid flags payload (priority id p) = (id ≡ sid) × (0 < sid) × (length payload ≡ 5)
Accepted sid flags payload (rst_stream id code) = (id ≡ sid) × (0 < sid) × (length payload ≡ 4)
Accepted sid flags payload (settings true entries) =
    (sid ≡ 0) × (length payload ≡ 0) × (entries ≡ [])
Accepted sid flags payload (settings false entries) =
    (sid ≡ 0) × (6 * length entries ≡ length payload)
Accepted sid flags payload (push_promise id promised block eh) =
    (id ≡ sid)
    × (0 < sid)
    × (4 ≤ length payload)
    × (length block ≡ length payload - (4 + padding_len flags payload))
    × (padding_len flags payload ≤ 6)
Accepted sid flags payload (ping ack bytes) = (sid ≡ 0) × (length payload ≡ 8) × (length bytes ≡ 8)
Accepted sid flags payload (go_away last code debug) =
    (sid ≡ 0) × (length debug + 8 ≡ length payload)
Accepted sid flags payload (window_update id increment) =
    (id ≡ sid) × (0 < increment) × (length payload ≡ 4)
Accepted sid flags payload (continuation id eh block) =
    (id ≡ sid) × (0 < sid) × (length block ≡ length payload)
Accepted sid flags payload (priority_update id field) =
    (sid ≡ 0) × (0 < id) × (length field + 4 ≡ length payload)
Accepted sid flags payload (unknown kind f id bytes) = (id ≡ sid) × (length bytes ≡ length payload)

-- What the padding of DATA leaves.
strip_padding-len :
    (payload : List ℕ) (flags : ℕ) (body : List ℕ) (pad : ℕ)
    → strip_padding payload flags flag_padded ≡ ok (body, pad)
    → length body + padding_len flags payload ≡ length payload
unfolding strip_padding
strip_padding-len [] flags body pad e = ground arith
strip_padding-len (b ∷ bs) flags body pad e =
    ground (arith, length-take (suc (length bs) - b - 1) bs)

pub data-Accepted :
    (sid flags : ℕ) (payload : List ℕ) (f : Frame)
    → parse_data sid flags payload ≡ ok f
    → Accepted sid flags payload f
unfolding parse_data
data-Accepted sid flags payload f e =
    elim (Result-cases (strip_padding payload flags flag_padded)) [
      | inl ((body, pad), q) ↦ ground (arith, rw q at e, strip_padding-len payload flags body pad q)
      | inr (x, q) ↦ ground (arith, rw q at e)
    ]

pub priority-Accepted :
    (sid flags : ℕ) (payload : List ℕ) (f : Frame)
    → parse_priority sid payload ≡ ok f
    → Accepted sid flags payload f
unfolding parse_priority
priority-Accepted sid flags payload f e = ground arith

pub rst_stream-Accepted :
    (sid flags : ℕ) (payload : List ℕ) (f : Frame)
    → parse_rst_stream sid payload ≡ ok f
    → Accepted sid flags payload f
unfolding parse_rst_stream
rst_stream-Accepted sid flags payload f e = ground arith

pub length-entries_of :
    (n : ℕ) (payload : List ℕ) → length payload ≡ 6 * n → length (entries_of payload) ≡ n
length-entries_of zero [] h = refl
length-entries_of zero (a ∷ more) h = absurd (omega arith)
length-entries_of (suc n) (a ∷ b ∷ c ∷ d ∷ e ∷ f ∷ rest) h =
    ap suc (length-entries_of n rest (omega arith))
length-entries_of (suc n) _ h = absurd (omega arith)

pub window_update-Accepted :
    (sid flags : ℕ) (payload : List ℕ) (f : Frame)
    → parse_window_update sid payload ≡ ok f
    → Accepted sid flags payload f
unfolding parse_window_update
window_update-Accepted sid flags payload f e = ground arith

pub goaway-Accepted :
    (sid flags : ℕ) (payload : List ℕ) (f : Frame)
    → parse_goaway sid payload ≡ ok f
    → Accepted sid flags payload f
unfolding parse_goaway
goaway-Accepted sid flags payload f e = ground (arith, length-drop 8 payload)

-- The Pad Length field, and what it leaves.
pad_length-len :
    (flags : ℕ) (payload : List ℕ) (p : ℕ) (rest : List ℕ)
    → pad_length flags payload ≡ ok (p, rest)
    → (p + length payload ≡ length rest + padding_len flags payload)
      × (padding_len flags payload ≤ p + 1)
unfolding pad_length
pad_length-len flags [] p rest e = ground arith
pad_length-len flags (b ∷ bs) p rest e = ground arith

headers_priority-len :
    (flags : ℕ) (payload : List ℕ) (p : Option LegacyPriority) (rest : List ℕ)
    → headers_priority flags payload ≡ ok (p, rest)
    → length rest + priority_len flags ≡ length payload
unfolding headers_priority
headers_priority-len flags payload p rest e = ground (arith, length-drop 5 payload)

-- The end of the HEADERS arm, with its two intermediate results.
pub headers-Accepted :
    (sid flags : ℕ) (payload : List ℕ) (f : Frame)
    → parse_headers sid flags payload ≡ ok f
    → Accepted sid flags payload f
unfolding parse_headers
headers-Accepted sid flags payload f e = elim (Result-cases (pad_length flags payload)) [
  | inl ((p, rest), q) ↦ elim (Result-cases (headers_priority flags rest)) [
    | inl ((prio, rest'), r) ↦ ground (
      arith,
      rw (q, r) at e,
      pad_length-len flags payload p rest q,
      headers_priority-len flags rest prio rest' r,
      length-take (length rest' - p) rest',
    )
    | inr (x, r) ↦ ground (arith, rw (q, r) at e)
  ]
  | inr (x, q) ↦ ground (arith, rw q at e)
]

pub push_promise-Accepted :
    (sid flags : ℕ) (payload : List ℕ) (f : Frame)
    → parse_push_promise sid flags payload ≡ ok f
    → Accepted sid flags payload f
unfolding parse_push_promise
push_promise-Accepted sid flags payload f e = elim (Result-cases (pad_length flags payload)) [
  | inl ((p, rest), q) ↦ ground (
    arith,
    rw q at e,
    pad_length-len flags payload p rest q,
    length-take (length (drop 4 rest) - p) (drop 4 rest),
    length-drop 4 rest,
  )
  | inr (x, q) ↦ ground (arith, rw q at e)
]
