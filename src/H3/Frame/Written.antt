-- ===== src/H3/Frame/Written.antt =====
-- HTTP/3 frames: the payload of a well-formed frame, written and then read.
use courierust.Base.{
  ℕ, zero, suc, ◌+◌, ◌*◌, ◌≤◌, ◌≡◌, ◌≢◌, refl, ap, ◌∙◌, arith, true, false, some, List, [], ◌∷◌,
  ◌++◌, length, length-append, drop, drop-append, ◌==◌,
}
use courierust.Error.{ok}
use courierust.Quic.Varint
use courierust.Quic.Varint.RoundTrip.{decode-encode_bytes}
use courierust.Quic.Frame.NumberArms.{e, encode-bytes}
use courierust.H3.Frame.{
  Frame, data_frame, headers, cancel_push, settings, push_promise, go_away, max_push_id, unknown,
  frame_type, varint_then, encode_entries, encode_payload, to_bytes, decode_id, decode_entries,
  decode_settings, decode_push_promise, decode_payload, max_settings_entries,
}

abbrev pub EntriesFit : List (ℕ × ℕ) → Type 0
EntriesFit [] = Unit
EntriesFit ((id, value) ∷ entries) = (id ≤ Varint.max) × (value ≤ Varint.max) × EntriesFit entries

-- A type that no other frame has.
abbrev pub IsUnknown : ℕ → Type 0
IsUnknown t = (t ≢ 0) × (t ≢ 1) × (t ≢ 3) × (t ≢ 4) × (t ≢ 5) × (t ≢ 7) × (t ≢ 13)

-- Frames whose numbers and lengths fit a varint, with no more settings than the decoder takes.
abbrev pub WellFormed : Frame → Type 0
WellFormed (data_frame d) = length d ≤ Varint.max
WellFormed (headers h) = length h ≤ Varint.max
WellFormed (cancel_push id) = id ≤ Varint.max
WellFormed (settings entries) = (length entries ≤ max_settings_entries) × EntriesFit entries
WellFormed (push_promise id h) = (id ≤ Varint.max) × (length h + 8 ≤ Varint.max)
WellFormed (go_away id) = id ≤ Varint.max
WellFormed (max_push_id id) = id ≤ Varint.max
WellFormed (unknown t payload) = IsUnknown t × (t ≤ Varint.max) × (length payload ≤ Varint.max)

varint_then_lem :
    (v : ℕ) (rest : List ℕ) → v ≤ Varint.max → varint_then v (some rest) ≡ some (e v ++ rest)
varint_then_lem v rest h = rw (encode-bytes v h, varint_then) refl

pub length-e : (v : ℕ) → (1 ≤ length (e v)) × (length (e v) ≤ 8)
length-e v = unfold Varint.encode_bytes in ground arith

abbrev entries_wire : List (ℕ × ℕ) → List ℕ
entries_wire [] = []
entries_wire ((id, value) ∷ entries) = e id ++ (e value ++ entries_wire entries)

encode_entries-wire :
    (entries : List (ℕ × ℕ))
    → EntriesFit entries
    → encode_entries entries ≡ some (entries_wire entries)
encode_entries-wire [] h = refl
encode_entries-wire ((id, value) ∷ entries) (hi, hv, h) =
    ap (λ more. varint_then id (varint_then value more)) (encode_entries-wire entries h)
    ∙ ap (varint_then id) (varint_then_lem value (entries_wire entries) hv)
    ∙ varint_then_lem id (e value ++ entries_wire entries) hi

length-entries_wire : (entries : List (ℕ × ℕ)) → length (entries_wire entries) ≤ 16 * length entries
length-entries_wire [] = omega arith
length-entries_wire ((id, value) ∷ entries) = omega (
  arith,
  length-append (e id) (e value ++ entries_wire entries),
  length-append (e value) (entries_wire entries),
  length-e id,
  length-e value,
  length-entries_wire entries,
)

-- Octets that are not empty, in a form that `decode_entries` matches on.
decode_entries-cons :
    (left id value : ℕ) (buf rest : List ℕ)
    → buf ≡ e id ++ (e value ++ rest)
    → id ≤ Varint.max
    → value ≤ Varint.max
    → (entries : List (ℕ × ℕ)) → decode_entries left rest ≡ ok entries
    → decode_entries (suc left) buf ≡ ok ((id, value) ∷ entries)
unfolding decode_entries
decode_entries-cons left id value [] rest b hi hv entries h =
    absurd (omega (arith, ap length b, length-append (e id) (e value ++ rest), length-e id))
decode_entries-cons left id value (x ∷ xs) rest b hi hv entries h =
    rw
      (
        ap Varint.decode b ∙ decode-encode_bytes id (e value ++ rest) hi,
        ap (drop (length (e id))) b ∙ drop-append (e id) (e value ++ rest),
        decode-encode_bytes value rest hv,
        drop-append (e value) rest,
        h,
      )
      refl

decode_entries-wire :
    (left : ℕ) (entries : List (ℕ × ℕ))
    → length entries ≤ left
    → EntriesFit entries
    → decode_entries left (entries_wire entries) ≡ ok entries
decode_entries-wire left [] h fit = unfold decode_entries in refl
decode_entries-wire zero (x ∷ entries) h fit = absurd (omega arith)
decode_entries-wire (suc left) ((id, value) ∷ entries) h (hi, hv, fit) =
    decode_entries-cons left id value _ (entries_wire entries) refl hi hv entries
      (decode_entries-wire left entries (omega arith) fit)

decode_id-e :
    (make : ℕ → Frame) (id : ℕ) → id ≤ Varint.max → decode_id make (e id ++ []) ≡ ok (make id)
unfolding decode_id
decode_id-e make id h = rw (decode-encode_bytes id [] h, whole) refl
  where
    whole : (length (e id) == length (e id ++ [])) ≡ true
    whole = ground (arith, length-append (e id) [])

-- The payload that a frame is written with, and that its arm reads.
pub record Written (f : Frame) : Type 0 where
  pub payload : List ℕ
  pub written : encode_payload f ≡ some payload
  pub small : length payload ≤ Varint.max
  pub typed : frame_type f ≤ Varint.max
  pub read : decode_payload (frame_type f) payload ≡ ok f

id-Written :
    (make : ℕ → Frame) (t id : ℕ)
    → frame_type (make id) ≡ t
    → encode_payload (make id) ≡ varint_then id (some [])
    → t ≤ 64
    → ((payload : List ℕ) → decode_payload t payload ≡ decode_id make payload)
    → id ≤ Varint.max
    → Written (make id)
id-Written make t id typed written small arm h = record {
  payload = e id ++ [];
  written = written ∙ varint_then_lem id [] h;
  small = omega (arith, length-append (e id) [], length-e id);
  typed = omega arith;
  read = ap (λ t. decode_payload t (e id ++ [])) typed ∙ arm (e id ++ []) ∙ decode_id-e make id h;
}

pub frame-Written : (f : Frame) → WellFormed f → Written f
unfolding decode_payload
frame-Written (data_frame d) h = record {
  payload = d;
  written = refl;
  small = h;
  typed = omega arith;
  read = refl;
}
frame-Written (headers d) h = record {
  payload = d;
  written = refl;
  small = h;
  typed = omega arith;
  read = refl;
}
frame-Written (cancel_push id) h = id-Written cancel_push 3 id refl refl (omega arith) (λ p. refl) h
frame-Written (settings entries) (few, fit) = record {
  payload = entries_wire entries;
  written = encode_entries-wire entries fit;
  small = omega (arith, length-entries_wire entries);
  typed = omega arith;
  read =
      unfold decode_settings in rw (decode_entries-wire max_settings_entries entries few fit) refl;
}
frame-Written (push_promise id h) (hi, fits) = record {
  payload = e id ++ h;
  written = varint_then_lem id h hi;
  small = omega (arith, length-append (e id) h, length-e id);
  typed = omega arith;
  read = unfold decode_push_promise in rw (decode-encode_bytes id h hi, drop-append (e id) h) refl;
}
frame-Written (go_away id) h = id-Written go_away 7 id refl refl (omega arith) (λ p. refl) h
frame-Written (max_push_id id) h =
    id-Written max_push_id 13 id refl refl (omega arith) (λ p. refl) h
frame-Written (unknown t payload) ((n0, n1, n3, n4, n5, n7, n13), small_type, small_payload) =
    record {
      payload = payload;
      written = refl;
      small = small_payload;
      typed = small_type;
      read =
          rw
            (
              differs 0 n0,
              differs 1 n1,
              differs 3 n3,
              differs 4 n4,
              differs 5 n5,
              differs 7 n7,
              differs 13 n13,
            )
            refl;
    }
  where
    differs : (j : ℕ) → t ≢ j → (t == j) ≡ false
    differs j d = ground arith

abbrev pub wire : ℕ → List ℕ → List ℕ
wire t payload = e t ++ (e (length payload) ++ payload)

pub to_bytes-wire :
    (f : Frame) (payload : List ℕ)
    → encode_payload f ≡ some payload
    → frame_type f ≤ Varint.max
    → length payload ≤ Varint.max
    → to_bytes f ≡ some (wire (frame_type f) payload)
unfolding to_bytes
to_bytes-wire f payload written typed small =
    rw (written, to_bytes)
      (ap (varint_then (frame_type f)) (varint_then_lem (length payload) payload small)
        ∙ varint_then_lem (frame_type f) (e (length payload) ++ payload) typed)
