-- ===== src/H2/Frame/Accepted.antt =====
-- What `Frame::parse` accepts, over all of its arms.
use courierust.Base.{
  ℕ, zero, suc, ◌*◌, ◌/◌, ◌%◌, ◌≤◌, ◌≡◌, refl, arith, List, [], ◌∷◌, Bool, true, false, length,
  length-drop, ltb, ◌==◌, if◌then◌else◌, inl, inr, Bool-cases, ==_iff, ltb→le,
}
use mathlib.Core.Path.{subst}
use courierust.Error.{Result, ok, err, ErrorKind}
use courierust.H2.Frame.{FrameHeader, Frame, unknown}
use courierust.H2.Frame.Parse.{
  parse, parse_kind, parse_settings, parse_ping, parse_continuation, parse_priority_update,
  entries_of, settings_ack, settings_entries,
}
use courierust.H2.Frame.AcceptedArms.{
  Accepted, data-Accepted, priority-Accepted, rst_stream-Accepted, length-entries_of,
  window_update-Accepted, goaway-Accepted, headers-Accepted, push_promise-Accepted,
}

either :
    {S : Type 0} (b : Bool) (m n : Result Frame) (f : Frame)
    → (m ≡ ok f → S)
    → (n ≡ ok f → S)
    → (if b then m else n) ≡ ok f
    → S
either true m n f hm hn e = hm e
either false m n f hm hn e = hn e

settings_ack-Accepted :
    (flags : ℕ) (payload : List ℕ) (f : Frame)
    → settings_ack payload ≡ ok f
    → Accepted 0 flags payload f
settings_ack-Accepted flags [] f e = ground arith
settings_ack-Accepted flags (b ∷ bs) f e = ground arith

settings_entries-Accepted :
    (flags : ℕ) (payload : List ℕ) (f : Frame)
    → settings_entries payload ≡ ok f
    → Accepted 0 flags payload f
settings_entries-Accepted flags payload f e = elim (Bool-cases (length payload % 6 == 0)) [
  | inl whole ↦ subst (Accepted 0 flags payload) (ok-injective (rw whole at e)) (refl, sixes whole)
  | inr part ↦ absurd (err-ne-ok (rw part at e))
]
  where
    ok-injective : {a b : Frame} → ◌≡◌ {A = Result Frame} (ok a) (ok b) → a ≡ b
    ok-injective p = cc

    err-ne-ok : {x : ErrorKind} → ◌≡◌ {A = Result Frame} (err x) (ok f) → ⊥
    err-ne-ok p = cc

    sixes : (length payload % 6 == 0) ≡ true → 6 * length (entries_of payload) ≡ length payload
    sixes whole =
        let exact : length payload % 6 ≡ 0 = (==_iff _ _).0 whole in
        omega (arith, length-entries_of (length payload / 6) payload (omega arith))

settings-Accepted :
    (sid flags : ℕ) (payload : List ℕ) (f : Frame)
    → parse_settings sid flags payload ≡ ok f
    → Accepted sid flags payload f
unfolding parse_settings
settings-Accepted zero flags payload f e =
    either _ (settings_ack payload) (settings_entries payload) f
      (settings_ack-Accepted flags payload f) (settings_entries-Accepted flags payload f) e
settings-Accepted (suc sid) flags payload f e = ground arith

ping-Accepted :
    (sid flags : ℕ) (payload : List ℕ) (f : Frame)
    → parse_ping sid flags payload ≡ ok f
    → Accepted sid flags payload f
unfolding parse_ping
ping-Accepted sid flags payload f e = ground arith

continuation-Accepted :
    (sid flags : ℕ) (payload : List ℕ) (f : Frame)
    → parse_continuation sid flags payload ≡ ok f
    → Accepted sid flags payload f
unfolding parse_continuation
continuation-Accepted sid flags payload f e = ground arith

priority_update-Accepted :
    (sid flags : ℕ) (payload : List ℕ) (f : Frame)
    → parse_priority_update sid payload ≡ ok f
    → Accepted sid flags payload f
unfolding parse_priority_update
priority_update-Accepted sid flags payload f e = ground (arith, length-drop 4 payload)

unknown-Accepted :
    (header : FrameHeader) (payload : List ℕ) (f : Frame)
    → ◌≡◌ {A = Result Frame} (ok (unknown header.kind header.flags header.stream_id payload)) (ok f)
    → Accepted header.stream_id header.flags payload f
unknown-Accepted header payload f e = ground arith

parse_kind-Accepted :
    (header : FrameHeader) (payload : List ℕ) (f : Frame)
    → parse_kind header payload ≡ ok f
    → Accepted header.stream_id header.flags payload f
unfolding parse_kind
parse_kind-Accepted header payload f =
    let sid = header.stream_id in
    let flags = header.flags in
    either _ _ _ f (data-Accepted sid flags payload f) (
      either _ _ _ f (headers-Accepted sid flags payload f) (
        either _ _ _ f (priority-Accepted sid flags payload f) (
          either _ _ _ f (rst_stream-Accepted sid flags payload f) (
            either _ _ _ f (settings-Accepted sid flags payload f) (
              either _ _ _ f (push_promise-Accepted sid flags payload f) (
                either _ _ _ f (ping-Accepted sid flags payload f) (
                  either _ _ _ f (goaway-Accepted sid flags payload f) (
                    either _ _ _ f (window_update-Accepted sid flags payload f) (
                      either _ _ _ f (continuation-Accepted sid flags payload f) (
                        either _ _ _ f (priority_update-Accepted sid flags payload f)
                          (unknown-Accepted header payload f)))))))))))

-- A frame that is accepted has the payload length of its header, within the maximum. A frame of a
-- stream carries the header's identifier, which is not 0 but for WINDOW_UPDATE and unknown kinds;
-- SETTINGS, PING, GOAWAY and PRIORITY_UPDATE come with identifier 0. Payloads of fixed length have
-- it. In DATA and HEADERS the Pad Length field, the padding that it announces, the priority and the
-- rest add up to the payload, so that the padding is within it. A PUSH_PROMISE announces at most 5
-- bytes of padding; its block is what the promised identifier and the announced padding leave of
-- the payload, and empty if the padding is more than that. For the other kinds the parts add up to
-- the payload.
pub parse-Accepted :
    (header : FrameHeader) (payload : List ℕ) (max_frame_size : ℕ) (f : Frame)
    → parse header payload max_frame_size ≡ ok f
    → (header.len ≡ length payload)
      × (header.len ≤ max_frame_size)
      × Accepted header.stream_id header.flags payload f
unfolding parse
parse-Accepted header payload max_frame_size f e =
    elim (Bool-cases (header.len == length payload)) [
      | inl same ↦ elim (Bool-cases (ltb max_frame_size header.len)) [
        | inl over ↦ absurd (refused (rw (same, over) at e))
        | inr fits ↦
            let equal : header.len ≡ length payload = (==_iff _ _).0 same in
            (equal, ltb→le _ _ fits, parse_kind-Accepted header payload f (rw (same, fits) at e))
      ]
      | inr other ↦ absurd (refused (rw other at e))
    ]
  where
    refused : {x : ErrorKind} → ◌≡◌ {A = Result Frame} (err x) (ok f) → ⊥
    refused p = cc
