-- ===== src/Ws/Sink/Wire.antt =====
-- What a frame is on the wire (src/courierust_ws/frame.rs), however it is cut into writes.
use courierust.Base.{
  ℕ, zero, suc, ◌+◌, ◌-◌, ◌≤◌, ◌≡◌, refl, sym, ap, ◌∙◌, arith, Bool, List, ◌++◌, Option, none, some,
  length, take, drop, min, leb, All, All-drop, All-take, Bool-cases, inl, inr, take-drop, drop-add,
  length-take, length-drop, le→leb, drop_past,
}
use mathlib.Core.Option.{map}
use courierust.Base.Bytes.{IsByte}
use courierust.Error.{Result, ok}
use courierust.Io.{Write, write_all, and_then}
use courierust.Io.WriteAll.{Delivers, write_all-Delivers, and_then-Delivers}
use mathlib.Core.List.{append-nil}
use courierust.Ws.Frame.{Key}
use courierust.Ws.Mask.{apply, new, mask_bytes}
use courierust.Ws.Mask.Lanes.{IsKey, mask_bytes-append}
use courierust.Ws.Mask.Apply.{apply-mask_bytes}
use courierust.Ws.Sink.{
  write_windows, write_payload, write_frame, masked, mask_window_max, mask_window,
}

-- The payload as the peer gets it.
abbrev pub on_wire : Option Key → List ℕ → List ℕ
on_wire none payload = payload
on_wire (some key) payload = mask_bytes key 0 payload

abbrev pub KeyIsKey : Option Key → Type 0
KeyIsKey none = Unit {0}
KeyIsKey (some key) = IsKey key

module _ (t : Write) (little : Bool) where
  open t use {Writer, accepted}

  -- The part of the payload from `off` on, as a window and what is behind it.
  window_split :
      (key : Key) (payload : List ℕ) (off size : ℕ)
      → mask_bytes key off (drop off payload)
        ≡ mask_bytes key off (take size (drop off payload))
          ++ mask_bytes key
              (off + length (take size (drop off payload)))
              (drop (off + size) payload)
  window_split key payload off size =
      ap (mask_bytes key off) (sym (take-drop size (drop off payload)))
      ∙ mask_bytes-append key off (take size (drop off payload)) (drop size (drop off payload))
      ∙ ap
          (λ more.
            mask_bytes key off (take size (drop off payload))
            ++ mask_bytes key (off + length (take size (drop off payload))) more)
          (sym (drop-add off size payload))

  module _ (key : Key) (payload : List ℕ) (k : IsKey key) (bytes : All IsByte payload) where
    nothing_left :
        (w : Writer) (off : ℕ)
        → length payload ≤ off
        → Delivers t w (mask_bytes key off (drop off payload)) (some (ok tt, w))
    unfolding mask_bytes
    nothing_left w off past = rw (drop_past off payload past) (sym (append-nil (accepted w)))

    abbrev window_len : ℕ → ℕ
    window_len off = min mask_window_max (length payload - off)

    -- A window, and then what is behind it.
    window-Delivers :
        (w : Writer) (off : ℕ) (next : Writer → Option (Result (Unit {0}) × Writer))
        → ((w' : Writer)
            → Delivers t w'
                (mask_bytes key (off + window_len off) (drop (off + window_len off) payload))
                (next w'))
        → Delivers t w (mask_bytes key off (drop off payload)) (
            and_then t
              (write_all t w
                (apply little (new little key) off (take (window_len off) (drop off payload))))
              next)
    window-Delivers w off next rest =
        rw (window_split key payload off (window_len off), whole, applied)
          (and_then-Delivers t w (mask_bytes key off window) _ _ next
            (write_all-Delivers t w (mask_bytes key off window)) rest)
      where
        window : List ℕ
        window = take (window_len off) (drop off payload)

        whole : length window ≡ window_len off
        whole = omega (
          arith,
          length-take {0} (window_len off) (drop off payload),
          length-drop {0} off payload,
        )

        applied : apply little (new little key) off window ≡ mask_bytes key off window
        applied = apply-mask_bytes little key off window k (
            All-take IsByte (window_len off) (drop off payload) (All-drop IsByte off payload bytes))

    write_windows-Delivers :
        (fuel : ℕ) (w : Writer) (off : ℕ)
        → length payload ≤ off + fuel
        → Delivers t w
            (mask_bytes key off (drop off payload))
            (write_windows t little fuel (new little key) w payload off)
    unfolding write_windows
    write_windows-Delivers zero w off enough =
        rw (le→leb (length payload) off (omega arith)) (nothing_left w off (omega arith))
    write_windows-Delivers (suc fuel) w off enough = elim (Bool-cases (leb (length payload) off)) [
      | inl past ↦ rw past (nothing_left w off (ground arith))
      | inr more ↦ rw more (
          window-Delivers w off _
            (λ w'. write_windows-Delivers fuel w' (off + window_len off) (ground arith)))
    ]

  module _ (payload : List ℕ) (bytes : All IsByte payload) where
    masked_lem :
        (key : Option Key)
        → KeyIsKey key
        → masked t little (map (new little) key) payload ≡ on_wire key payload
    masked_lem none k = refl
    masked_lem (some key) k = apply-mask_bytes little key 0 payload k bytes

    write_payload-Delivers :
        (w : Writer) (key : Option Key)
        → KeyIsKey key
        → Delivers t w
            (on_wire key payload)
            (write_payload t little (map (new little) key) w payload)
    unfolding write_payload
    write_payload-Delivers w none k = write_all-Delivers t w payload
    write_payload-Delivers w (some key) k =
        write_windows-Delivers key payload k bytes (length payload) w 0 (omega arith)

  -- A frame is on the wire as its header and its payload, each byte once and in order, masked from
  -- its first byte on if there is a key: whether it goes out in one write, in two, or in windows.
  -- With an error the transport has taken only some of the first of these bytes.
  pub write_frame-Delivers :
      (w : Writer) (header payload : List ℕ) (key : Option Key)
      → KeyIsKey key
      → All IsByte payload
      → Delivers t w
          (header ++ on_wire key payload)
          (write_frame t little w header payload (map (new little) key))
  unfolding write_frame
  write_frame-Delivers w header payload key k bytes =
      elim (Bool-cases (leb (length header + length payload) mask_window)) [
        | inl small ↦
            rw (small, masked_lem payload bytes key k)
              (write_all-Delivers t w (header ++ on_wire key payload))
        | inr large ↦ rw large (
            and_then-Delivers t w header (on_wire key payload) _ _ (write_all-Delivers t w header)
              (λ w'. write_payload-Delivers payload bytes w' key k))
      ]
