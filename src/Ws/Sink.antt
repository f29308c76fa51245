-- ===== src/Ws/Sink.antt =====
-- src/courierust_ws/frame.rs: frames on a byte writer. The staging buffer is cleared before each use
-- and is left out: what is staged is what is handed to the writer.
pub mod Wire
use courierust.Base.{
  ℕ, zero, suc, ◌+◌, ◌-◌, ◌*◌, Bool, List, [], ◌∷◌, ◌++◌, Option, none, some, length, take, drop,
  min, leb, if◌then◌else◌,
}
use courierust.Error.{Result, ok, err}
use courierust.Io.{Write, write_all, and_then}
use courierust.Ws.Mask.{Mask, apply}

abbrev pub mask_window : ℕ
mask_window = 64 * 1024

abbrev pub mask_window_max : ℕ
mask_window_max = 1024 * 1024

module _ (t : Write) (little : Bool) where
  open t use {Writer}

  -- The loop over the windows of a masked payload, from byte `off` on. `none` stands for a loop that
  -- goes on after `fuel` rounds.
  unfoldable pub write_windows :
      ℕ → Mask → Writer → List ℕ → ℕ → Option (Result (Unit {0}) × Writer)
  write_windows zero m w payload off = if leb (length payload) off then some (ok tt, w) else none
  write_windows (suc fuel) m w payload off =
      let size = min mask_window_max (length payload - off) in
      let more =
        and_then t (write_all t w (apply little m off (take size (drop off payload))))
          (λ w'. write_windows fuel m w' payload (off + size)) in
      if leb (length payload) off then some (ok tt, w) else more

  -- The payload as it is staged.
  abbrev pub masked : Option Mask → List ℕ → List ℕ
  masked none payload = payload
  masked (some m) payload = apply little m 0 payload

  -- The payload of a frame that is larger than the window. A window takes a byte at least.
  unfoldable pub write_payload : Option Mask → Writer → List ℕ → Option (Result (Unit {0}) × Writer)
  unfolding write_windows
  write_payload none w payload = write_all t w payload
  write_payload (some m) w payload = write_windows (length payload) m w payload 0

  -- `StreamSink::write_frame`
  unfoldable pub write_frame :
      Writer → List ℕ → List ℕ → Option Mask → Option (Result (Unit {0}) × Writer)
  unfolding write_payload
  write_frame w header payload mask =
      if leb (length header + length payload) mask_window
      then write_all t w (header ++ masked mask payload)
      else and_then t (write_all t w header) (λ w'. write_payload mask w' payload)
