-- ===== src/H2/Frame.antt =====
-- src/courierust_h2/frame.rs: the frames of RFC 9113 and PRIORITY_UPDATE of RFC 9218.
pub mod Header
pub mod Parse
pub mod Encode
pub mod Framing
pub mod SimpleArms
pub mod Arms
pub mod RoundTrip
pub mod Padding
pub mod AcceptedArms
pub mod Accepted
use courierust.Base.{ℕ, Bool, Option, List}
use courierust.H2.ErrorCode.{ErrorCode}
use courierust.H2.Settings.{Setting}

pub record FrameHeader : Type 0 where
  pub len : ℕ
  pub kind : ℕ
  pub flags : ℕ
  pub stream_id : ℕ

pub record LegacyPriority : Type 0 where
  pub dependency : ℕ
  pub exclusive : Bool
  pub weight : ℕ

pub data Frame : Type 0 where
  data_frame : (stream_id : ℕ) → List ℕ → (end_stream : Bool) → (padding : ℕ) → Frame
  headers :
      (stream_id : ℕ) → List ℕ → (end_stream end_headers : Bool) → Option LegacyPriority → Frame
  priority : (stream_id : ℕ) → LegacyPriority → Frame
  rst_stream : (stream_id : ℕ) → ErrorCode → Frame
  settings : (ack : Bool) → List Setting → Frame
  push_promise : (stream_id promised_id : ℕ) → List ℕ → (end_headers : Bool) → Frame
  ping : (ack : Bool) → List ℕ → Frame
  go_away : (last_stream_id : ℕ) → ErrorCode → List ℕ → Frame
  window_update : (stream_id increment : ℕ) → Frame
  continuation : (stream_id : ℕ) → (end_headers : Bool) → List ℕ → Frame
  priority_update : (prioritized_stream_id : ℕ) → List ℕ → Frame
  unknown : (kind flags stream_id : ℕ) → List ℕ → Frame
