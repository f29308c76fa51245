-- ===== src/Quic/Frame.antt =====
-- src/courierust_quic/frame.rs: the frames of RFC 9000 and RFC 9221.
pub mod Encode
pub mod Cursor
pub mod Decode
pub mod Reads
pub mod Moves
pub mod Bounds
pub mod NumberArms
pub mod Arms
pub mod Forms
pub mod Transmits
pub mod RoundTrip
use courierust.Base.{ℕ, Bool, Option, List}

-- `[u64; 3]`, `[u8; 8]` and `[u8; 16]` are a tuple and lists; `u64` and `usize` are 64 bits wide.
pub data Frame : Type 0 where
  padding : ℕ → Frame
  ping : Frame
  ack : (largest_acked ack_delay : ℕ) → List (ℕ × ℕ) → Option (ℕ × ℕ × ℕ) → Frame
  reset_stream : (stream_id app_error_code final_size : ℕ) → Frame
  stop_sending : (stream_id app_error_code : ℕ) → Frame
  crypto : (offset : ℕ) → List ℕ → Frame
  new_token : List ℕ → Frame
  stream : (stream_id : ℕ) (offset : Option ℕ) → List ℕ → (length : Option ℕ) → (fin : Bool) → Frame
  max_data : ℕ → Frame
  max_stream_data : (stream_id max : ℕ) → Frame
  max_streams : (unidirectional : Bool) (max : ℕ) → Frame
  data_blocked : ℕ → Frame
  stream_data_blocked : (stream_id max : ℕ) → Frame
  streams_blocked : (unidirectional : Bool) (max : ℕ) → Frame
  new_connection_id : (sequence retire_prior_to : ℕ) → List ℕ → List ℕ → Frame
  retire_connection_id : ℕ → Frame
  path_challenge : List ℕ → Frame
  path_response : List ℕ → Frame
  connection_close : (error_code : ℕ) (frame_type : Option ℕ) → List ℕ → Frame
  handshake_done : Frame
  datagram : List ℕ → (length : Option ℕ) → Frame
