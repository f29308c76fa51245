-- ===== src/H2/Streams.antt =====
-- src/courierust_h2/stream.rs: the state of a stream, and the table of streams.
pub mod Identifiers
pub mod Table
use courierust.Base.{
  ℕ, ◌+◌, ◌-◌, ◌%◌, ◌^◌, Bool, true, false, not, ◌&&◌, ◌||◌, Option, none, some, List, [], ◌∷◌,
  length, ltb, leb, ◌==◌, if◌then◌else◌, bit_and,
}
use courierust.Base.Int.{ℤ, pos}

-- `Priority` of priority.rs.
pub record Priority : Type 0 where
  pub urgency : ℕ
  pub incremental : Bool

pub data StreamState : Type 0 where
  idle open_both half_closed_local half_closed_remote closed : StreamState
  reserved_local reserved_remote : StreamState

pub record Stream : Type 0 where
  pub id : ℕ
  pub state : StreamState
  pub priority : Priority
  pub send_window : ℤ
  pub recv_window : ℤ
  pub send_buffered : ℕ
  pub send_done : Bool
  pub recv_ended : Bool
  pub recv_unreleased : ℤ
  pub headers_delivered : Bool
  pub content_length : Option ℕ
  pub recv_body_len : ℕ
  pub body_expected : Bool

unfoldable pub new_stream : ℕ → ℤ → ℤ → Priority → Stream
new_stream id send_window recv_window priority = record {
  id = id;
  state = idle;
  priority = priority;
  send_window = send_window;
  recv_window = recv_window;
  send_buffered = 0;
  send_done = false;
  recv_ended = false;
  recv_unreleased = pos 0;
  headers_delivered = false;
  content_length = none;
  recv_body_len = 0;
  body_expected = true;
}

abbrev pub is_closed_state : StreamState → Bool
is_closed_state closed = true
is_closed_state _ = false

unfoldable pub is_closed : Stream → Bool
is_closed s = is_closed_state s.state

abbrev pub receives : StreamState → Bool
receives open_both = true
receives half_closed_local = true
receives _ = false

abbrev pub sends : StreamState → Bool
sends open_both = true
sends half_closed_remote = true
sends _ = false

unfoldable pub can_recv : Stream → Bool
can_recv s = receives s.state && not s.recv_ended

unfoldable pub can_send : Stream → Bool
can_send s = sends s.state && not s.send_done

-- The `BTreeMap` is a list of streams in ascending order of their identifiers.
pub record StreamMap : Type 0 where
  pub streams : List Stream
  pub next_client_id : ℕ
  pub last_peer_id : ℕ
  pub open_count : ℕ

unfoldable pub new : Bool → StreamMap
new client = record {
  streams = [];
  next_client_id = if client then 1 else 2;
  last_peer_id = 0;
  open_count = 0;
}

abbrev pub lookup : ℕ → List Stream → Option Stream
lookup id [] = none
lookup id (s ∷ ss) = if s.id == id then some s else lookup id ss

abbrev pub put : Stream → List Stream → List Stream
put s [] = s ∷ []
put s (t ∷ ts) = if ltb s.id t.id then s ∷ t ∷ ts else if s.id == t.id then s ∷ ts else t ∷ put s ts

abbrev pub delete : ℕ → List Stream → List Stream
delete id [] = []
delete id (s ∷ ss) = if s.id == id then ss else s ∷ delete id ss

unfoldable pub get : StreamMap → ℕ → Option Stream
get m id = lookup id m.streams

unfoldable pub insert : StreamMap → Stream → StreamMap
unfolding is_closed
insert m s = record m {
  streams = put s m.streams;
  open_count = if is_closed s then m.open_count else m.open_count + 1;
}

unfoldable pub remove : StreamMap → ℕ → StreamMap × Option Stream
remove m id = elim (lookup id m.streams) [
  | none ↦ (m, none)
  | some s ↦ (record m { streams = delete id m.streams; open_count = m.open_count - 1 }, some s)
]

-- `wrapping_add(2)` on a u32.
unfoldable pub allocate_client_id : StreamMap → StreamMap × Option ℕ
allocate_client_id m =
    let id = m.next_client_id in
    if ltb 0x7fff_ffff id
    then (m, none)
    else (record m { next_client_id = (id + 2) % 2 ^ 32 }, some id)

unfoldable pub reserve_upgrade_stream : StreamMap → StreamMap
reserve_upgrade_stream m = if m.next_client_id == 1 then record m { next_client_id = 3 } else m

unfoldable pub accept_peer_id : StreamMap → ℕ → StreamMap × Bool
accept_peer_id m id =
    if bit_and id 1 == 0
    then (m, false)
    else if leb id m.last_peer_id
    then (m, false)
    else (record m { last_peer_id = id }, true)

unfoldable pub len : StreamMap → ℕ
len m = length m.streams

unfoldable pub is_empty : StreamMap → Bool
unfolding len
is_empty m = len m == 0

abbrev pub is_some : Option Stream → Bool
is_some none = false
is_some (some s) = true

unfoldable pub contains : StreamMap → ℕ → Bool
unfolding get
contains m id = is_some (get m id)
