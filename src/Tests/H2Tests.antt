-- ===== src/Tests/H2Tests.antt =====
-- Tests of flow.rs, stream.rs, settings.rs and error.rs of src/courierust_h2.
use courierust.Base.{ℕ, ◌-◌, ◌^◌, ◌≡◌, refl, arith, [], ◌∷◌, true, false, some, none, ◌↔◌}
use courierust.Base.Int.{pos, negsuc}
use courierust.Error.{ok}
use courierust.H2.ErrorCode.{from_u32, enhance_your_calm}
use courierust.H2.Flow
use courierust.H2.Flow.{FlowWindow, operations-IsValid, increase_exact, release-consume}
use courierust.H2.Streams
use courierust.H2.Streams.{StreamMap, Stream}
use courierust.H2.Streams.Identifiers.{accepted, AscendingOdd, accepted-AscendingOdd}
use courierust.H2.Streams.Table.{Counted, operations-Counted}
use courierust.H2.Settings.{Setting, default, apply, to_vec}
use courierust.H2.Settings.Valid.{
  IsValid, AllAllowed, default-IsValid, apply-IsValid, apply_ok_iff, apply-to_vec,
}

calm : from_u32 11 ≡ some enhance_your_calm
unfolding from_u32
calm = refl

no_such_code : from_u32 14 ≡ none
unfolding from_u32
no_such_code = refl

-- Settings.
abbrev small_frames : Setting
small_frames = record { id = 5; value = 100 }

abbrev no_push : Setting
no_push = record { id = 2; value = 0 }

apply-IsValid_example : IsValid (apply default (no_push ∷ small_frames ∷ [])).0
apply-IsValid_example = apply-IsValid default (no_push ∷ small_frames ∷ []) default-IsValid

apply_ok_iff_example : ((apply default (no_push ∷ [])).1 ≡ ok tt) ↔ AllAllowed (no_push ∷ [])
apply_ok_iff_example = apply_ok_iff default (no_push ∷ [])

apply-to_vec_example : apply (apply default (no_push ∷ [])).0 (to_vec default) ≡ (default, ok tt)
apply-to_vec_example = apply-to_vec default (apply default (no_push ∷ [])).0 default-IsValid

-- Flow control: SETTINGS that shrink the window leave negative credit.
abbrev shrunk : FlowWindow
shrunk = record { size = negsuc 9; limit = pos (2 ^ 31 - 1) }

shrunk-IsValid : Flow.IsValid shrunk
shrunk-IsValid = ground arith

operations-IsValid_example :
    Flow.IsValid (Flow.consume shrunk (pos 5))
    × Flow.IsValid (Flow.increase shrunk 100).0
    × Flow.IsValid (Flow.release shrunk (pos 5))
operations-IsValid_example =
    operations-IsValid shrunk (pos 5) 100 shrunk-IsValid (ground arith) (omega arith)

-- Streams.
abbrev fresh : ℕ → Stream
fresh id =
    Streams.new_stream id (pos 65535) (pos 65535) (record { urgency = 3; incremental = false })

abbrev one_stream : StreamMap
one_stream = Streams.insert (Streams.new true) (fresh 1)

accepted-AscendingOdd_example :
    AscendingOdd 0 (accepted (3 ∷ 2 ∷ 1 ∷ 7 ∷ []) one_stream).0
    × (((accepted (3 ∷ 2 ∷ 1 ∷ 7 ∷ []) one_stream).0 ≡ 3 ∷ 2 ∷ 1 ∷ 7 ∷ [])
        ↔ AscendingOdd 0 (3 ∷ 2 ∷ 1 ∷ 7 ∷ []))
    × ((accepted (3 ∷ 2 ∷ 1 ∷ 7 ∷ []) (Streams.new true)).0
        ≡ (accepted (3 ∷ 2 ∷ 1 ∷ 7 ∷ []) (Streams.new false)).0)
unfolding Streams.insert Streams.new
accepted-AscendingOdd_example = accepted-AscendingOdd (3 ∷ 2 ∷ 1 ∷ 7 ∷ []) one_stream

-- On the table of a client, whose peer is a server with even identifiers.
even_refused_by_client : (accepted (2 ∷ 4 ∷ []) (Streams.new true)).0 ≡ []
unfolding Streams.new Streams.accept_peer_id
even_refused_by_client = refl

accepted_of_four : (accepted (3 ∷ 2 ∷ 1 ∷ 7 ∷ []) (Streams.new true)).0 ≡ 3 ∷ 7 ∷ []
unfolding Streams.new Streams.accept_peer_id
accepted_of_four = refl

one_stream-Counted : Counted one_stream
unfolding Streams.insert Streams.new Streams.new_stream
one_stream-Counted = record { ascending = (omega arith, tt); counted = refl }

three_absent : Streams.contains one_stream 3 ≡ false
unfolding Streams.contains Streams.insert Streams.new Streams.new_stream
three_absent = refl

operations-Counted_example :
    Counted (Streams.insert one_stream (fresh 3)) × Counted (Streams.remove one_stream 1).0
unfolding Streams.new_stream Streams.is_closed
operations-Counted_example =
    operations-Counted one_stream (fresh 3) 1 one_stream-Counted refl three_absent
