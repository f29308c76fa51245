-- ===== src/Tests/SchedulerTests.antt =====
-- Tests of src/courierust_h2/priority.rs.
use courierust.Base.{ℕ, ◌+◌, ◌≡◌, refl, arith, false, some, none, [], ◌∷◌, ◌++◌, map}
use courierust.H2.Streams.{Priority}
use courierust.H2.Scheduler
use courierust.H2.Scheduler.{Bucket, new_bucket}
use courierust.H2.Scheduler.Counts.{IsCounted, queued, changes-IsCounted}
use courierust.H2.Scheduler.Service.{next_serves}
use courierust.H2.Scheduler.Drift.{Taken, queued-next}
use courierust.H2.Scheduler.Turns.{turns, with_incremental, turns_round_robin}

abbrev ordered : ℕ → Priority
ordered urgency = record { urgency = urgency; incremental = false }

abbrev idle_bucket : Bucket
idle_bucket = new_bucket 1000

-- Stream 1 at urgency 0 and stream 2 at urgency 1, in a scheduler of two buckets.
abbrev two_streams : Scheduler.Scheduler
two_streams = record {
  buckets =
      record idle_bucket { non_incremental = 1 ∷ [] }
      ∷ record idle_bucket { non_incremental = 2 ∷ [] }
      ∷ [];
  count = 2;
  rounds = 0;
}

abbrev again : Scheduler.Scheduler
again = record {
  buckets =
      record idle_bucket { non_incremental = 1 ∷ 1 ∷ [] }
      ∷ record idle_bucket { non_incremental = 2 ∷ [] }
      ∷ [];
  count = 3;
  rounds = 0;
}

abbrev moved : Scheduler.Scheduler
moved = record {
  buckets = idle_bucket ∷ record idle_bucket { non_incremental = 2 ∷ 1 ∷ [] } ∷ [];
  count = 2;
  rounds = 0;
}

adds_first : Scheduler.add two_streams 1 (ordered 0) ≡ some again
unfolding Scheduler.add
adds_first = refl

no_bucket : Scheduler.add two_streams 3 (ordered 8) ≡ none
unfolding Scheduler.add
no_bucket = refl

moves_first : Scheduler.update two_streams 1 (ordered 0) (ordered 1) ≡ some moved
unfolding Scheduler.update Scheduler.add Scheduler.remove
moves_first = refl

changes-IsCounted_example :
    IsCounted again × IsCounted (Scheduler.remove two_streams 1) × IsCounted moved
changes-IsCounted_example =
    changes-IsCounted two_streams 1 (ordered 0) (ordered 1) again moved refl adds_first moves_first

next_serves_example : (sid : ℕ) × ((Scheduler.next two_streams 100).1 ≡ some sid)
next_serves_example = next_serves two_streams 100 (omega arith) (omega arith)

first_served : (Scheduler.next two_streams 100).1 ≡ some 1
unfolding Scheduler.next
first_served = refl

-- The most urgent queue has used its quantum up: the less urgent one is served.
second_served :
    (Scheduler.next
      (record two_streams {
        buckets =
            record idle_bucket { non_incremental = 1 ∷ []; deficit = 950 }
            ∷ record idle_bucket { non_incremental = 2 ∷ [] }
            ∷ [];
      })
      100).1
    ≡ some 2
unfolding Scheduler.next
second_served = refl

queued-next_example :
    Taken 1 two_streams.buckets (Scheduler.next two_streams 100).0.buckets
    × ((Scheduler.next two_streams 100).0.count ≡ two_streams.count)
    × ((Scheduler.next two_streams 100).0.count
        ≡ queued (Scheduler.next two_streams 100).0.buckets + 1)
queued-next_example = queued-next two_streams 100 1 refl (refl, (refl, tt)) first_served

turns_round_robin_example :
    turns 2 100 (with_incremental two_streams idle_bucket (idle_bucket ∷ []) ((4 ∷ 5 ∷ []) ++ []))
    ≡ (
      map some (4 ∷ 5 ∷ []),
      with_incremental two_streams idle_bucket (idle_bucket ∷ []) ([] ++ (4 ∷ 5 ∷ [])),
    )
turns_round_robin_example =
    turns_round_robin two_streams idle_bucket (idle_bucket ∷ []) 100 (4 ∷ 5 ∷ []) []
