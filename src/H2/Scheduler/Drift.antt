-- ===== src/H2/Scheduler/Drift.antt =====
-- What a turn of `next` does to the queues and the count.
use courierust.Base.{
  ℕ, ◌+◌, ◌≡◌, refl, ap, ◌∙◌, arith, some, List, [], ◌∷◌, map, length, leb, inl, inr, ◌⊎◌,
  Bool-cases, Option-cases, All,
}
use courierust.H2.Scheduler.{
  Bucket, Scheduler, charged, serve, serve_or, serve_first, scan, any_waiting, reset, next,
  next_round,
}
use courierust.H2.Scheduler.Counts.{queued, IsCounted}
use courierust.H2.Scheduler.Service.{OnlyOrdered}
use mathlib.Core.Path.{subst}
use mathlib.Core.Option.{some-injective}

-- Two buckets with the same queues.
abbrev pub SameQueues : Bucket → Bucket → Type 0
SameQueues b c = (b.non_incremental ≡ c.non_incremental) × (b.incremental ≡ c.incremental)

-- Two tables with the same queues.
abbrev pub AllSame : List Bucket → List Bucket → Type 0
AllSame [] [] = Unit
AllSame (b ∷ bs) (c ∷ cs) = SameQueues b c × AllSame bs cs
AllSame _ _ = ⊥

-- The first stream of a bucket's non-incremental queue, `sid`, is gone.
abbrev pub FrontTaken : ℕ → Bucket → Bucket → Type 0
FrontTaken sid b c = (b.non_incremental ≡ sid ∷ c.non_incremental) × (b.incremental ≡ c.incremental)

-- It is gone from one bucket, and the queues of all others are as they were.
abbrev pub Taken : ℕ → List Bucket → List Bucket → Type 0
Taken sid (b ∷ bs) (c ∷ cs) =
    (FrontTaken sid b c × AllSame bs cs) ⊎ (SameQueues b c × Taken sid bs cs)
Taken sid _ _ = ⊥

AllSame-refl : (bs : List Bucket) → AllSame bs bs
AllSame-refl [] = tt
AllSame-refl (b ∷ bs) = ((refl, refl), AllSame-refl bs)

FrontTaken-serve_first :
    (want : ℕ) (b : Bucket) (q : List ℕ) (sid : ℕ) (c : Bucket)
    → b.non_incremental ≡ q
    → serve_first want b q ≡ some (sid, c)
    → FrontTaken sid b c
FrontTaken-serve_first want b [] sid c e h = cc
FrontTaken-serve_first want b (x ∷ q) sid c e h =
    elim (Bool-cases (leb (charged want b) b.quantum)) [
      | inl fits ↦
          let served = some-injective _ _ (rw fits at h) in
          (
            e ∙ ap (λ turn. turn.0 ∷ turn.1.non_incremental) served,
            ap (λ turn. turn.1.incremental) served,
          )
      | inr full ↦ cc (rw full at h)
    ]

FrontTaken-serve_or :
    (want : ℕ) (b : Bucket) (q : List ℕ) (sid : ℕ) (c : Bucket)
    → q ≡ []
    → serve_or want b q ≡ some (sid, c)
    → FrontTaken sid b c
FrontTaken-serve_or want b [] sid c e h =
    FrontTaken-serve_first want b b.non_incremental sid c refl h
FrontTaken-serve_or want b (x ∷ q) sid c e h = cc

Taken-scan :
    (want : ℕ) (bs : List Bucket) (sid : ℕ) (more : List Bucket)
    → All OnlyOrdered bs
    → scan want bs ≡ some (sid, more)
    → Taken sid bs more
Taken-scan want [] sid more a h = cc
Taken-scan want (b ∷ bs) sid more (ordered, a) h = elim (Option-cases (serve want b)) [
  | inr ((id, b'), p) ↦
      let served = some-injective _ _ (rw (p, scan) at h) in
      subst (λ turn. Taken turn.0 (b ∷ bs) turn.1) served
        (inl (FrontTaken-serve_or want b b.incremental id b' ordered p, AllSame-refl bs))
  | inl p ↦ elim (Option-cases (scan want bs)) [
    | inl q ↦ cc (rw (p, q, scan) at h)
    | inr ((id, rest), q) ↦
        let served = some-injective _ _ (rw (p, q, scan) at h) in
        subst (λ turn. Taken turn.0 (b ∷ bs) turn.1) served
          (inr ((refl, refl), Taken-scan want bs id rest a q))
  ]
]

-- The reset of the deficits leaves the queues alone.
AllSame-reset : (bs cs : List Bucket) → AllSame (map reset bs) cs → AllSame bs cs
AllSame-reset [] [] h = h
AllSame-reset (b ∷ bs) (c ∷ cs) (same, h) = (same, AllSame-reset bs cs h)
AllSame-reset [] (c ∷ cs) h = absurd h
AllSame-reset (b ∷ bs) [] h = absurd h

Taken-reset : (sid : ℕ) (bs cs : List Bucket) → Taken sid (map reset bs) cs → Taken sid bs cs
Taken-reset sid [] cs h = absurd h
Taken-reset sid (b ∷ bs) [] h = absurd h
Taken-reset sid (b ∷ bs) (c ∷ cs) (inl (front, h)) = inl (front, AllSame-reset bs cs h)
Taken-reset sid (b ∷ bs) (c ∷ cs) (inr (same, h)) = inr (same, Taken-reset sid bs cs h)

OnlyOrdered-reset : (bs : List Bucket) → All OnlyOrdered bs → All OnlyOrdered (map reset bs)
OnlyOrdered-reset [] a = tt
OnlyOrdered-reset (b ∷ bs) (ordered, a) = (ordered, OnlyOrdered-reset bs a)

queued-AllSame : (bs cs : List Bucket) → AllSame bs cs → queued bs ≡ queued cs
queued-AllSame [] [] h = refl
queued-AllSame (b ∷ bs) (c ∷ cs) ((ordered, turns), h) =
    omega (arith, ap length ordered, ap length turns, queued-AllSame bs cs h)
queued-AllSame [] (c ∷ cs) h = absurd h
queued-AllSame (b ∷ bs) [] h = absurd h

-- One stream fewer is queued.
queued-Taken : (sid : ℕ) (bs cs : List Bucket) → Taken sid bs cs → queued bs ≡ queued cs + 1
queued-Taken sid [] cs h = absurd h
queued-Taken sid (b ∷ bs) [] h = absurd h
queued-Taken sid (b ∷ bs) (c ∷ cs) (inl ((front, turns), h)) =
    omega (arith, ap length front, ap length turns, queued-AllSame bs cs h)
queued-Taken sid (b ∷ bs) (c ∷ cs) (inr ((ordered, turns), h)) =
    omega (arith, ap length ordered, ap length turns, queued-Taken sid bs cs h)

-- The table after the turn, and the count that did not move.
next-Taken :
    (s : Scheduler) (want sid : ℕ)
    → All OnlyOrdered s.buckets
    → (next s want).1 ≡ some sid
    → Taken sid s.buckets (next s want).0.buckets × ((next s want).0.count ≡ s.count)
unfolding next
next-Taken s want sid a h = elim (Option-cases (scan want s.buckets)) [
  | inr ((id, bs), p) ↦
      let same = some-injective _ _ (rw (p, next) at h) in
      rw (p, next)
        (subst (λ k. Taken k s.buckets bs) same (Taken-scan want s.buckets id bs a p), refl)
  | inl p ↦ elim (Bool-cases (any_waiting s.buckets)) [
    | inr idle ↦ cc (rw (p, next, idle) at h)
    | inl waiting ↦ elim (Option-cases (scan want (map reset s.buckets))) [
      | inl q ↦ cc (rw (p, next, waiting, q, next_round) at h)
      | inr ((id, bs), q) ↦
          let same = some-injective _ _ (rw (p, next, waiting, q, next_round) at h) in
          let taken =
            Taken-scan want (map reset s.buckets) id bs (OnlyOrdered-reset s.buckets a) q in
          rw (p, next, waiting, q, next_round)
            (subst (λ k. Taken k s.buckets bs) same (Taken-reset id s.buckets bs taken), refl)
    ]
  ]
]

-- Without incremental streams, a turn takes the stream that it serves from the front of a bucket's
-- queue, and leaves all other queues and the count as they were: from a table that is counted, it
-- ends in one whose count is one too high.
pub queued-next :
    (s : Scheduler) (want sid : ℕ)
    → IsCounted s
    → All OnlyOrdered s.buckets
    → (next s want).1 ≡ some sid
    → Taken sid s.buckets (next s want).0.buckets
      × ((next s want).0.count ≡ s.count)
      × ((next s want).0.count ≡ queued (next s want).0.buckets + 1)
queued-next s want sid v a h =
    let (taken, same) = next-Taken s want sid a h in
    (taken, same, omega (arith, v, same, queued-Taken sid s.buckets (next s want).0.buckets taken))
