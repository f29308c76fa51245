-- ===== src/H2/Scheduler/Service.antt =====
-- `next`: what is served, and what becomes of the queues.
use courierust.Base.{
  ℕ, ◌%◌, ◌^◌, ◌≤◌, ◌<◌, ◌≡◌, refl, ap, arith, true, false, none, some, List, [], ◌∷◌, map, length,
  leb, inl, inr, Bool-cases, Option-cases, All,
}
use courierust.H2.Scheduler.{
  Bucket, Scheduler, charged, serve, serve_or, serve_first, scan, is_nonempty, any_waiting, reset,
  next, next_round,
}
use courierust.H2.Scheduler.Counts.{queued}

-- A bucket without incremental streams, and one whose quantum has room for a frame.
abbrev pub OnlyOrdered : Bucket → Type 0
OnlyOrdered b = b.incremental ≡ []

abbrev pub HasRoom : ℕ → Bucket → Type 0
HasRoom want b = want % 2 ^ 32 ≤ b.quantum

unserved_or : (want : ℕ) (b : Bucket) (q : List ℕ) → serve_or want b q ≡ none → q ≡ []
unserved_or want b [] h = refl
unserved_or want b (sid ∷ q) h = cc

scan-none-OnlyOrdered : (want : ℕ) (bs : List Bucket) → scan want bs ≡ none → All OnlyOrdered bs
scan-none-OnlyOrdered want [] h = tt
scan-none-OnlyOrdered want (b ∷ bs) h = elim (Option-cases (serve want b)) [
  | inr (turn, p) ↦ cc (rw (p, scan) at h)
  | inl p ↦ elim (Option-cases (scan want bs)) [
    | inr (more, q) ↦ cc (rw (p, q, scan) at h)
    | inl q ↦ (unserved_or want b b.incremental p, scan-none-OnlyOrdered want bs q)
  ]
]

empty_queue : (xs : List ℕ) → is_nonempty xs ≡ false → length xs ≡ 0
empty_queue [] h = refl
empty_queue (x ∷ xs) h = cc

waits : (bs : List Bucket) → All OnlyOrdered bs → 0 < queued bs → any_waiting bs ≡ true
waits [] a h = absurd (omega arith)
waits (b ∷ bs) (ordered, a) h = elim (Bool-cases (is_nonempty b.non_incremental)) [
  | inl p ↦ rw p refl
  | inr p ↦ rw p (waits bs a (omega (arith, empty_queue b.non_incremental p, ap length ordered)))
]

served_first :
    (want : ℕ) (b : Bucket) (q : List ℕ)
    → HasRoom want b
    → is_nonempty q ≡ true
    → (turn : ℕ × Bucket) × (serve_first want (reset b) q ≡ some turn)
served_first want b [] room h = cc
served_first want b (sid ∷ q) room h = rw fits (_, refl)
  where
    fits : leb (charged want (reset b)) b.quantum ≡ true
    fits = ground arith

served_or :
    (want : ℕ) (b : Bucket) (q : List ℕ)
    → HasRoom want b
    → is_nonempty b.non_incremental ≡ true
    → (turn : ℕ × Bucket) × (serve_or want (reset b) q ≡ some turn)
served_or want b [] room h = served_first want b b.non_incremental room h
served_or want b (sid ∷ q) room h = (_, refl)

scan_served :
    (want : ℕ) (bs : List Bucket)
    → any_waiting bs ≡ true
    → All (HasRoom want) bs
    → (turn : ℕ × List Bucket) × (scan want (map reset bs) ≡ some turn)
scan_served want [] h a = cc
scan_served want (b ∷ bs) h (room, a) = elim (Bool-cases (is_nonempty b.non_incremental)) [
  | inl p ↦ let (turn, q) = served_or want b b.incremental room p in rw (q, scan) (_, refl)
  | inr p ↦ elim (Option-cases (serve_or want (reset b) b.incremental)) [
    | inr (turn, q) ↦ rw (q, scan) (_, refl)
    | inl q ↦ let (turn, r) = scan_served want bs (rw p at h) a in rw (q, r, scan) (_, refl)
  ]
]

-- Where a stream is queued and every quantum has room for the frame, `next` serves a stream.
pub next_serves :
    (s : Scheduler) (want : ℕ)
    → 0 < queued s.buckets
    → All (HasRoom want) s.buckets
    → (sid : ℕ) × ((next s want).1 ≡ some sid)
unfolding next
next_serves s want h room = elim (Option-cases (scan want s.buckets)) [
  | inr ((sid, bs), p) ↦ rw (p, next) (sid, refl)
  | inl p ↦
      let waiting = waits s.buckets (scan-none-OnlyOrdered want s.buckets p) h in
      let ((sid, bs), q) = scan_served want s.buckets waiting room in
      rw (p, next, waiting, q, next_round) (sid, refl)
]
