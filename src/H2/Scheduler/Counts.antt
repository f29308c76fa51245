-- ===== src/H2/Scheduler/Counts.antt =====
-- The count of the scheduler, and the streams in its queues.
use courierust.Base.{
  ℕ, zero, suc, ◌+◌, ◌≡◌, sym, ap, arith, Bool, true, false, some, List, [], ◌∷◌, length,
  length-append, get_elem?, set, inl, inr, Bool-cases, Option-cases,
}
use courierust.H2.Streams.{Priority}
use courierust.H2.Scheduler.{
  Bucket, Scheduler, enqueue, add, take_out, remove_from, remove, update, same_priority,
}
use mathlib.Core.Option.{some-injective}

abbrev pub held : Bucket → ℕ
held b = length b.non_incremental + length b.incremental

-- The streams in all queues.
abbrev pub queued : List Bucket → ℕ
queued [] = 0
queued (b ∷ bs) = held b + queued bs

held-enqueue : (id : ℕ) (flag : Bool) (b : Bucket) → held (enqueue id flag b) ≡ held b + 1
held-enqueue id true b = omega (arith, length-append b.incremental (id ∷ []))
held-enqueue id false b = omega (arith, length-append b.non_incremental (id ∷ []))

queued-set :
    (bs : List Bucket) (u : ℕ) (b b' : Bucket)
    → get_elem? bs u ≡ some b
    → held b' ≡ held b + 1
    → queued (set bs u b') ≡ queued bs + 1
queued-set [] u b b' h e = cc
queued-set (c ∷ bs) zero b b' h e = ground (arith, ap held (some-injective _ _ h))
queued-set (c ∷ bs) (suc u) b b' h e = omega (arith, queued-set bs u b b' h e)

length-take_out :
    (id : ℕ) (xs rest : List ℕ) → take_out id xs ≡ some rest → suc (length rest) ≡ length xs
length-take_out id [] rest h = cc
length-take_out id (x ∷ xs) rest h = elim (Option-cases (take_out id xs)) [
  | inl p ↦ ground (arith, rw p at h)
  | inr (more, p) ↦ ground (arith, rw p at h, length-take_out id xs more p)
]

queued-remove_from :
    (id : ℕ) (bs more : List Bucket) → remove_from id bs ≡ some more → suc (queued more) ≡ queued bs
queued-remove_from id [] more h = cc
queued-remove_from id (b ∷ bs) more h = elim (Option-cases (take_out id b.non_incremental)) [
  | inr (rest, p) ↦
      ground (arith, rw (p, remove_from) at h, length-take_out id b.non_incremental rest p)
  | inl p ↦ elim (Option-cases (take_out id b.incremental)) [
    | inr (rest, q) ↦
        ground (arith, rw (p, q, remove_from) at h, length-take_out id b.incremental rest q)
    | inl q ↦ elim (Option-cases (remove_from id bs)) [
      | inr (rest, r) ↦
          ground (arith, rw (p, q, r, remove_from) at h, queued-remove_from id bs rest r)
      | inl r ↦ ground (arith, rw (p, q, r, remove_from) at h)
    ]
  ]
]

-- The count is the number of streams in the queues.
abbrev pub IsCounted : Scheduler → Type 0
IsCounted s = s.count ≡ queued s.buckets

add-IsCounted :
    (s : Scheduler) (id : ℕ) (p : Priority) (s' : Scheduler)
    → IsCounted s
    → add s id p ≡ some s'
    → IsCounted s'
unfolding add
add-IsCounted s id p s' v h = elim (Option-cases (get_elem? s.buckets p.urgency)) [
  | inl q ↦ cc (rw (q, add) at h)
  | inr (b, q) ↦
      let s'_is = some-injective _ _ (rw (q, add) at h) in
      rw (sym s'_is) (
        omega (
          arith,
          v,
          queued-set s.buckets p.urgency b (enqueue id p.incremental b) q
              (held-enqueue id p.incremental b),
        ))
]

remove-IsCounted : (s : Scheduler) (id : ℕ) → IsCounted s → IsCounted (remove s id)
unfolding remove
remove-IsCounted s id v = elim (Option-cases (remove_from id s.buckets)) [
  | inl p ↦ rw (p, remove) v
  | inr (bs, p) ↦ rw (p, remove) (omega (arith, v, queued-remove_from id s.buckets bs p))
]

-- Adding, removing and moving a stream keep the count equal to the number of queued streams, where
-- the urgencies have a bucket.
pub changes-IsCounted :
    (s : Scheduler) (id : ℕ) (p q : Priority) (added moved : Scheduler)
    → IsCounted s
    → add s id p ≡ some added
    → update s id p q ≡ some moved
    → IsCounted added × IsCounted (remove s id) × IsCounted moved
unfolding update
changes-IsCounted s id p q added moved v ha hm = (
  add-IsCounted s id p added v ha,
  remove-IsCounted s id v,
  elim (Bool-cases (same_priority p q)) [
    | inl e ↦ rw (sym (some-injective _ _ (rw e at hm))) v
    | inr e ↦ add-IsCounted (remove s id) id q moved (remove-IsCounted s id v) (rw e at hm)
  ],
)
