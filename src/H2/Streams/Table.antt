-- ===== src/H2/Streams/Table.antt =====
-- The table of streams: its order, and the count of open streams.
use courierust.Base.{
  ℕ, suc, ◌≤◌, ◌≡◌, refl, false, none, some, List, [], ◌∷◌, length, arith, ltb, ◌==◌, inl, inr,
  Bool-cases, Option-cases, ==_iff,
}
use courierust.H2.Streams.{
  Stream, StreamMap, is_closed, lookup, put, delete, insert, remove, contains,
}

-- The identifiers ascend strictly, from above `low` on.
abbrev pub Ascends : ℕ → List Stream → Type 0
Ascends low [] = Unit
Ascends low (s ∷ ss) = (low ≤ s.id) × Ascends (suc s.id) ss

put-Ascends :
    (low : ℕ) (s : Stream) (ss : List Stream) → low ≤ s.id → Ascends low ss → Ascends low (put s ss)
put-Ascends low s [] h a = (h, tt)
put-Ascends low s (t ∷ ts) h (above, a) = elim (Bool-cases (ltb s.id t.id)) [
  | inl p ↦ rw p (h, (ground (arith, p), a))
  | inr p ↦ elim (Bool-cases (s.id == t.id)) [
    | inl q ↦ rw (p, q) (h, rw ((==_iff _ _).0 q) a)
    | inr q ↦ rw (p, q) (above, put-Ascends (suc t.id) s ts (ground (arith, p, q)) a)
  ]
]

delete-Ascends : (low id : ℕ) (ss : List Stream) → Ascends low ss → Ascends low (delete id ss)
delete-Ascends low id [] a = tt
delete-Ascends low id (t ∷ ts) (above, a) = elim (Bool-cases (t.id == id)) [
  | inl p ↦ rw p (lower (suc t.id) low ts (omega arith) a)
  | inr p ↦ rw p (above, delete-Ascends (suc t.id) id ts a)
]
  where
    lower : (high low : ℕ) (ss : List Stream) → low ≤ high → Ascends high ss → Ascends low ss
    lower high low [] h a = tt
    lower high low (s ∷ ss) h (above, a) = (omega arith, a)

length-put :
    (s : Stream) (ss : List Stream) → lookup s.id ss ≡ none → length (put s ss) ≡ suc (length ss)
length-put s [] h = refl
length-put s (t ∷ ts) h = ground (arith, length-put s ts)

length-delete :
    (id : ℕ) (s : Stream) (ss : List Stream)
    → lookup id ss ≡ some s
    → suc (length (delete id ss)) ≡ length ss
length-delete id s [] h = cc
length-delete id s (t ∷ ts) h = ground (arith, length-delete id s ts)

not_contained : (m : StreamMap) (id : ℕ) → contains m id ≡ false → lookup id m.streams ≡ none
unfolding contains
not_contained m id h = ground arith

-- The streams ascend, and all of them are counted as open.
pub record Counted (m : StreamMap) : Type 0 where
  pub ascending : Ascends 0 m.streams
  pub counted : m.open_count ≡ length m.streams

-- Insertion of a stream that is not closed, under an identifier that is not in the table, and
-- removal of any identifier keep the count equal to the number of streams.
pub operations-Counted :
    (m : StreamMap) (s : Stream) (id : ℕ)
    → Counted m
    → is_closed s ≡ false
    → contains m s.id ≡ false
    → Counted (insert m s) × Counted (remove m id).0
operations-Counted m s id v alive fresh = (
  record {
    ascending = unfold insert in put-Ascends 0 s m.streams (omega arith) v.ascending;
    counted = unfold insert in rw alive (omega (arith, v.counted, length-put s m.streams absent));
  },
  removed,
)
  where
    absent : lookup s.id m.streams ≡ none
    absent = not_contained m s.id fresh

    removed : Counted (remove m id).0
    removed = elim (Option-cases (lookup id m.streams)) [
      | inl p ↦ unfold remove in rw (p, remove) v
      | inr (t, p) ↦
          unfold remove in
          rw (p, remove)
            (record {
              ascending = delete-Ascends 0 id m.streams v.ascending;
              counted = omega (arith, v.counted, length-delete id t m.streams p);
            })
    ]
