-- ===== src/H2/Streams/Identifiers.antt =====
-- The stream identifiers that are handed out and accepted.
use mathlib.Core.Path.{subst}
use courierust.Base.{
  ℕ, true, false, ap, sym, ◌∙◌, ◌↔◌, zero, suc, ◌+◌, ◌%◌, ◌≤◌, ◌<◌, ◌≡◌, refl, Option, none, some,
  List, [], ◌∷◌, arith, leb, ◌==◌, if◌then◌else◌, inl, inr, Bool-cases, bit_and,
}
use courierust.Base.Bits.{bit_and_mask}
use courierust.H2.Streams.{StreamMap, new, allocate_client_id, accept_peer_id}

-- The identifiers that `n` calls of `allocate_client_id` return, and the table afterwards.
abbrev pub allocations : ℕ → StreamMap → List (Option ℕ) × StreamMap
allocations zero m = ([], m)
allocations (suc n) m =
    let (m', id) = allocate_client_id m in let (ids, last) = allocations n m' in (id ∷ ids, last)

-- Each identifier is `start`, `start + 2` and so on while 31 bits hold it, and `none` from then on.
abbrev pub Counts : ℕ → List (Option ℕ) → Type 0
Counts start [] = Unit
Counts start (o ∷ os) =
    (o ≡ (if leb start 0x7fff_ffff then some start else none)) × Counts (start + 2) os

-- The counter stands at `start`, or both are past the last identifier of 31 bits.
abbrev Tracks : ℕ → ℕ → Type 0
Tracks start next =
    (start ≤ 0x7fff_ffff → next ≡ start) × (0x7fff_ffff < start → 0x7fff_ffff < next)

allocate_client_id-Tracks :
    (start : ℕ) (m : StreamMap)
    → Tracks start m.next_client_id
    → ((allocate_client_id m).1 ≡ (if leb start 0x7fff_ffff then some start else none))
      × Tracks (start + 2) (allocate_client_id m).0.next_client_id
unfolding allocate_client_id
allocate_client_id-Tracks start m (low, high) = elim (Bool-cases (leb start 0x7fff_ffff)) [
  | inl p ↦ ground (arith, low)
  | inr p ↦ ground (arith, high)
]

allocations-Tracks :
    (n start : ℕ) (m : StreamMap) → Tracks start m.next_client_id → Counts start (allocations n m).0
allocations-Tracks zero start m t = tt
allocations-Tracks (suc n) start m t =
    let (id, t') = allocate_client_id-Tracks start m t in
    (id, allocations-Tracks n (start + 2) (allocate_client_id m).0 t')

-- A run of allocations hands out every second identifier from the counter's value on, none twice,
-- up to the last one of 31 bits, and nothing after it.
pub allocations-Counts : (n : ℕ) (m : StreamMap) → Counts m.next_client_id (allocations n m).0
allocations-Counts n m = allocations-Tracks n m.next_client_id m (λ h. refl, λ h. h)

-- The identifiers of a sequence from the peer that are accepted, and the table afterwards.
abbrev pub accepted : List ℕ → StreamMap → List ℕ × StreamMap
accepted [] m = ([], m)
accepted (id ∷ ids) m =
    let (m', ok) = accept_peer_id m id in
    let (more, last) = accepted ids m' in (if ok then id ∷ more else more, last)

-- Odd numbers in strictly ascending order, above `low`.
abbrev pub AscendingOdd : ℕ → List ℕ → Type 0
AscendingOdd low [] = Unit
AscendingOdd low (id ∷ ids) = (low < id) × (id % 2 ≡ 1) × AscendingOdd id ids

AscendingOdd-accepted :
    (ids : List ℕ) (m : StreamMap) → AscendingOdd m.last_peer_id (accepted ids m).0
unfolding accept_peer_id
AscendingOdd-accepted [] m = tt
AscendingOdd-accepted (id ∷ ids) m = elim (Bool-cases (bit_and id 1 == 0)) [
  | inl even ↦ rw even (AscendingOdd-accepted ids m)
  | inr odd ↦ elim (Bool-cases (leb id m.last_peer_id)) [
    | inl old ↦ rw (odd, old) (AscendingOdd-accepted ids m)
    | inr fresh ↦
        rw (odd, fresh)
          (
            ground (arith, fresh),
            ground (arith, odd, bit_and_mask 1 id),
            AscendingOdd-accepted ids (record m { last_peer_id = id }),
          )
  ]
]

accepted_all :
    (ids : List ℕ) (m : StreamMap) → AscendingOdd m.last_peer_id ids → (accepted ids m).0 ≡ ids
unfolding accept_peer_id
accepted_all [] m h = refl
accepted_all (id ∷ ids) m (above, odd, more) =
    rw (is_odd, is_fresh)
      (ap (λ t. id ∷ t) (accepted_all ids (record m { last_peer_id = id }) more))
  where
    is_odd : (bit_and id 1 == 0) ≡ false
    is_odd = ground (arith, odd, bit_and_mask 1 id)

    is_fresh : leb id m.last_peer_id ≡ false
    is_fresh = ground (arith, above)

-- Nothing of a table but the highest identifier is looked at.
accepted_same :
    (ids : List ℕ) (m n : StreamMap)
    → m.last_peer_id ≡ n.last_peer_id
    → (accepted ids m).0 ≡ (accepted ids n).0
unfolding accept_peer_id
accepted_same [] m n h = refl
accepted_same (id ∷ ids) m n h = elim (Bool-cases (bit_and id 1 == 0)) [
  | inl even ↦ rw even (accepted_same ids m n h)
  | inr odd ↦ elim (Bool-cases (leb id m.last_peer_id)) [
    | inl old ↦ rw (odd, old, ap (leb id) (sym h) ∙ old) (accepted_same ids m n h)
    | inr fresh ↦
        rw (odd, fresh, ap (leb id) (sym h) ∙ fresh)
          (ap (λ t. id ∷ t)
            (accepted_same ids (record m { last_peer_id = id }) (record n { last_peer_id = id })
              refl))
  ]
]

-- On a table of either role: of any sequence of identifiers from the peer, those that are accepted
-- are odd and ascend strictly from the highest one seen before, and the whole sequence is accepted
-- exactly if it is of this kind. The new table of a client accepts what that of a server does.
pub accepted-AscendingOdd :
    (ids : List ℕ) (m : StreamMap)
    → AscendingOdd m.last_peer_id (accepted ids m).0
      × (((accepted ids m).0 ≡ ids) ↔ AscendingOdd m.last_peer_id ids)
      × ((accepted ids (new true)).0 ≡ (accepted ids (new false)).0)
accepted-AscendingOdd ids m = (
  AscendingOdd-accepted ids m,
  (λ h. subst (AscendingOdd m.last_peer_id) h (AscendingOdd-accepted ids m), accepted_all ids m),
  accepted_same ids (new true) (new false) (unfold new in refl),
)
