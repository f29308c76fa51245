-- ===== src/Ws/Utf8/Bytewise.antt =====
-- The bulk check of the validator (src/courierust_ws/utf8.rs) against its state machine.
use courierust.Base.{
  ℕ, zero, suc, ◌+◌, ◌<◌, ◌≤◌, ◌≡◌, refl, sym, ap, ◌∙◌, arith, true, Option, none, some, List, [],
  ◌∷◌, ◌==◌, ◌⊎◌, length, drop, Bool-cases, Option-cases, inl, inr, drop-add, drop_all, length-drop,
}
use mathlib.Core.Path.{subst}
use courierust.Ws.Utf8.{
  lead, feed_byte, Fed, fed, bad, table_row, follows, feed_bytes, char_len, valid_up_to, Finished,
  closed, broken, finish_open_character, bulk, feed,
}
use courierust.Ws.Utf8.Table.{awaits, lead-Opens, Opens, feed_bytes-follows}

follows-length :
    (rs : List (ℕ × ℕ)) (bytes : List ℕ) → follows rs bytes ≡ true → length rs ≤ length bytes
unfolding follows
follows-length [] bytes h = omega arith
follows-length (r ∷ rs) [] h = cc
follows-length (r ∷ rs) (b ∷ bytes) h = omega (arith, follows-length rs bytes (ground arith))

-- A first byte whose row is known.
pub feed_byte-row :
    (b i : ℕ) (rs : List (ℕ × ℕ))
    → table_row b ≡ some rs
    → (s : ℕ) × (feed_byte 0 b i ≡ fed s) × (awaits s ≡ rs) × (s < 8)
unfolding feed_byte
feed_byte-row b i rs row = opened (lead b) refl (subst (Opens (lead b)) row (lead-Opens b))
  where
    opened :
        (o : Option ℕ)
        → lead b ≡ o
        → Opens o (some rs)
        → (s : ℕ) × (feed_byte 0 b i ≡ fed s) × (awaits s ≡ rs) × (s < 8)
    opened none e h = absurd h
    opened (some s) e (h, small) = (s, ground arith, h, small)

-- A whole character leads from the ground state to the ground state.
pub feed_bytes-char :
    (i n : ℕ) (bytes : List ℕ)
    → char_len bytes ≡ some n
    → (feed_bytes 0 i bytes ≡ feed_bytes 0 (i + n) (drop n bytes)) × (n ≤ length bytes)
unfolding char_len
feed_bytes-char i n [] h = cc
feed_bytes-char i n (b ∷ bytes) h = elim (Option-cases (table_row b)) [
  | inl missing ↦ absurd (ground arith)
  | inr (rs, row) ↦ elim (Bool-cases (follows rs bytes)) [
    | inr cut ↦ absurd (ground arith)
    | inl whole ↦
        let (s, first, waits, small) = feed_byte-row b i rs row in
        let size : n ≡ suc (length rs) = ground arith in
        rw size (
          unfold feed_bytes in
              rw (first, feed_bytes)
                (feed_bytes-follows rs s (suc i) bytes waits small whole
                  ∙ ap (λ j. feed_bytes 0 j (drop (length rs) bytes)) (omega arith)),
          omega (arith, follows-length rs bytes whole),
        )
  ]
]

-- What is valid leads from the ground state to the ground state.
feed_bytes-valid :
    (fuel i : ℕ) (bytes : List ℕ)
    → (feed_bytes 0 i bytes
        ≡ feed_bytes 0 (i + valid_up_to fuel bytes) (drop (valid_up_to fuel bytes) bytes))
      × (valid_up_to fuel bytes ≤ length bytes)
unfolding valid_up_to
feed_bytes-valid zero i bytes = (ap (λ j. feed_bytes 0 j bytes) (omega arith), omega arith)
feed_bytes-valid (suc fuel) i bytes = elim (Option-cases (char_len bytes)) [
  | inl cut ↦ rw (cut, valid_up_to) (ap (λ j. feed_bytes 0 j bytes) (omega arith), omega arith)
  | inr (n, whole) ↦
      let (first, inside) = feed_bytes-char i n bytes whole in
      let (rest, within) = feed_bytes-valid fuel (i + n) (drop n bytes) in
      let more = valid_up_to fuel (drop n bytes) in
      rw (whole, valid_up_to)
        (
          first ∙ rest ∙ (λ t. feed_bytes 0 (regroup i n more t) (sym (drop-add n more bytes) t)),
          omega (arith, length-drop {0} n bytes),
        )
]
  where
    regroup : (i n m : ℕ) → i + n + m ≡ i + (n + m)
    regroup i n m = omega arith

-- The bulk check starts in the ground state or has no byte to check.
bulk-feed_bytes :
    (s i : ℕ) (bytes : List ℕ) → (s ≡ 0) ⊎ (bytes ≡ []) → bulk s i bytes ≡ feed_bytes s i bytes
unfolding bulk
bulk-feed_bytes s i bytes (inr e) = rw e (unfold feed_bytes in unfold valid_up_to in refl)
bulk-feed_bytes s i bytes (inl e) =
    let up_to = valid_up_to (length bytes) bytes in
    let (skipped, within) = feed_bytes-valid (length bytes) i bytes in
    rw e (elim (Bool-cases (up_to == length bytes)) [
      | inr part ↦ rw part (sym skipped)
      | inl whole ↦ rw whole (
          sym (
            skipped
            ∙ ap (λ n. feed_bytes 0 (i + up_to) (drop n bytes)) {x = up_to} {y = length bytes}
                (ground arith)
            ∙ ap (feed_bytes 0 (i + up_to)) (drop_all bytes)
            ∙ unfold feed_bytes in refl))
    ])

-- What finishing an open character leaves, against the state machine on all the bytes.
abbrev Finishes : ℕ → ℕ → List ℕ → Finished → Type 0
Finishes s i bytes (closed s' start rest) =
    (feed_bytes s i bytes ≡ feed_bytes s' start rest) × ((s' ≡ 0) ⊎ (rest ≡ []))
Finishes s i bytes (broken s' e) = feed_bytes s i bytes ≡ bad s' e

Finishes-same :
    (s i s' j : ℕ) (xs ys : List ℕ) (f : Finished)
    → feed_bytes s i xs ≡ feed_bytes s' j ys
    → Finishes s' j ys f
    → Finishes s i xs f
Finishes-same s i s' j xs ys (closed s'' k rest) same h = (same ∙ h.0, h.1)
Finishes-same s i s' j xs ys (broken s'' e) same h = same ∙ h

finish-Finishes : (s i : ℕ) (bytes : List ℕ) → Finishes s i bytes (finish_open_character s i bytes)
unfolding finish_open_character
finish-Finishes s i [] = (refl, inr refl)
finish-Finishes s i (b ∷ bytes) = elim (Bool-cases (s == 0)) [
  | inl ground_state ↦ rw (ground_state, finish_open_character) (refl, inl (ground arith))
  | inr opened ↦
      rw (opened, finish_open_character)
        (step (feed_byte s b i) refl (λ s'. finish-Finishes s' (suc i) bytes))
]
  where
    step :
        (f : Fed)
        → feed_byte s b i ≡ f
        → ((s' : ℕ) → Finishes s' (suc i) bytes (finish_open_character s' (suc i) bytes))
        → Finishes s i
            (b ∷ bytes)
            (elim f [ fed s' ↦ finish_open_character s' (suc i) bytes | bad s' e ↦ broken s' e ])
    step (fed s') e go =
        Finishes-same s i s' (suc i) (b ∷ bytes) bytes (finish_open_character s' (suc i) bytes)
          (unfold feed_bytes in rw (e, feed_bytes) refl) (go s')
    step (bad s' x) e go = unfold feed_bytes in rw (e, feed_bytes) refl

-- The check in bulk gives exactly what the state machine gives on every byte: the same state, or the
-- same error at the same offset.
pub feed-feed_bytes : (s : ℕ) (bytes : List ℕ) → feed s bytes ≡ feed_bytes s 0 bytes
unfolding feed
feed-feed_bytes s bytes = elim (Bool-cases (s == 0)) [
  | inl ground_state ↦ rw ground_state (bulk-feed_bytes s 0 bytes (inl (ground arith)))
  | inr opened ↦ rw opened (finished (finish_open_character s 0 bytes) (finish-Finishes s 0 bytes))
]
  where
    finished :
        (f : Finished)
        → Finishes s 0 bytes f
        → (elim f [ closed s' start rest ↦ bulk s' start rest | broken s' e ↦ bad s' e ])
          ≡ feed_bytes s 0 bytes
    finished (closed s' start rest) (same, stop) = bulk-feed_bytes s' start rest stop ∙ sym same
    finished (broken s' e) same = sym same
