-- ===== src/H2/Scheduler/Turns.antt =====
-- Runs of turns where the most urgent bucket has incremental streams.
use courierust.Base.{
  ℕ, zero, suc, ◌≡◌, refl, ap, ◌∙◌, sym, Option, some, List, [], ◌∷◌, ◌++◌, map, length,
}
use courierust.H2.Scheduler.{Bucket, Scheduler, next}
use mathlib.Core.List.{append-nil, append_assoc}

-- What `n` calls of `next` return, and the scheduler afterwards.
abbrev pub turns : ℕ → ℕ → Scheduler → List (Option ℕ) × Scheduler
turns zero want s = ([], s)
turns (suc n) want s =
    let (s', served) = next s want in let (more, last) = turns n want s' in (served ∷ more, last)

abbrev pub with_incremental : Scheduler → Bucket → List Bucket → List ℕ → Scheduler
with_incremental s b bs q = record s { buckets = record b { incremental = q } ∷ bs }

next_incremental :
    (s : Scheduler) (b : Bucket) (bs : List Bucket) (want x : ℕ) (q : List ℕ)
    → next (with_incremental s b bs (x ∷ q)) want
      ≡ (with_incremental s b bs (q ++ (x ∷ [])), some x)
unfolding next
next_incremental s b bs want x q = refl

-- The incremental streams of the most urgent bucket are served in their order, one turn each, and
-- stand behind those that were not served yet; nothing else of the scheduler changes. With an empty
-- remainder this is one full round, which ends where it began; the less urgent buckets get no turn.
pub turns_round_robin :
    (s : Scheduler) (b : Bucket) (bs : List Bucket) (want : ℕ) (xs ys : List ℕ)
    → turns (length xs) want (with_incremental s b bs (xs ++ ys))
      ≡ (map some xs, with_incremental s b bs (ys ++ xs))
turns_round_robin s b bs want [] ys =
    ap (λ q. ([], with_incremental s b bs q)) (sym (append-nil ys))
turns_round_robin s b bs want (x ∷ xs) ys =
    rw (next_incremental s b bs want x (xs ++ ys), append_assoc xs ys (x ∷ []))
      (ap (λ (served, last). (some x ∷ served, last))
          (turns_round_robin s b bs want xs (ys ++ (x ∷ [])))
        ∙ ap (λ q. (some x ∷ map some xs, with_incremental s b bs q)) (append_assoc ys (x ∷ []) xs))
