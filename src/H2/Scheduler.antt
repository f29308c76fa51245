-- ===== src/H2/Scheduler.antt =====
-- The scheduler of src/courierust_h2/priority.rs: eight buckets of streams, by urgency.
pub mod Counts
pub mod Service
pub mod Drift
pub mod Turns
use courierust.Base.{
  ℕ, suc, ◌+◌, ◌-◌, ◌%◌, ◌^◌, min, max, Bool, true, false, ◌&&◌, ◌||◌, Option, none, some, List, [],
  ◌∷◌, ◌++◌, map, get_elem?, set, ltb, leb, ◌==◌, if◌then◌else◌,
}
use courierust.H2.Streams.{Priority}

pub record Bucket : Type 0 where
  pub non_incremental : List ℕ
  pub incremental : List ℕ
  pub deficit : ℕ
  pub quantum : ℕ

pub record Scheduler : Type 0 where
  pub buckets : List Bucket
  pub count : ℕ
  pub rounds : ℕ

abbrev pub new_bucket : ℕ → Bucket
new_bucket quantum = record {
  non_incremental = [];
  incremental = [];
  deficit = 0;
  quantum = quantum;
}

unfoldable pub new : ℕ → Scheduler
new quantum =
    let b = new_bucket (max quantum 1) in
    record { buckets = b ∷ b ∷ b ∷ b ∷ b ∷ b ∷ b ∷ b ∷ []; count = 0; rounds = 0 }

unfoldable pub len : Scheduler → ℕ
len s = s.count

unfoldable pub is_empty : Scheduler → Bool
is_empty s = s.count == 0

abbrev pub enqueue : ℕ → Bool → Bucket → Bucket
enqueue id incremental b =
    if incremental
    then record b { incremental = b.incremental ++ (id ∷ []) }
    else record b { non_incremental = b.non_incremental ++ (id ∷ []) }

-- `none` is the panic of an urgency without a bucket.
unfoldable pub add : Scheduler → ℕ → Priority → Option Scheduler
add s id p = elim (get_elem? s.buckets p.urgency) [
  | none ↦ none
  | some b ↦ some (record s {
    buckets = set s.buckets p.urgency (enqueue id p.incremental b);
    count = s.count + 1;
  })
]

-- `position` and then `remove`: a queue without the first occurrence, if there is one.
abbrev pub take_out : ℕ → List ℕ → Option (List ℕ)
take_out id [] = none
take_out id (x ∷ xs) =
    let more = take_out id xs in
    if x == id then some xs else elim more [ none ↦ none | some rest ↦ some (x ∷ rest) ]

-- The loop of `remove` over the buckets: what they are without the stream, if one has it.
abbrev pub remove_from : ℕ → List Bucket → Option (List Bucket)
remove_from id [] = none
remove_from id (b ∷ bs) = elim (take_out id b.non_incremental) [
  | some rest ↦ some (record b { non_incremental = rest } ∷ bs)
  | none ↦ elim (take_out id b.incremental) [
    | some rest ↦ some (record b { incremental = rest } ∷ bs)
    | none ↦ elim (remove_from id bs) [ none ↦ none | some more ↦ some (b ∷ more) ]
  ]
]

unfoldable pub remove : Scheduler → ℕ → Scheduler
remove s id = elim (remove_from id s.buckets) [
  | none ↦ s
  | some bs ↦ record s { buckets = bs; count = s.count - 1 }
]

abbrev pub same_flag : Bool → Bool → Bool
same_flag true b = b
same_flag false true = false
same_flag false false = true

abbrev pub same_priority : Priority → Priority → Bool
same_priority p q = (p.urgency == q.urgency) && same_flag p.incremental q.incremental

unfoldable pub update : Scheduler → ℕ → Priority → Priority → Option Scheduler
update s id old_priority new_priority =
    if same_priority old_priority new_priority then some s else add (remove s id) id new_priority

-- `deficit.saturating_add(want as u32)`
abbrev pub charged : ℕ → Bucket → ℕ
charged want b = min (b.deficit + want % 2 ^ 32) (2 ^ 32 - 1)

-- A bucket's turn: an incremental stream goes to the back of its queue, another one leaves it.
abbrev pub serve_first : ℕ → Bucket → List ℕ → Option (ℕ × Bucket)
serve_first want b [] = none
serve_first want b (sid ∷ queue) =
    if leb (charged want b) b.quantum
    then some (sid, record b { non_incremental = queue; deficit = charged want b })
    else none

abbrev pub serve_or : ℕ → Bucket → List ℕ → Option (ℕ × Bucket)
serve_or want b [] = serve_first want b b.non_incremental
serve_or want b (sid ∷ queue) = some (sid, record b { incremental = queue ++ (sid ∷ []) })

abbrev pub serve : ℕ → Bucket → Option (ℕ × Bucket)
serve want b = serve_or want b b.incremental

-- The scan from urgency 0 on.
abbrev pub scan : ℕ → List Bucket → Option (ℕ × List Bucket)
scan want [] = none
scan want (b ∷ bs) = elim (serve want b) [
  | some (sid, b') ↦ some (sid, b' ∷ bs)
  | none ↦ elim (scan want bs) [ none ↦ none | some (sid, more) ↦ some (sid, b ∷ more) ]
]

abbrev pub is_nonempty : List ℕ → Bool
is_nonempty [] = false
is_nonempty (x ∷ xs) = true

abbrev pub any_waiting : List Bucket → Bool
any_waiting [] = false
any_waiting (b ∷ bs) = is_nonempty b.non_incremental || any_waiting bs

abbrev pub reset : Bucket → Bucket
reset b = record b { deficit = 0 }

-- The second scan, once all deficits are reset.
abbrev pub next_round : Scheduler → ℕ → Scheduler × Option ℕ
next_round s want =
    let bs = map reset s.buckets in
    let advanced : Scheduler = record s { buckets = bs; rounds = (s.rounds + 1) % 2 ^ 64 } in
    elim (scan want bs) [
      | some (sid, more) ↦ (record advanced { buckets = more }, some sid)
      | none ↦ (advanced, none)
    ]

unfoldable pub next : Scheduler → ℕ → Scheduler × Option ℕ
next s want = elim (scan want s.buckets) [
  | some (sid, bs) ↦ (record s { buckets = bs }, some sid)
  | none ↦ if any_waiting s.buckets then next_round s want else (s, none)
]
