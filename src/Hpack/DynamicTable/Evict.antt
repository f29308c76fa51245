-- ===== src/Hpack/DynamicTable/Evict.antt =====
-- Eviction against its specification: the longest run of newest entries that fits.
use courierust.Base.{
  ℕ, zero, suc, ◌+◌, ◌-◌, ◌≤◌, ◌<◌, ◌≡◌, refl, ap, ◌∙◌, arith, some, List, [], ◌∷◌, ◌++◌, length,
  ltb, leb, if◌then◌else◌, inl, inr, Bool-cases, ltb→lt, ltb→le, All,
}
use courierust.Hpack.DynamicTable.{
  DynEntry, DynamicTable, pop_back, evict_loop, evict_to, new_entry,
}

abbrev pub total : List DynEntry → ℕ
total [] = 0
total (e ∷ es) = e.size + total es

-- The longest run of entries from the front whose sizes add up to the budget at most.
abbrev pub keep : ℕ → List DynEntry → List DynEntry
keep budget [] = []
keep budget (e ∷ es) = if leb e.size budget then e ∷ keep (budget - e.size) es else []

pub total-keep : (budget : ℕ) (es : List DynEntry) → total (keep budget es) ≤ budget
total-keep budget [] = omega arith
total-keep budget (e ∷ es) = ground (arith, total-keep (budget - e.size) es)

keep_all : (budget : ℕ) (es : List DynEntry) → total es ≤ budget → keep budget es ≡ es
keep_all budget [] h = refl
keep_all budget (e ∷ es) h = ground (arith, keep_all (budget - e.size) es (omega arith))

keep_last :
    (budget : ℕ) (es : List DynEntry) (last : DynEntry)
    → budget < total es + last.size
    → keep budget (es ++ (last ∷ [])) ≡ keep budget es
keep_last budget [] last h = ground arith
keep_last budget (e ∷ es) last h = elim (Bool-cases (leb e.size budget)) [
  | inl p ↦ rw p (ap (λ more. e ∷ more) (keep_last (budget - e.size) es last (ground (arith, p))))
  | inr p ↦ rw p
]

-- A list of entries with its last one apart.
record Popped (es : List DynEntry) : Type 0 where
  rest : List DynEntry
  last : DynEntry
  split : es ≡ rest ++ (last ∷ [])
  popped : pop_back es ≡ some (rest, last)
  fewer : suc (length rest) ≡ length es
  sizes : total rest + last.size ≡ total es

pop_back-Popped : (e : DynEntry) (es : List DynEntry) → Popped (e ∷ es)
pop_back-Popped e [] = record {
  rest = [];
  last = e;
  split = refl;
  popped = refl;
  fewer = refl;
  sizes = omega arith;
}
pop_back-Popped e (d ∷ es) =
    let p = pop_back-Popped d es in
    record {
      rest = e ∷ p.rest;
      last = p.last;
      split = ap (λ more. e ∷ more) p.split;
      popped = rw p.popped;
      fewer = omega (arith, p.fewer);
      sizes = omega (arith, p.sizes);
    }

-- The table with the entries that fit a budget.
abbrev pub kept : ℕ → DynamicTable → DynamicTable
kept budget t = record t { entries = keep budget t.entries; size = total (keep budget t.entries) }

evict_loop_lem :
    (rounds budget : ℕ) (es : List DynEntry) (max : ℕ)
    → length es ≤ rounds
    → evict_loop rounds budget (record { entries = es; size = total es; max_size = max })
      ≡ record { entries = keep budget es; size = total (keep budget es); max_size = max }
unfolding evict_loop
evict_loop_lem zero budget [] max h = refl
evict_loop_lem zero budget (e ∷ es) max h = absurd (omega arith)
evict_loop_lem (suc rounds) budget [] max h = ground arith
evict_loop_lem (suc rounds) budget (e ∷ es) max h =
    elim (Bool-cases (ltb budget (total (e ∷ es)))) [
      | inr fits ↦ rw (fits, evict_loop, keep_all budget (e ∷ es) (ltb→le _ _ fits))
      | inl over ↦
          let p = pop_back-Popped e es in
          let left : total (e ∷ es) - p.last.size ≡ total p.rest = omega (arith, p.sizes) in
          let same : keep budget (e ∷ es) ≡ keep budget p.rest =
            ap (keep budget) p.split
            ∙ keep_last budget p.rest p.last (omega (arith, p.sizes, ltb→lt _ _ over)) in
          rw (over, evict_loop, p.popped, left, same)
            (evict_loop_lem rounds budget p.rest max (omega (arith, p.fewer)))
    ]

-- The size is that of the entries, the entries are within the maximum, and each of them has the size
-- and the hash that belong to it.
pub record IsValid (t : DynamicTable) : Type 0 where
  pub sized : t.size ≡ total t.entries
  pub bounded : t.size ≤ t.max_size
  pub entered : All (λ e. e ≡ new_entry e.name e.value) t.entries

-- Eviction keeps the longest run of newest entries that fits the budget.
pub evict_to-keep :
    (budget : ℕ) (t : DynamicTable) → t.size ≡ total t.entries → evict_to budget t ≡ kept budget t
unfolding evict_to
evict_to-keep budget t h =
    ap (λ n. evict_loop (length t.entries) budget (record t { size = n })) h
    ∙ evict_loop_lem (length t.entries) budget t.entries t.max_size (omega arith)
