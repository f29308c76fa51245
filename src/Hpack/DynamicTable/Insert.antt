-- ===== src/Hpack/DynamicTable/Insert.antt =====
-- The operations of the dynamic table: its invariant, and lookups after an insertion.
use courierust.Base.{
  ℕ, zero, suc, ◌+◌, ◌-◌, ◌≤◌, ◌≡◌, refl, arith, false, none, some, List, [], ◌∷◌, take, get_elem?,
  ltb, leb, if◌then◌else◌, inl, inr, Bool-cases, ltb→le, All,
}
use courierust.Hpack.DynamicTable.{
  DynEntry, DynamicTable, set_max_size, clear, insert, get, entry_size,
}
use courierust.Hpack.DynamicTable.Evict.{total, keep, kept, IsValid, evict_to-keep, total-keep}

All-keep :
    (P : DynEntry → Type 0) (budget : ℕ) (es : List DynEntry) → All P es → All P (keep budget es)
All-keep P budget [] h = tt
All-keep P budget (e ∷ es) (p, h) = elim (Bool-cases (leb e.size budget)) [
  | inl fits ↦ rw fits (p, All-keep P (budget - e.size) es h)
  | inr over ↦ rw over tt
]

kept-IsValid :
    (budget : ℕ) (t : DynamicTable) → IsValid t → budget ≤ t.max_size → IsValid (kept budget t)
kept-IsValid budget t v h = record {
  sized = refl;
  bounded = omega (arith, total-keep budget t.entries);
  entered = All-keep _ budget t.entries v.entered;
}

set_max_size-IsValid : (t : DynamicTable) (max : ℕ) → IsValid t → IsValid (set_max_size t max)
unfolding set_max_size
set_max_size-IsValid t max v =
    let resized : DynamicTable = record t { max_size = max } in
    rw (evict_to-keep max resized v.sized) (record {
      sized = refl;
      bounded = total-keep max t.entries;
      entered = All-keep _ max t.entries v.entered;
    })

insert-IsValid :
    (t : DynamicTable) (name value : List ℕ) → IsValid t → IsValid (insert t name value)
unfolding insert
insert-IsValid t name value v = elim (Bool-cases (ltb t.max_size (entry_size name value))) [
  | inl over ↦ rw over (record { sized = refl; bounded = omega arith; entered = tt })
  | inr fits ↦
      let room = t.max_size - entry_size name value in
      rw (fits, evict_to-keep room t v.sized)
        (record {
          sized = omega arith;
          bounded = omega (arith, total-keep room t.entries, ltb→le _ _ fits);
          entered = (refl, All-keep _ room t.entries v.entered);
        })
]

-- Every operation that changes the table keeps it valid: the occupied size is that of the entries
-- and stays within the maximum, and every entry has its own size and hash.
pub changes-IsValid :
    (t : DynamicTable) (max : ℕ) (name value : List ℕ)
    → IsValid t
    → IsValid (set_max_size t max) × IsValid (insert t name value) × IsValid (clear t)
changes-IsValid t max name value v = (
  set_max_size-IsValid t max v,
  insert-IsValid t name value v,
  unfold clear in record { sized = refl; bounded = omega arith; entered = tt },
)

get_elem?-keep :
    (budget i : ℕ) (es : List DynEntry)
    → get_elem? (keep budget es) i
      ≡ (if leb (total (take (suc i) es)) budget then get_elem? es i else none)
get_elem?-keep budget i [] = ground arith
get_elem?-keep budget zero (e ∷ es) = ground arith
get_elem?-keep budget (suc i) (e ∷ es) = ground (arith, get_elem?-keep (budget - e.size) i es)

-- An insertion that fits puts the new field first; the field at `i` moves to `i + 1` if it and all
-- newer ones fit beside the new entry, and is evicted otherwise.
pub get-insert :
    (t : DynamicTable) (name value : List ℕ) (i : ℕ)
    → IsValid t
    → entry_size name value ≤ t.max_size
    → (get (insert t name value) 0 ≡ some (name, value))
      × (get (insert t name value) (suc i) ≡ (
          if leb (entry_size name value + total (take (suc i) t.entries)) t.max_size
          then get t i
          else none))
unfolding get insert
get-insert t name value i v h =
    let room = t.max_size - entry_size name value in
    let fits : ltb t.max_size (entry_size name value) ≡ false = ground arith in
    rw (fits, evict_to-keep room t v.sized) (refl, ground (arith, get_elem?-keep room i t.entries))
