-- ===== src/Hpack/DynamicTable/Find.antt =====
-- Searches of the dynamic table: the hashes are a shortcut that loses nothing.
use courierust.Base.{
  ℕ, zero, suc, ◌+◌, ◌≤◌, ◌≡◌, refl, ap, ◌∙◌, arith, Bool, true, ◌&&◌, some, List, [], ◌∷◌,
  get_elem?, ◌==◌, inl, inr, Bool-cases, ==_iff, All,
}
use courierust.Hpack.DynamicTable.{
  DynEntry, DynamicTable, get, field, new_entry, fnv1a, eq_bytes, find_from, find_full,
}
use courierust.Hpack.DynamicTable.Evict.{IsValid}
use mathlib.Core.Option.{map, some-injective}

eq_bytes_refl : (xs : List ℕ) → eq_bytes xs xs ≡ true
eq_bytes_refl [] = refl
eq_bytes_refl (x ∷ xs) = ground (arith, eq_bytes_refl xs, ==_iff x x)

eq_bytes→eq : (xs ys : List ℕ) → eq_bytes xs ys ≡ true → xs ≡ ys
eq_bytes→eq [] [] h = refl
eq_bytes→eq [] (y ∷ ys) h = cc
eq_bytes→eq (x ∷ xs) [] h = cc
eq_bytes→eq (x ∷ xs) (y ∷ ys) h = elim (Bool-cases (x == y)) [
  | inl p ↦ λ i. (==_iff x y).0 p i ∷ eq_bytes→eq xs ys (rw p at h) i
  | inr p ↦ cc (rw p at h)
]

-- An index that is found is that of an entry which the test takes.
record Found (test : DynEntry → Bool) (es : List DynEntry) (first i : ℕ) : Type 0 where
  offset : ℕ
  entry : DynEntry
  reached : i ≡ first + offset
  present : get_elem? es offset ≡ some entry
  taken : test entry ≡ true

find_from-Found :
    (test : DynEntry → Bool) (first : ℕ) (es : List DynEntry) (i : ℕ)
    → find_from test first es ≡ some i
    → Found test es first i
find_from-Found test first [] i h = cc
find_from-Found test first (e ∷ es) i h = elim (Bool-cases (test e)) [
  | inl p ↦ record {
    offset = 0;
    entry = e;
    reached = ground (arith, rw p at h);
    present = refl;
    taken = p;
  }
  | inr p ↦
      let f = find_from-Found test (suc first) es i (rw p at h) in
      record {
        offset = suc f.offset;
        entry = f.entry;
        reached = omega (arith, f.reached);
        present = f.present;
        taken = f.taken;
      }
]

-- Where the test takes the entry at `j`, something is found, there or before.
find_from_le :
    (test : DynEntry → Bool) (first : ℕ) (es : List DynEntry) (j : ℕ) (e : DynEntry)
    → get_elem? es j ≡ some e
    → test e ≡ true
    → (i : ℕ) × (find_from test first es ≡ some i) × (i ≤ first + j)
find_from_le test first [] j e h k = cc
find_from_le test first (d ∷ es) zero e h k =
    (first, ground (arith, ap test (some-injective _ _ h)), omega arith)
find_from_le test first (d ∷ es) (suc j) e h k = elim (Bool-cases (test d)) [
  | inl p ↦ rw p (first, refl, omega arith)
  | inr p ↦
      let (i, found, le) = find_from_le test (suc first) es j e h k in rw p (i, found, omega arith)
]

abbrev full_test : List ℕ → List ℕ → DynEntry → Bool
full_test name value e = (e.hash == fnv1a name) && eq_bytes e.name name && eq_bytes e.value value

full_test-eq :
    (name value : List ℕ) (e : DynEntry) → full_test name value e ≡ true → field e ≡ (name, value)
full_test-eq name value e h =
    λ i. (eq_bytes→eq e.name name parts.0 i, eq_bytes→eq e.value value parts.1 i)
  where
    parts : (eq_bytes e.name name ≡ true) × (eq_bytes e.value value ≡ true)
    parts = (ground (arith, h), ground (arith, h))

-- The entry behind a field of a table whose entries have a property.
entry_at :
    (P : DynEntry → Type 0) (es : List DynEntry) (j : ℕ) (x : List ℕ × List ℕ)
    → All P es
    → map field (get_elem? es j) ≡ some x
    → (e : DynEntry) × (get_elem? es j ≡ some e) × (field e ≡ x) × P e
entry_at P [] j x a h = cc
entry_at P (e ∷ es) zero x a h = (e, refl, some-injective _ _ h, a.0)
entry_at P (e ∷ es) (suc j) x a h = entry_at P es j x a.1 h

new_entry-full_test :
    (e : DynEntry) (name value : List ℕ)
    → e ≡ new_entry e.name e.value
    → field e ≡ (name, value)
    → full_test name value e ≡ true
new_entry-full_test e name value valid h =
    rw (hashed, ap (λ x. x.0) h, ap (λ x. x.1) h)
      (ground (eq_bytes_refl name, eq_bytes_refl value, arith))
  where
    hashed : e.hash ≡ fnv1a name
    hashed = ap (λ x. x.hash) valid ∙ ap (λ x. fnv1a x.0) h

-- What is found under a name and a value is the field of that name and value.
pub get-find_full :
    (t : DynamicTable) (name value : List ℕ) (i : ℕ)
    → find_full t name value ≡ some i
    → get t i ≡ some (name, value)
unfolding find_full get
get-find_full t name value i h =
    let f = find_from-Found (full_test name value) 0 t.entries i h in
    let place : i ≡ f.offset = omega (arith, f.reached) in
    rw (place, f.present) (ap some (full_test-eq name value f.entry f.taken))

-- A field that a valid table has is found, at its own place or a newer one, and that place has the
-- same name and value: the hashes lose nothing.
pub find_full-get :
    (t : DynamicTable) (name value : List ℕ) (j : ℕ)
    → IsValid t
    → get t j ≡ some (name, value)
    → (i : ℕ) × (find_full t name value ≡ some i) × (i ≤ j) × (get t i ≡ some (name, value))
unfolding find_full get
find_full-get t name value j v h =
    let (e, present, is, valid) = entry_at _ t.entries j (name, value) v.entered h in
    let (i, found, le) =
      find_from_le (full_test name value) 0 t.entries j e present
        (new_entry-full_test e name value valid is) in
    (i, found, omega arith, get-find_full t name value i found)
