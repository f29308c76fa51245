-- ===== src/Hpack/DynamicTable.antt =====
-- src/courierust_hpack/table.rs: the dynamic table of one direction of a connection.
pub mod Evict
pub mod Insert
pub mod Find
use courierust.Base.{
  ℕ, zero, suc, ◌+◌, ◌-◌, ◌*◌, ◌%◌, ◌^◌, Bool, true, false, ◌&&◌, Option, none, some, List, [], ◌∷◌,
  length, get_elem?, ltb, ◌==◌, if◌then◌else◌,
}
use mathlib.Core.List.{foldl}
use mathlib.Core.Option.{map}
use Prim.Native.Nat.{bit_xor}

-- FNV-1a on a u64.
unfoldable pub fnv1a : List ℕ → ℕ
fnv1a octets = foldl (λ h b. bit_xor h b * 0x100000001b3 % 2 ^ 64) 0xcbf29ce484222325 octets

pub record DynEntry : Type 0 where
  pub name : List ℕ
  pub value : List ℕ
  pub hash : ℕ
  pub size : ℕ

-- The entries stand newest first, as in the `VecDeque`.
pub record DynamicTable : Type 0 where
  pub entries : List DynEntry
  pub size : ℕ
  pub max_size : ℕ

unfoldable pub default : DynamicTable
default = record { entries = []; size = 0; max_size = 4096 }

-- `VecDeque::pop_back`: what is left, and the last entry.
abbrev pub pop_back : List DynEntry → Option (List DynEntry × DynEntry)
pop_back [] = none
pop_back (e ∷ es) = elim (pop_back es) [
  | none ↦ some ([], e)
  | some (rest, last) ↦ some (e ∷ rest, last)
]

-- The loop of `evict_to`; the count bounds its rounds, each of which takes an entry away.
unfoldable pub evict_loop : ℕ → ℕ → DynamicTable → DynamicTable
evict_loop zero budget t = t
evict_loop (suc rounds) budget t = elim (ltb budget t.size) [
  | false ↦ t
  | true ↦ elim (pop_back t.entries) [
    | none ↦ t
    | some (rest, e) ↦
        evict_loop rounds budget (record t { entries = rest; size = t.size - e.size })
  ]
]

unfoldable pub evict_to : ℕ → DynamicTable → DynamicTable
evict_to budget t = evict_loop (length t.entries) budget t

unfoldable pub set_max_size : DynamicTable → ℕ → DynamicTable
set_max_size t max = evict_to max (record t { max_size = max })

unfoldable pub clear : DynamicTable → DynamicTable
clear t = record t { entries = []; size = 0 }

abbrev pub entry_size : List ℕ → List ℕ → ℕ
entry_size name value = length name + length value + 32

abbrev pub new_entry : List ℕ → List ℕ → DynEntry
new_entry name value = record {
  name = name;
  value = value;
  hash = fnv1a name;
  size = entry_size name value;
}

-- `push_front`, with the size of the entry added.
abbrev pub push_front : DynEntry → DynamicTable → DynamicTable
push_front e t = record t { entries = e ∷ t.entries; size = t.size + e.size }

unfoldable pub insert : DynamicTable → List ℕ → List ℕ → DynamicTable
unfolding clear
insert t name value =
    if ltb t.max_size (entry_size name value)
    then clear t
    else push_front (new_entry name value) (evict_to (t.max_size - entry_size name value) t)

abbrev pub field : DynEntry → List ℕ × List ℕ
field e = (e.name, e.value)

unfoldable pub get : DynamicTable → ℕ → Option (List ℕ × List ℕ)
get t i = map field (get_elem? t.entries i)

-- Equality of two byte slices.
abbrev pub eq_bytes : List ℕ → List ℕ → Bool
eq_bytes [] [] = true
eq_bytes [] (b ∷ bs) = false
eq_bytes (a ∷ more) [] = false
eq_bytes (a ∷ more) (b ∷ bs) = (a == b) && eq_bytes more bs

-- The index, from `i` on, of the first entry that the test takes.
abbrev pub find_from : (DynEntry → Bool) → ℕ → List DynEntry → Option ℕ
find_from test i [] = none
find_from test i (e ∷ es) = if test e then some i else find_from test (suc i) es

unfoldable pub find_full : DynamicTable → List ℕ → List ℕ → Option ℕ
find_full t name value =
    find_from (λ e. (e.hash == fnv1a name) && eq_bytes e.name name && eq_bytes e.value value) 0
      t.entries

unfoldable pub find_name : DynamicTable → List ℕ → Option ℕ
find_name t name = find_from (λ e. (e.hash == fnv1a name) && eq_bytes e.name name) 0 t.entries
