-- ===== src/Tests/HpackTests.antt =====
-- Tests of src/courierust_hpack.
use courierust.Base.{
  ℕ, suc, ◌+◌, ◌-◌, ◌*◌, ◌^◌, ◌≤◌, ◌≡◌, refl, arith, List, [], ◌∷◌, ◌++◌, length, take, some, none,
  leb, if◌then◌else◌, bit_and,
}
use courierust.Error.{ok}
use courierust.Hpack.Integer.{read_int, read_more, write_int, octets_of}
use courierust.Hpack.Integer.RoundTrip.{read_int-write_int}
use courierust.Hpack.DynamicTable
use courierust.Hpack.DynamicTable.{DynamicTable, entry_size}
use courierust.Hpack.DynamicTable.Evict.{IsValid, total, kept, evict_to-keep}
use courierust.Hpack.DynamicTable.Insert.{changes-IsValid, get-insert}
use courierust.Hpack.DynamicTable.Find.{get-find_full, find_full-get}

-- RFC 7541, appendix C.1.2: 1337 after a prefix of five bits.
written : write_int 0 5 1337 ≡ 31 ∷ 154 ∷ 10 ∷ []
unfolding write_int octets_of
written = refl

read_back : read_int (31 ∷ 154 ∷ 10 ∷ []) 1 5 31 ≡ ok (1337, 3)
unfolding read_int read_more
read_back = refl

-- The tenth octet is shifted by 63, and all of its bits but the lowest are lost.
lossy :
    read_int (31 ∷ 128 ∷ 128 ∷ 128 ∷ 128 ∷ 128 ∷ 128 ∷ 128 ∷ 128 ∷ 128 ∷ 2 ∷ []) 1 5 31
    ≡ ok (31, 11)
unfolding read_int read_more
lossy = refl

read_int-write_int_example :
    (first : ℕ) × (octets : List ℕ) × (write_int (2 * 2 ^ 5) 5 1337 ≡ first ∷ octets)
    × (first ≡ 2 * 2 ^ 5 + bit_and first (2 ^ 5 - 1))
    × (read_int (first ∷ (octets ++ (7 ∷ []))) 1 5 (bit_and first (2 ^ 5 - 1))
        ≡ ok (1337, suc (length octets)))
read_int-write_int_example = read_int-write_int 5 2 1337 (7 ∷ []) (omega arith) (omega arith)

-- A table with room for two entries of 34 octets.
abbrev small : DynamicTable
small = DynamicTable.set_max_size DynamicTable.default 70

abbrev two : DynamicTable
two = DynamicTable.insert (DynamicTable.insert small (97 ∷ []) (49 ∷ [])) (98 ∷ []) (50 ∷ [])

empty-IsValid : IsValid DynamicTable.default
unfolding DynamicTable.default
empty-IsValid = record { sized = refl; bounded = omega arith; entered = tt }

two-IsValid : IsValid two
two-IsValid =
    (changes-IsValid (DynamicTable.insert small (97 ∷ []) (49 ∷ [])) 0 (98 ∷ []) (50 ∷ [])
      (changes-IsValid small 0 (97 ∷ []) (49 ∷ [])
        (changes-IsValid DynamicTable.default 70 [] [] empty-IsValid).0).1).1

changes-IsValid_example :
    IsValid (DynamicTable.set_max_size two 40)
    × IsValid (DynamicTable.insert two (99 ∷ []) [])
    × IsValid (DynamicTable.clear two)
changes-IsValid_example = changes-IsValid two 40 (99 ∷ []) [] two-IsValid

evict_to-keep_example : DynamicTable.evict_to 40 two ≡ kept 40 two
evict_to-keep_example = evict_to-keep 40 two two-IsValid.sized

two_max : 34 ≤ two.max_size
unfolding DynamicTable.insert DynamicTable.set_max_size DynamicTable.default DynamicTable.evict_to
    DynamicTable.evict_loop
two_max = omega arith

-- The newer entry is left beside the new one, the older one is not.
get-insert_example :
    (DynamicTable.get (DynamicTable.insert two (99 ∷ []) (51 ∷ [])) 0 ≡ some (99 ∷ [], 51 ∷ []))
    × (DynamicTable.get (DynamicTable.insert two (99 ∷ []) (51 ∷ [])) 2 ≡ (
        if leb (entry_size (99 ∷ []) (51 ∷ []) + total (take 2 two.entries)) two.max_size
        then DynamicTable.get two 1
        else none))
get-insert_example = get-insert two (99 ∷ []) (51 ∷ []) 1 two-IsValid two_max

found_older : DynamicTable.find_full two (97 ∷ []) (49 ∷ []) ≡ some 1
unfolding DynamicTable.find_full DynamicTable.insert DynamicTable.set_max_size DynamicTable.default
    DynamicTable.evict_to DynamicTable.evict_loop DynamicTable.fnv1a
found_older = refl

find_full-get_example :
    (i : ℕ) × (DynamicTable.find_full two (97 ∷ []) (49 ∷ []) ≡ some i)
    × (i ≤ 1)
    × (DynamicTable.get two i ≡ some (97 ∷ [], 49 ∷ []))
find_full-get_example =
    find_full-get two (97 ∷ []) (49 ∷ []) 1 two-IsValid
      (get-find_full two (97 ∷ []) (49 ∷ []) 1 found_older)
