-- ===== src/Tests/Maps.antt =====
-- The short map, with keywords from 100 on, and other objects that are equal by their last digit.
use jank.Prelude.{
  ◌*◌, ◌%◌, ◌≤◌, Bool, true, false, List, [], ◌∷◌, some, ◌≡◌, refl, arith, leb, ◌==◌,
}
use jank.Runtime.ArrayMap.{
  ObjectRef, ArrayMap, done, thrown, matches, find, insert_or_assign, erase, reserve, clone,
  index_of, write, read, shift_down,
}
use jank.Runtime.ArrayMap.Entries.{Entry, flat, lookup, upsert, remove}
use jank.Runtime.ArrayMap.Represents.{Represents, find-lookup}
use jank.Runtime.ArrayMap.Insert.{insert_or_assign-upsert, insert_or_assign-thrown}
use jank.Runtime.ArrayMap.Erase.{erase-remove}
use jank.Runtime.ArrayMap.Reserve.{reserve-Represents}
use jank.Runtime.ArrayMap.Clone.{clone-Represents}
use jank.Runtime.ArrayMap.Laws.{find-insert_or_assign}

abbrev is_keyword : ObjectRef → Bool
is_keyword = leb 100

abbrev equal : ObjectRef → ObjectRef → Bool
equal a b = a % 10 == b % 10

abbrev entries : List Entry
entries = (1, 20) ∷ (101, 21) ∷ (2, 22) ∷ []

-- One spare pair, which still holds an erased entry.
abbrev three : ArrayMap
three = record { slots = 1 ∷ 20 ∷ 101 ∷ 21 ∷ 2 ∷ 22 ∷ 5 ∷ 23 ∷ []; cap = 8; length = 6; hash = 77 }

three-Represents : Represents three entries
three-Represents = record {
  spare = 5 ∷ 23 ∷ [];
  has_slots = unfold flat in refl;
  has_length = refl;
  has_cap = refl;
  bounded = omega arith;
}

abbrev eight_entries : List Entry
eight_entries = (0, 0) ∷ (1, 0) ∷ (2, 0) ∷ (3, 0) ∷ (4, 0) ∷ (5, 0) ∷ (6, 0) ∷ (7, 0) ∷ []

abbrev eight : ArrayMap
eight = record {
  slots = 0 ∷ 0 ∷ 1 ∷ 0 ∷ 2 ∷ 0 ∷ 3 ∷ 0 ∷ 4 ∷ 0 ∷ 5 ∷ 0 ∷ 6 ∷ 0 ∷ 7 ∷ 0 ∷ [];
  cap = 16;
  length = 16;
  hash = 0;
}

eight-Represents : Represents eight eight_entries
eight-Represents = record {
  spare = [];
  has_slots = unfold flat in refl;
  has_length = refl;
  has_cap = refl;
  bounded = omega arith;
}

-- 11 equals the key 1, whose entry goes; the other two move down.
erase_runs :
    erase is_keyword equal 11 three
    ≡ done
        (record { slots = 101 ∷ 21 ∷ 2 ∷ 22 ∷ 2 ∷ 22 ∷ 5 ∷ 23 ∷ []; cap = 8; length = 4; hash = 0 })
unfolding erase index_of write read shift_down matches
erase_runs = refl

-- The keyword 101 is not equal to the key 1, though the last digits are the same.
find_keyword : find is_keyword equal three 101 ≡ done (some 21)
unfolding find index_of read matches
find_keyword = refl

find-lookup_example :
    find is_keyword equal three 11 ≡ done (lookup (matches is_keyword equal 11) entries)
find-lookup_example = find-lookup is_keyword equal three entries 11 three-Represents

insert_or_assign-upsert_example :
    (m' : ArrayMap) × (insert_or_assign is_keyword equal 9 30 three ≡ done m')
    × Represents m' (upsert (matches is_keyword equal 9) 9 30 entries)
insert_or_assign-upsert_example =
    insert_or_assign-upsert is_keyword equal three entries 9 30 three-Represents
      (unfold upsert matches in omega arith)

insert_or_assign-thrown_example : insert_or_assign is_keyword equal 9 30 eight ≡ thrown 9
insert_or_assign-thrown_example =
    insert_or_assign-thrown is_keyword equal eight eight_entries 9 30 eight-Represents
      (unfold upsert matches in omega arith)

erase-remove_example :
    (m' : ArrayMap) × (erase is_keyword equal 11 three ≡ done m')
    × Represents m' (remove (matches is_keyword equal 11) entries)
erase-remove_example = erase-remove is_keyword equal three entries 11 three-Represents

reserve-Represents_example :
    (m' : ArrayMap) × (reserve 0 7 three ≡ done m') × Represents m' entries × (2 * 7 ≤ m'.cap)
reserve-Represents_example = reserve-Represents 0 7 three entries three-Represents (omega arith)

clone-Represents_example :
    (m' : ArrayMap) × (clone 0 three ≡ done m') × Represents m' entries × (m'.cap ≡ three.cap)
clone-Represents_example = clone-Represents 0 three entries three-Represents

keywords_apart :
    (k : ObjectRef) → matches is_keyword equal 101 k ≡ true → matches is_keyword equal 102 k ≡ false
unfolding matches
keywords_apart k h = ground (arith, h)

find-insert_or_assign_example :
    (m' : ArrayMap) × (insert_or_assign is_keyword equal 101 30 three ≡ done m')
    × (find is_keyword equal m' 101 ≡ done (some 30))
    × (find is_keyword equal m' 102 ≡ find is_keyword equal three 102)
find-insert_or_assign_example =
    find-insert_or_assign is_keyword equal three entries 101 30 102 three-Represents
      (unfold upsert matches in omega arith) (unfold matches in refl) keywords_apart
