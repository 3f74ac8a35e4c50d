-- ===== src/Runtime/ArrayMap/Laws.antt =====
-- The laws of the map for its clients, from the refinements of the operations.
use jank.Prelude.{
  ◌≤◌, Bool, true, false, List, [], ◌∷◌, Option, some, ◌≡◌, ap, sym, ◌∙◌, Bool-cases, inl, inr,
  length, if◌then◌else◌,
}
use jank.Runtime.ArrayMap.{ObjectRef, done, ArrayMap, matches, find, insert_or_assign}
use jank.Runtime.ArrayMap.Entries.{Entry, lookup, upsert}
use jank.Runtime.ArrayMap.Represents.{Represents, find-lookup}
use jank.Runtime.ArrayMap.Insert.{insert_or_assign-upsert}

lookup-upsert :
    (test : ObjectRef → Bool) (key value : ObjectRef) (kvs : List Entry)
    → test key ≡ true
    → lookup test (upsert test key value kvs) ≡ some value
unfolding lookup upsert
lookup-upsert test key value [] h = rw h
lookup-upsert test key value ((k, v) ∷ kvs) h = elim (Bool-cases (test k)) [
  | inl hit ↦ rw (hit, hit)
  | inr miss ↦ rw (miss, miss) (lookup-upsert test key value kvs h)
]

-- Another test, which no key passes that passes the first test or is the inserted one.
lookup-upsert_other :
    (test other : ObjectRef → Bool) (key value : ObjectRef) (kvs : List Entry)
    → ((k : ObjectRef) → test k ≡ true → other k ≡ false)
    → other key ≡ false
    → lookup other (upsert test key value kvs) ≡ lookup other kvs
unfolding lookup upsert
lookup-upsert_other test other key value [] apart h = rw h
lookup-upsert_other test other key value ((k, v) ∷ kvs) apart h = elim (Bool-cases (test k)) [
  | inl hit ↦ rw (hit, apart k hit)
  | inr miss ↦ rw miss (
      ap (λ rest. if other k then some v else rest)
        (lookup-upsert_other test other key value kvs apart h))
]

module _ (is_keyword : ObjectRef → Bool) (equal : ObjectRef → ObjectRef → Bool) where
  -- In an array that holds the entries, where with the new one they are at most 8 and the key matches
  -- itself: the new value is found after the insertion, and a key that matches nothing that the
  -- inserted key matches is looked up as before.
  pub find-insert_or_assign :
      (m : ArrayMap) (kvs : List Entry) (key value other : ObjectRef)
      → Represents m kvs
      → length (upsert (matches is_keyword equal key) key value kvs) ≤ 8
      → matches is_keyword equal key key ≡ true
      → ((k : ObjectRef)
          → matches is_keyword equal key k ≡ true
          → matches is_keyword equal other k ≡ false)
      → (m' : ArrayMap) × (insert_or_assign is_keyword equal key value m ≡ done m')
        × (find is_keyword equal m' key ≡ done (some value))
        × (find is_keyword equal m' other ≡ find is_keyword equal m other)
  find-insert_or_assign m kvs key value other r fits self apart =
      let test = matches is_keyword equal key in
      let test' = matches is_keyword equal other in
      let (m', runs, r') = insert_or_assign-upsert is_keyword equal m kvs key value r fits in
      let kvs' = upsert test key value kvs in
      (
        m',
        runs,
        find-lookup is_keyword equal m' kvs' key r'
            ∙ ap (λ (o : Option ObjectRef). done o) (lookup-upsert test key value kvs self),
        find-lookup is_keyword equal m' kvs' other r'
            ∙ ap (λ (o : Option ObjectRef). done o)
                (lookup-upsert_other test test' key value kvs apart (apart key self))
            ∙ sym (find-lookup is_keyword equal m kvs other r),
      )
