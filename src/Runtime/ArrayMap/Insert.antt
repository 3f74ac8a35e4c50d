-- ===== src/Runtime/ArrayMap/Insert.antt =====
-- `insert_or_assign`: a new entry, or a new value for the old one.
use jank.Prelude.{
  ℕ, ◌+◌, ◌*◌, ◌<◌, ◌≤◌, Bool, List, [], ◌∷◌, ◌++◌, Option, ◌≡◌, refl, ap, sym, ◌∙◌, arith, inl,
  inr, length, length-append,
}
use jank.Runtime.ArrayMap.{ObjectRef, done, thrown, ArrayMap, write, matches, insert_or_assign}
use jank.Runtime.ArrayMap.Entries.{
  Entry, flat, length-flat, flat-append, upsert, Missing-or-Found, Found,
}
use jank.Runtime.ArrayMap.Slots.{write-append_second}
use jank.Runtime.ArrayMap.Represents.{
  Represents, Represents-length, Represents-index_of, Found-slots,
}
use mathlib.Core.List.{append_assoc}
use jank.Runtime.ArrayMap.Grow.{insert_unique-Represents, insert_unique-thrown}

-- The array after the value of a found entry was replaced.
Found-write :
    (test : ObjectRef → Bool) (m : ArrayMap) (kvs : List Entry) (r : Represents m kvs)
    (f : Found test kvs) (value : ObjectRef)
    → write m.slots (0 + 2 * length f.before + 1) value
      ≡ done (flat (f.before ++ (f.key, value) ∷ f.after) ++ r.spare)
unfolding flat
Found-write test m kvs r f value =
    ap (λ xs. write xs (0 + 2 * length f.before + 1) value) (Found-slots test m kvs r f)
    ∙ write-append_second (flat f.before) f.key f.value value (flat f.after ++ r.spare)
        (0 + 2 * length f.before + 1) (omega (arith, length-flat f.before))
    ∙ ap (λ (xs : List ObjectRef). done xs)
        (sym (
          ap (λ xs. xs ++ r.spare) (flat-append f.before ((f.key, value) ∷ f.after))
          ∙ append_assoc (flat f.before) (f.key ∷ value ∷ flat f.after) r.spare))

Found-length :
    (test : ObjectRef → Bool) (kvs : List Entry) (f : Found test kvs) (value : ObjectRef)
    → length (f.before ++ (f.key, value) ∷ f.after) ≡ length kvs
Found-length test kvs f value =
    length-append f.before ((f.key, value) ∷ f.after)
    ∙ sym (ap length f.shape ∙ length-append f.before ((f.key, f.value) ∷ f.after))

module _ (is_keyword : ObjectRef → Bool) (equal : ObjectRef → ObjectRef → Bool) where
  -- In an array that holds the entries, where with the new one they are at most 8,
  -- `insert_or_assign` stays in the array and leaves the entries with the new one.
  pub insert_or_assign-upsert :
      (m : ArrayMap) (kvs : List Entry) (key value : ObjectRef)
      → Represents m kvs
      → length (upsert (matches is_keyword equal key) key value kvs) ≤ 8
      → (m' : ArrayMap) × (insert_or_assign is_keyword equal key value m ≡ done m')
        × Represents m' (upsert (matches is_keyword equal key) key value kvs)
  unfolding insert_or_assign
  insert_or_assign-upsert m kvs key value r fits =
      let test = matches is_keyword equal key in
      let stops = Represents-index_of test m kvs r in
      elim (Missing-or-Found test kvs) [
        | inl missing ↦
            let grown = missing.upsert-append key value in
            let (m', runs, r') =
              insert_unique-Represents m kvs key value r
                (omega (arith, ap length grown, length-append kvs ((key, value) ∷ []))) in
            (
              m',
              rw (stops ∙ ap (λ (o : Option ℕ). done o) (missing.position-none 0), insert_or_assign)
                  runs,
              rw grown r',
            )
        | inr f ↦ (
          record m { slots = flat (f.before ++ (f.key, value) ∷ f.after) ++ r.spare; hash = 0 },
          rw (stops ∙ ap (λ (o : Option ℕ). done o) (f.position-some 0), insert_or_assign)
              (rw (Found-write test m kvs r f value, insert_or_assign) refl),
          rw (f.upsert-some key value) (record {
            spare = r.spare;
            has_slots = refl;
            has_length = r.has_length ∙ ap (λ k. 2 * k) (sym (Found-length test kvs f value));
            has_cap =
                r.has_cap
                ∙ ap length r.has_slots
                ∙ length-append (flat kvs) r.spare
                ∙ omega (
                  arith,
                  length-flat kvs,
                  Found-length test kvs f value,
                  length-flat (f.before ++ (f.key, value) ∷ f.after),
                  length-append (flat (f.before ++ (f.key, value) ∷ f.after)) r.spare,
                );
            bounded = r.bounded;
          }),
        )
      ]

  -- In an array that holds the entries, where with the new one they would be more than 8,
  -- `insert_or_assign` throws and names the size 9.
  pub insert_or_assign-thrown :
      (m : ArrayMap) (kvs : List Entry) (key value : ObjectRef)
      → Represents m kvs
      → 8 < length (upsert (matches is_keyword equal key) key value kvs)
      → insert_or_assign is_keyword equal key value m ≡ thrown 9
  unfolding insert_or_assign
  insert_or_assign-thrown m kvs key value r over =
      let test = matches is_keyword equal key in
      let stops = Represents-index_of test m kvs r in
      let count = Represents-length m kvs r in
      elim (Missing-or-Found test kvs) [
        | inl missing ↦
            rw (stops ∙ ap (λ (o : Option ℕ). done o) (missing.position-none 0), insert_or_assign)
              (insert_unique-thrown m kvs key value r (
                omega (
                  arith,
                  ap length (missing.upsert-append key value),
                  length-append kvs ((key, value) ∷ []),
                  r.bounded,
                  count,
                )))
        | inr f ↦ absurd (
            omega (
              arith,
              ap length (f.upsert-some key value),
              Found-length test kvs f value,
              r.bounded,
              count,
            ))
      ]
