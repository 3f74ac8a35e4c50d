-- ===== src/Runtime/ArrayMap/Grow.antt =====
-- A new entry behind the others: `make_next_array` and `insert_unique`.
use jank.Prelude.{
  ℕ, ◌+◌, ◌/◌, ◌%◌, ◌<◌, ◌≤◌, max, true, false, List, [], ◌∷◌, ◌++◌, ◌≡◌, refl, ap, sym, ◌∙◌, arith,
  Bool-cases, inl, inr, leb, length, length-append,
}
use jank.Runtime.ArrayMap.{
  ObjectRef, done, thrown, ◌>>=◌, ArrayMap, write, read_all, can_expand, make_next_array,
  insert_unique,
}
use jank.Runtime.ArrayMap.Entries.{Entry, flat, length-flat, flat-append}
use jank.Runtime.ArrayMap.Slots.{write-append, write-append_second, read_all-append}
use jank.Runtime.ArrayMap.Represents.{Represents}
use mathlib.Core.List.{append_assoc}

-- Two spare slots, where there is room for them.
two_spare :
    (xs : List ObjectRef)
    → 2 ≤ length xs
    → (x : ObjectRef) × (y : ObjectRef) × (rest : List ObjectRef) × (xs ≡ x ∷ y ∷ rest)
two_spare [] h = absurd (omega (arith, h))
two_spare (x ∷ []) h = absurd (omega (arith, h))
two_spare (x ∷ y ∷ rest) h = (x, y, rest, refl)

-- What `make_next_array` leaves: the old slots, the new pair, and the rest.
record Grown (prev : List ObjectRef) (xs : List ObjectRef) (cap : ℕ) (key value : ObjectRef)
    : Type 0 where
  rest : List ObjectRef
  runs : make_next_array prev cap (length xs) key value ≡ done (xs ++ key ∷ value ∷ rest)
  new_cap : max (length xs + 2) cap ≡ length (xs ++ key ∷ value ∷ rest)

make_next_array-in_place :
    (prev : List ObjectRef) (cap n : ℕ) (key value : ObjectRef)
    → leb (n + 2) cap ≡ true
    → make_next_array prev cap n key value
      ≡ (write prev n key >>= λ prev'. write prev' (n + 1) value)
unfolding make_next_array
make_next_array-in_place prev cap n key value h = rw (h, make_next_array)

make_next_array-expand :
    (prev : List ObjectRef) (cap n : ℕ) (key value : ObjectRef)
    → leb (n + 2) cap ≡ false
    → can_expand n ≡ true
    → make_next_array prev cap n key value
      ≡ (read_all n 0 prev >>= λ old. done (old ++ key ∷ value ∷ []))
unfolding make_next_array
make_next_array-expand prev cap n key value h c = rw (h, make_next_array) (rw (c, make_next_array))

make_next_array-thrown :
    (prev : List ObjectRef) (cap n : ℕ) (key value : ObjectRef)
    → leb (n + 2) cap ≡ false
    → can_expand n ≡ false
    → make_next_array prev cap n key value ≡ thrown (n / 2 + 1)
unfolding make_next_array
make_next_array-thrown prev cap n key value h c = rw (h, make_next_array) (rw (c, make_next_array))

make_next_array-Grown :
    (xs spare : List ObjectRef) (cap : ℕ) (key value : ObjectRef)
    → cap ≡ length (xs ++ spare)
    → length xs ≤ 14
    → length xs % 2 ≡ 0
    → Grown (xs ++ spare) xs cap key value
unfolding can_expand
make_next_array-Grown xs spare cap key value has_cap small even =
    elim (Bool-cases (leb (length xs + 2) cap)) [
      | inl fits ↦
          let (x, y, rest, e) = two_spare spare (ground (arith, has_cap, length-append xs spare)) in
          record {
            rest = rest;
            runs =
                make_next_array-in_place (xs ++ spare) cap (length xs) key value fits
                ∙ rw (e, write-append xs x key (y ∷ rest) (length xs) refl)
                    (write-append_second xs key y value rest (length xs + 1) refl);
            new_cap = ground (
              arith,
              has_cap,
              ap (λ s. length (xs ++ s)) e,
              length-append xs (x ∷ y ∷ rest),
              length-append xs (key ∷ value ∷ rest),
            );
          }
      | inr full ↦
          let can : can_expand (length xs) ≡ true = ground (arith, small, even) in
          record {
            rest = [];
            runs =
                make_next_array-expand (xs ++ spare) cap (length xs) key value full can
                ∙ rw (read_all-append xs spare (length xs) refl);
            new_cap =
                ground
                  (arith, has_cap, length-append xs spare, length-append xs (key ∷ value ∷ []));
          }
    ]

-- The slots of the entries behind one another, with one entry more.
flat-snoc :
    (kvs : List Entry) (key value : ObjectRef) (rest : List ObjectRef)
    → flat (kvs ++ (key, value) ∷ []) ++ rest ≡ flat kvs ++ key ∷ value ∷ rest
unfolding flat
flat-snoc kvs key value rest =
    ap (λ xs. xs ++ rest) (flat-append kvs ((key, value) ∷ []))
    ∙ append_assoc (flat kvs) (key ∷ value ∷ []) rest

-- `insert_unique` with room for one entry more.
pub insert_unique-Represents :
    (m : ArrayMap) (kvs : List Entry) (key value : ObjectRef)
    → Represents m kvs
    → length kvs < 8
    → (m' : ArrayMap) × (insert_unique key value m ≡ done m')
      × Represents m' (kvs ++ (key, value) ∷ [])
unfolding insert_unique
insert_unique-Represents m kvs key value r lt =
    let n : m.length ≡ length (flat kvs) = omega (arith, r.has_length, length-flat kvs) in
    let next =
      make_next_array-Grown (flat kvs) r.spare m.cap key value (r.has_cap ∙ ap length r.has_slots)
        (omega (arith, length-flat kvs)) (omega (arith, length-flat kvs)) in
    let new : m.length + 2 ≡ (m.length + 2) % 256 = omega (arith, r.has_length) in
    (
      record {
        slots = flat kvs ++ key ∷ value ∷ next.rest;
        cap = max ((m.length + 2) % 256) m.cap;
        length = (m.length + 2) % 256;
        hash = 0;
      },
      rw
          (
            ap (λ xs. make_next_array xs m.cap m.length key value) r.has_slots
                ∙ ap (λ k. make_next_array (flat kvs ++ r.spare) m.cap k key value) n
                ∙ next.runs,
            insert_unique,
          )
          refl,
      record {
        spare = next.rest;
        has_slots = sym (flat-snoc kvs key value next.rest);
        has_length = omega (arith, r.has_length, length-append kvs ((key, value) ∷ []));
        has_cap = ap (λ k. max k m.cap) (sym new ∙ ap (λ k. k + 2) n) ∙ next.new_cap;
        bounded = omega (arith, r.has_length, r.bounded);
      },
    )

-- A full map refuses one entry more.
pub insert_unique-thrown :
    (m : ArrayMap) (kvs : List Entry) (key value : ObjectRef)
    → Represents m kvs
    → length kvs ≡ 8
    → insert_unique key value m ≡ thrown 9
unfolding insert_unique can_expand
insert_unique-thrown m kvs key value r full =
    let n : m.length ≡ 16 = omega (arith, r.has_length) in
    let no_room : leb (m.length + 2) m.cap ≡ false = ground (arith, r.bounded) in
    let no_case : can_expand m.length ≡ false = ground (arith) in
    rw
      (
        make_next_array-thrown m.slots m.cap m.length key value no_room no_case
            ∙ ap (λ k. thrown (k / 2 + 1)) n,
        insert_unique,
      )
      refl
