-- ===== src/Runtime/ArrayMap/Represents.antt =====
-- What an array map stands for, and the search for a key.
use jank.Prelude.{
  ℕ, zero, suc, ◌+◌, ◌*◌, ◌%◌, ◌<◌, ◌≤◌, Bool, true, false, List, [], ◌∷◌, ◌++◌, Option, none, some,
  ◌≡◌, refl, ap, sym, ◌∙◌, arith, Bool-cases, inl, inr, ltb, length, length-append,
}
use mathlib.Core.List.{append_assoc}
use jank.Runtime.ArrayMap.{ObjectRef, done, ArrayMap, read, index_of, matches, find}
use jank.Runtime.ArrayMap.Entries.{
  Entry, flat, length-flat, flat-append, lookup, position, Missing-or-Found, Found,
}
use jank.Runtime.ArrayMap.Slots.{read-append, read-append_second, append_pair, length-append_pair}

-- The array holds the entries, and slots behind them whose content does not matter. The capacity
-- is the size of the array, at most 16 slots.
pub record Represents (m : ArrayMap) (kvs : List Entry) : Type 0 where
  pub spare : List ObjectRef
  pub has_slots : m.slots ≡ flat kvs ++ spare
  pub has_length : m.length ≡ 2 * length kvs
  pub has_cap : m.cap ≡ length m.slots
  pub bounded : m.cap ≤ 16

pub Represents-length :
    (m : ArrayMap) (kvs : List Entry) → Represents m kvs → 2 * length kvs ≤ m.cap
Represents-length m kvs r =
    omega
      (arith, r.has_cap, ap length r.has_slots, length-append (flat kvs) r.spare, length-flat kvs)

module _ (test : ObjectRef → Bool) (fuel : ℕ) (slots : List ObjectRef) (n i : ℕ) where
  index_of-stop : ltb i n ≡ false → index_of (suc fuel) test slots n i ≡ done none
  unfolding index_of
  index_of-stop h = rw (h, index_of)

  index_of-step :
      (x : ObjectRef)
      → ltb i n ≡ true
      → read slots i ≡ done x
      → index_of (suc fuel) test slots n i ≡ elim (test x) [
        | true ↦ done (some i)
        | false ↦ index_of fuel test slots n ((i + 2) % 256)
      ]
  unfolding index_of
  index_of-step x h r = rw (h, index_of) (rw (r, index_of))

  index_of-hit :
      (x : ObjectRef)
      → ltb i n ≡ true
      → read slots i ≡ done x
      → test x ≡ true
      → index_of (suc fuel) test slots n i ≡ done (some i)
  index_of-hit x h r t = index_of-step x h r ∙ rw t

  index_of-miss :
      (x : ObjectRef) (j : ℕ)
      → ltb i n ≡ true
      → read slots i ≡ done x
      → test x ≡ false
      → (i + 2) % 256 ≡ j
      → index_of (suc fuel) test slots n i ≡ index_of fuel test slots n j
  index_of-miss x j h r t e = index_of-step x h r ∙ rw (t, e)

index_of-position :
    (test : ObjectRef → Bool) (kvs : List Entry) (fuel : ℕ) (pre spare : List ObjectRef) (n i : ℕ)
    → length kvs < fuel
    → n ≡ length pre + 2 * length kvs
    → n ≤ 16
    → i ≡ length pre
    → index_of fuel test (pre ++ (flat kvs ++ spare)) n i ≡ done (position test i kvs)
unfolding flat position
index_of-position test kvs zero pre spare n i lt e small at_i = elim lt [ ]
index_of-position test [] (suc fuel) pre spare n i lt e small at_i =
    index_of-stop test fuel _ n i (ground arith)
index_of-position test ((k, v) ∷ kvs) (suc fuel) pre spare n i lt e small at_i =
    let go : ltb i n ≡ true = ground arith in
    let here = read-append pre k (v ∷ (flat kvs ++ spare)) i at_i in
    elim (Bool-cases (test k)) [
      | inl hit ↦ rw hit (index_of-hit test fuel _ n i k go here hit)
      | inr miss ↦ rw miss (
          index_of-miss test fuel _ n i k (i + 2) go here miss (omega arith)
          ∙ ap (λ xs. index_of fuel test xs n (i + 2))
              (sym (append_pair pre k v (flat kvs ++ spare)))
          ∙ index_of-position test kvs fuel (pre ++ k ∷ v ∷ []) spare n (i + 2) (omega arith)
              (omega (arith, length-append_pair pre k v)) small
              (omega (arith, length-append_pair pre k v)))
    ]

-- The loop over the keys of the map stops where the abstract search does.
pub Represents-index_of :
    (test : ObjectRef → Bool) (m : ArrayMap) (kvs : List Entry)
    → Represents m kvs
    → index_of (m.length + 1) test m.slots m.length 0 ≡ done (position test 0 kvs)
Represents-index_of test m kvs r =
    ap (λ xs. index_of (m.length + 1) test xs m.length 0) r.has_slots
    ∙ index_of-position test kvs (m.length + 1) [] r.spare m.length 0 (omega (arith, r.has_length))
        (omega (arith, r.has_length))
        (omega (arith, r.bounded, r.has_length, Represents-length m kvs r)) refl

-- The array around a found entry.
pub Found-slots :
    (test : ObjectRef → Bool) (m : ArrayMap) (kvs : List Entry) (r : Represents m kvs)
    (f : Found test kvs)
    → m.slots ≡ flat f.before ++ f.key ∷ f.value ∷ (flat f.after ++ r.spare)
unfolding flat
Found-slots test m kvs r f =
    r.has_slots
    ∙ ap (λ es. flat es ++ r.spare) f.shape
    ∙ ap (λ xs. xs ++ r.spare) (flat-append f.before ((f.key, f.value) ∷ f.after))
    ∙ append_assoc (flat f.before) (f.key ∷ f.value ∷ flat f.after) r.spare

module _ (is_keyword : ObjectRef → Bool) (equal : ObjectRef → ObjectRef → Bool) where
  -- In an array that holds the entries, `find` stays in the array and returns the value of the first
  -- entry whose key matches.
  pub find-lookup :
      (m : ArrayMap) (kvs : List Entry) (key : ObjectRef)
      → Represents m kvs
      → find is_keyword equal m key ≡ done (lookup (matches is_keyword equal key) kvs)
  unfolding find
  find-lookup m kvs key r =
      let test = matches is_keyword equal key in
      let stops = Represents-index_of test m kvs r in
      elim (Missing-or-Found test kvs) [
        | inl missing ↦
            rw (stops ∙ ap (λ (o : Option ℕ). done o) (missing.position-none 0), find)
              (ap (λ (o : Option ObjectRef). done o) (sym missing.lookup-none))
        | inr f ↦
            rw (stops ∙ ap (λ (o : Option ℕ). done o) (f.position-some 0), find)
              (rw
                (
                  ap (λ xs. read xs (0 + 2 * length f.before + 1)) (Found-slots test m kvs r f)
                      ∙ read-append_second (flat f.before) f.key f.value (flat f.after ++ r.spare)
                          (0 + 2 * length f.before + 1) (omega (arith, length-flat f.before)),
                  find,
                )
                (ap (λ (o : Option ObjectRef). done o) (sym f.lookup-some)))
      ]
