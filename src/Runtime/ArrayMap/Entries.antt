-- ===== src/Runtime/ArrayMap/Entries.antt =====
-- The abstract map: a list of entries with different keys in mind, of which the first match counts.
use jank.Prelude.{
  ℕ, ◌+◌, ◌*◌, Bool, List, [], ◌∷◌, ◌++◌, Option, none, some, ◌≡◌, refl, ap, ◌∙◌, ◌⊎◌, inl, inr,
  arith, Bool-cases, length, if◌then◌else◌,
}
use jank.Runtime.ArrayMap.{ObjectRef}

abbrev pub Entry : Type 0
Entry = ObjectRef × ObjectRef

-- The entries as the array holds them.
unfoldable pub flat : List Entry → List ObjectRef
flat [] = []
flat ((k, v) ∷ kvs) = k ∷ v ∷ flat kvs

pub length-flat : (kvs : List Entry) → length (flat kvs) ≡ 2 * length kvs
unfolding flat
length-flat [] = refl
length-flat (e ∷ kvs) = omega (arith, length-flat kvs)

pub flat-append : (xs ys : List Entry) → flat (xs ++ ys) ≡ flat xs ++ flat ys
unfolding flat
flat-append [] ys = refl
flat-append ((k, v) ∷ xs) ys = rw (flat-append xs ys)

module _ (test : ObjectRef → Bool) where
  unfoldable pub lookup : List Entry → Option ObjectRef
  lookup [] = none
  lookup ((k, v) ∷ kvs) = if test k then some v else lookup kvs

  -- The map with the value at the key; a new entry goes to the end.
  unfoldable pub upsert : ObjectRef → ObjectRef → List Entry → List Entry
  upsert key value [] = (key, value) ∷ []
  upsert key value ((k, v) ∷ kvs) =
      if test k then (k, value) ∷ kvs else (k, v) ∷ upsert key value kvs

  unfoldable pub remove : List Entry → List Entry
  remove [] = []
  remove ((k, v) ∷ kvs) = if test k then kvs else (k, v) ∷ remove kvs

  -- Where the loop over the keys stops, if it starts at `i`.
  unfoldable pub position : ℕ → List Entry → Option ℕ
  position i [] = none
  position i ((k, v) ∷ kvs) = if test k then some i else position (i + 2) kvs

  pub record Missing (kvs : List Entry) : Type 0 where
    pub position-none : (i : ℕ) → position i kvs ≡ none
    pub lookup-none : lookup kvs ≡ none
    pub upsert-append : (key value : ObjectRef) → upsert key value kvs ≡ kvs ++ (key, value) ∷ []
    pub remove-none : remove kvs ≡ kvs

  pub record Found (kvs : List Entry) : Type 0 where
    pub before : List Entry
    pub key : ObjectRef
    pub value : ObjectRef
    pub after : List Entry
    pub shape : kvs ≡ before ++ (key, value) ∷ after
    pub position-some : (i : ℕ) → position i kvs ≡ some (i + 2 * length before)
    pub lookup-some : lookup kvs ≡ some value
    pub upsert-some : (k v : ObjectRef) → upsert k v kvs ≡ before ++ (key, v) ∷ after
    pub remove-some : remove kvs ≡ before ++ after

  -- Either no key passes the test, or there is a first one that does.
  pub Missing-or-Found : (kvs : List Entry) → Missing kvs ⊎ Found kvs
  unfolding position lookup upsert remove
  Missing-or-Found [] = inl (record {
    position-none = λ i. refl;
    lookup-none = refl;
    upsert-append = λ key value. refl;
    remove-none = refl;
  })
  Missing-or-Found ((k, v) ∷ kvs) = elim (Bool-cases (test k)) [
    | inl hit ↦ inr (record {
      before = [];
      key = k;
      value = v;
      after = kvs;
      shape = refl;
      position-some = λ i. rw hit (ap some (omega arith));
      lookup-some = rw hit;
      upsert-some = λ k' v'. rw hit;
      remove-some = rw hit;
    })
    | inr miss ↦ elim (Missing-or-Found kvs) [
      | inl m ↦ inl (record {
        position-none = λ i. rw miss (m.position-none (i + 2));
        lookup-none = rw miss m.lookup-none;
        upsert-append = λ key value. rw (miss, m.upsert-append key value);
        remove-none = rw (miss, m.remove-none);
      })
      | inr f ↦ inr (record {
        before = (k, v) ∷ f.before;
        key = f.key;
        value = f.value;
        after = f.after;
        shape = ap (λ (es : List Entry). (k, v) ∷ es) f.shape;
        position-some = λ i. rw miss (f.position-some (i + 2) ∙ ap some (omega arith));
        lookup-some = rw miss f.lookup-some;
        upsert-some = λ k' v'. rw (miss, f.upsert-some k' v');
        remove-some = rw (miss, f.remove-some);
      })
    ]
  ]
