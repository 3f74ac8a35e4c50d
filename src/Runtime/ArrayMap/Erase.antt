-- ===== src/Runtime/ArrayMap/Erase.antt =====
-- `erase` moves the later entries down by one entry.
use jank.Prelude.{
  ℕ, zero, suc, ◌+◌, ◌-◌, ◌*◌, ◌%◌, ◌<◌, ◌≤◌, Bool, true, false, List, [], ◌∷◌, ◌++◌, Option, ◌≡◌,
  refl, ap, sym, ◌∙◌, arith, inl, inr, ltb, length, length-append,
}
use mathlib.Core.List.{append_assoc}
use jank.Runtime.ArrayMap.{ObjectRef, done, ArrayMap, read, shift_down, matches, erase}
use jank.Runtime.ArrayMap.Entries.{Entry, flat, length-flat, flat-append, remove, Missing-or-Found}
use jank.Runtime.ArrayMap.Slots.{
  read-append, read-append_second, write-append, write-append_second, append_pair,
  length-append_pair,
}
use jank.Runtime.ArrayMap.Represents.{
  Represents, Represents-length, Represents-index_of, Found-slots,
}

shift_down-stop :
    (fuel : ℕ) (slots : List ObjectRef) (n k : ℕ)
    → ltb k n ≡ false
    → shift_down (suc fuel) slots n k ≡ done slots
unfolding shift_down
shift_down-stop fuel slots n k h = rw (h, shift_down)

-- One round of the loop, on the pair before and the pair at the index.
shift_down-step :
    (fuel : ℕ) (pre : List ObjectRef) (a b x y : ObjectRef) (post : List ObjectRef) (n k : ℕ)
    → k ≡ length pre + 2
    → k < n
    → n ≤ 16
    → shift_down (suc fuel) (pre ++ a ∷ b ∷ x ∷ y ∷ post) n k
      ≡ shift_down fuel (pre ++ x ∷ y ∷ x ∷ y ∷ post) n (k + 2)
unfolding shift_down
shift_down-step fuel pre a b x y post n k at_k lt small =
    let go : ltb k n ≡ true = ground (arith, lt) in
    let slot : k ≡ length (pre ++ a ∷ b ∷ []) = omega (arith, length-append_pair pre a b) in
    let slot' : k + 1 ≡ length (pre ++ x ∷ b ∷ []) + 1 =
      omega (arith, length-append_pair pre x b) in
    let first : read (pre ++ a ∷ b ∷ x ∷ y ∷ post) k ≡ done x =
      ap (λ xs. read xs k) (sym (append_pair pre a b (x ∷ y ∷ post)))
      ∙ read-append (pre ++ a ∷ b ∷ []) x (y ∷ post) k slot in
    let second : read (pre ++ x ∷ b ∷ x ∷ y ∷ post) (k + 1) ≡ done y =
      ap (λ xs. read xs (k + 1)) (sym (append_pair pre x b (x ∷ y ∷ post)))
      ∙ read-append_second (pre ++ x ∷ b ∷ []) x y post (k + 1) slot' in
    let next : (k + 2) % 256 ≡ k + 2 = omega arith in
    rw (go, shift_down)
      (rw (first, shift_down)
        (rw (write-append pre a x (b ∷ x ∷ y ∷ post) (k - 2) (omega arith), shift_down)
          (rw (second, shift_down)
            (rw (write-append_second pre x b y (x ∷ y ∷ post) (k - 1) (omega arith), shift_down)
              (rw next refl)))))

-- The later entries, moved down by one entry, with two slots more behind them.
shift_down-flat :
    (kvs : List Entry) (fuel : ℕ) (pre : List ObjectRef) (a b : ObjectRef) (spare : List ObjectRef)
    (n k : ℕ)
    → length kvs < fuel
    → k ≡ length pre + 2
    → n ≡ k + 2 * length kvs
    → n ≤ 16
    → (x : ObjectRef) × (y : ObjectRef) × (shift_down fuel (pre ++ a ∷ b ∷ (flat kvs ++ spare)) n k
        ≡ done (pre ++ (flat kvs ++ x ∷ y ∷ spare)))
unfolding flat
shift_down-flat kvs zero pre a b spare n k lt at_k at_n small = elim lt [ ]
shift_down-flat [] (suc fuel) pre a b spare n k lt at_k at_n small =
    (a, b, shift_down-stop fuel _ n k (ground arith))
shift_down-flat ((u, v) ∷ kvs) (suc fuel) pre a b spare n k lt at_k at_n small =
    let (x, y, rest) =
      shift_down-flat kvs fuel (pre ++ u ∷ v ∷ []) u v spare n (k + 2) (omega arith)
        (omega (arith, length-append_pair pre u v)) (omega arith) small in
    (
      x,
      y,
      shift_down-step fuel pre a b u v (flat kvs ++ spare) n k at_k (omega arith) small
          ∙ ap (λ xs. shift_down fuel xs n (k + 2))
              (sym (append_pair pre u v (u ∷ v ∷ (flat kvs ++ spare))))
          ∙ rest
          ∙ ap (λ (xs : List ObjectRef). done xs) (append_pair pre u v (flat kvs ++ x ∷ y ∷ spare)),
    )

module _ (is_keyword : ObjectRef → Bool) (equal : ObjectRef → ObjectRef → Bool) where
  -- In an array that holds the entries, `erase` stays in the array and leaves the entries without the
  -- first one whose key matches.
  pub erase-remove :
      (m : ArrayMap) (kvs : List Entry) (key : ObjectRef)
      → Represents m kvs
      → (m' : ArrayMap) × (erase is_keyword equal key m ≡ done m')
        × Represents m' (remove (matches is_keyword equal key) kvs)
  unfolding erase
  erase-remove m kvs key r =
      let test = matches is_keyword equal key in
      let stops = Represents-index_of test m kvs r in
      let count = Represents-length m kvs r in
      elim (Missing-or-Found test kvs) [
        | inl missing ↦ (
          m,
          rw (stops ∙ ap (λ (o : Option ℕ). done o) (missing.position-none 0), erase) refl,
          rw missing.remove-none r,
        )
        | inr f ↦
            let size : length kvs ≡ length f.before + suc (length f.after) =
              ap length f.shape ∙ length-append f.before ((f.key, f.value) ∷ f.after) in
            let start : (0 + 2 * length f.before + 2) % 256 ≡ length (flat f.before) + 2 =
              omega (arith, length-flat f.before, size, r.bounded, count) in
            let (x, y, moved) =
              shift_down-flat f.after (m.length + 1) (flat f.before) f.key f.value r.spare m.length
                ((0 + 2 * length f.before + 2) % 256) (omega (arith, size, r.has_length)) start
                (omega (arith, size, r.has_length, start, length-flat f.before))
                (omega (arith, r.has_length, r.bounded, count)) in
            let joined : flat f.before ++ (flat f.after ++ x ∷ y ∷ r.spare)
                ≡ flat (f.before ++ f.after) ++ x ∷ y ∷ r.spare =
              sym (
                ap (λ xs. xs ++ x ∷ y ∷ r.spare) (flat-append f.before f.after)
                ∙ append_assoc (flat f.before) (flat f.after) (x ∷ y ∷ r.spare)) in
            let size' = length-append f.before f.after in
            (
              record m {
                slots = flat (f.before ++ f.after) ++ x ∷ y ∷ r.spare;
                length = (m.length + 254) % 256;
                hash = 0;
              },
              rw (stops ∙ ap (λ (o : Option ℕ). done o) (f.position-some 0), erase)
                  (rw
                    (
                      ap
                            (λ xs.
                              shift_down (m.length + 1) xs m.length
                                ((0 + 2 * length f.before + 2) % 256))
                            (Found-slots test m kvs r f)
                          ∙ moved
                          ∙ ap (λ (xs : List ObjectRef). done xs) joined,
                      erase,
                    )
                    refl),
              rw f.remove-some (record {
                spare = x ∷ y ∷ r.spare;
                has_slots = refl;
                has_length = omega (arith, size, size', r.has_length, r.bounded, count);
                has_cap =
                    r.has_cap
                    ∙ ap length r.has_slots
                    ∙ length-append (flat kvs) r.spare
                    ∙ omega (
                      arith,
                      length-flat kvs,
                      size,
                      size',
                      length-flat (f.before ++ f.after),
                      length-append (flat (f.before ++ f.after)) (x ∷ y ∷ r.spare),
                    );
                bounded = r.bounded;
              }),
            )
      ]
