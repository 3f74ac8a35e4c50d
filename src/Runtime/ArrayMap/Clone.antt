-- ===== src/Runtime/ArrayMap/Clone.antt =====
-- `clone` copies the slots that are in use.
use jank.Prelude.{
  ℕ, zero, suc, ◌+◌, ◌%◌, ◌<◌, ◌≤◌, true, false, List, [], ◌∷◌, ◌++◌, ◌≡◌, refl, ap, sym, ◌∙◌,
  arith, ltb, length, length-append,
}
use jank.Runtime.ArrayMap.{ObjectRef, done, ArrayMap, fresh_slots, copy_slots, clone}
use jank.Runtime.ArrayMap.Entries.{Entry, flat, length-flat}
use jank.Runtime.ArrayMap.Slots.{read-append, write-append, append_snoc}
use jank.Runtime.ArrayMap.Represents.{Represents, Represents-length}
use jank.Runtime.ArrayMap.Reserve.{length-fresh_slots}

copy_slots-stop :
    (fuel : ℕ) (slots target : List ObjectRef) (n i : ℕ)
    → ltb i n ≡ false
    → copy_slots (suc fuel) slots target n i ≡ done target
unfolding copy_slots
copy_slots-stop fuel slots target n i h = rw (h, copy_slots)

copy_slots-step :
    (fuel : ℕ) (pre : List ObjectRef) (x a : ObjectRef) (rest post : List ObjectRef) (n i : ℕ)
    → i ≡ length pre
    → i < n
    → n ≤ 16
    → copy_slots (suc fuel) (pre ++ x ∷ rest) (pre ++ a ∷ post) n i
      ≡ copy_slots fuel (pre ++ x ∷ rest) (pre ++ x ∷ post) n (i + 1)
unfolding copy_slots
copy_slots-step fuel pre x a rest post n i at_i lt small =
    let go : ltb i n ≡ true = ground (arith, lt) in
    let next : (i + 1) % 256 ≡ i + 1 = omega arith in
    rw (go, copy_slots)
      (rw (read-append pre x rest i at_i, copy_slots)
        (rw (write-append pre a x post i at_i, copy_slots) (rw next refl)))

-- The loop copies the slots below the length, and leaves the rest of the new array.
copy_slots-append :
    (xs : List ObjectRef) (fuel : ℕ) (pre spare post : List ObjectRef) (n i : ℕ)
    → length xs < fuel
    → i ≡ length pre
    → n ≡ i + length xs
    → n ≤ 16
    → length xs ≤ length post
    → (post' : List ObjectRef) × (copy_slots fuel (pre ++ (xs ++ spare)) (pre ++ post) n i
        ≡ done (pre ++ (xs ++ post')))
      × (length post' + length xs ≡ length post)
copy_slots-append xs zero pre spare post n i lt at_i at_n small room = elim lt [ ]
copy_slots-append [] (suc fuel) pre spare post n i lt at_i at_n small room =
    (post, copy_slots-stop fuel _ _ n i (ground arith), omega arith)
copy_slots-append (x ∷ xs) (suc fuel) pre spare [] n i lt at_i at_n small room =
    absurd (omega (arith, room))
copy_slots-append (x ∷ xs) (suc fuel) pre spare (a ∷ post) n i lt at_i at_n small room =
    let size : length (pre ++ x ∷ []) ≡ length pre + 1 =
      omega (arith, length-append pre (x ∷ [])) in
    let (post', rest, left) =
      copy_slots-append xs fuel (pre ++ x ∷ []) spare post n (i + 1) (omega arith)
        (omega (arith, size)) (omega arith) small (omega arith) in
    (
      post',
      copy_slots-step fuel pre x a (xs ++ spare) post n i at_i (omega arith) small
          ∙ ap (λ ys. copy_slots fuel ys (pre ++ x ∷ post) n (i + 1))
              (sym (append_snoc pre x (xs ++ spare)))
          ∙ ap (λ ys. copy_slots fuel ((pre ++ x ∷ []) ++ (xs ++ spare)) ys n (i + 1))
              (sym (append_snoc pre x post))
          ∙ rest
          ∙ ap (λ (ys : List ObjectRef). done ys) (append_snoc pre x (xs ++ post')),
      omega (arith, left),
    )

-- Of an array that holds the entries, `clone` stays in the array and returns one of the same
-- capacity that holds the same entries.
pub clone-Represents :
    (nil : ObjectRef) (m : ArrayMap) (kvs : List Entry)
    → Represents m kvs
    → (m' : ArrayMap) × (clone nil m ≡ done m') × Represents m' kvs × (m'.cap ≡ m.cap)
unfolding clone
clone-Represents nil m kvs r =
    let count = Represents-length m kvs r in
    let (post', copied, left) =
      copy_slots-append (flat kvs) (m.length + 1) [] r.spare (fresh_slots nil m.cap) m.length 0
        (omega (arith, r.has_length, length-flat kvs)) refl
        (omega (arith, r.has_length, length-flat kvs)) (omega (arith, r.has_length, r.bounded))
        (omega (arith, length-fresh_slots nil m.cap, length-flat kvs)) in
    (
      record m { slots = flat kvs ++ post' },
      rw
          (
            ap (λ xs. copy_slots (m.length + 1) xs (fresh_slots nil m.cap) m.length 0) r.has_slots
                ∙ copied,
            clone,
          )
          refl,
      record {
        spare = post';
        has_slots = refl;
        has_length = r.has_length;
        has_cap = omega (
          arith,
          left,
          length-fresh_slots nil m.cap,
          length-flat kvs,
          length-append (flat kvs) post',
        );
        bounded = r.bounded;
      },
      refl,
    )
