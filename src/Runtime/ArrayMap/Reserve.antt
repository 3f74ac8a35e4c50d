-- ===== src/Runtime/ArrayMap/Reserve.antt =====
-- `reserve` copies the entries to a larger array.
use jank.Prelude.{
  ℕ, zero, suc, ◌+◌, ◌*◌, ◌%◌, ◌<◌, ◌≤◌, true, false, List, [], ◌∷◌, ◌++◌, ◌≡◌, refl, ap, sym, ◌∙◌,
  arith, Bool-cases, inl, inr, ltb, leb, length, length-append,
}
use jank.Runtime.ArrayMap.{ObjectRef, done, ArrayMap, max_size, fresh_slots, copy_pairs, reserve}
use jank.Runtime.ArrayMap.Entries.{Entry, flat, length-flat}
use jank.Runtime.ArrayMap.Slots.{
  read-append, read-append_second, write-append, write-append_second, append_pair,
  length-append_pair,
}
use jank.Runtime.ArrayMap.Represents.{Represents, Represents-length}

pub length-fresh_slots : (nil : ObjectRef) (n : ℕ) → length (fresh_slots nil n) ≡ n
unfolding fresh_slots
length-fresh_slots nil zero = refl
length-fresh_slots nil (suc n) = omega (arith, length-fresh_slots nil n)

copy_pairs-stop :
    (fuel : ℕ) (slots target : List ObjectRef) (n i : ℕ)
    → ltb i n ≡ false
    → copy_pairs (suc fuel) slots target n i ≡ done target
unfolding copy_pairs
copy_pairs-stop fuel slots target n i h = rw (h, copy_pairs)

-- One round of the loop.
copy_pairs-step :
    (fuel : ℕ) (pre : List ObjectRef) (x y a b : ObjectRef) (rest post : List ObjectRef) (n i : ℕ)
    → i ≡ length pre
    → i < n
    → n ≤ 16
    → copy_pairs (suc fuel) (pre ++ x ∷ y ∷ rest) (pre ++ a ∷ b ∷ post) n i
      ≡ copy_pairs fuel (pre ++ x ∷ y ∷ rest) (pre ++ x ∷ y ∷ post) n (i + 2)
unfolding copy_pairs
copy_pairs-step fuel pre x y a b rest post n i at_i lt small =
    let go : ltb i n ≡ true = ground (arith, lt) in
    let second : i + 1 ≡ length pre + 1 = omega arith in
    let next : (i + 2) % 256 ≡ i + 2 = omega arith in
    rw (go, copy_pairs)
      (rw (read-append pre x (y ∷ rest) i at_i, copy_pairs)
        (rw (write-append pre a x (b ∷ post) i at_i, copy_pairs)
          (rw (read-append_second pre x y rest (i + 1) second, copy_pairs)
            (rw (write-append_second pre x b y post (i + 1) second, copy_pairs) (rw next refl)))))

-- The loop copies the entries, and leaves the rest of the new array.
copy_pairs-flat :
    (kvs : List Entry) (fuel : ℕ) (pre spare post : List ObjectRef) (n i : ℕ)
    → length kvs < fuel
    → i ≡ length pre
    → n ≡ i + 2 * length kvs
    → n ≤ 16
    → 2 * length kvs ≤ length post
    → (post' : List ObjectRef) × (copy_pairs fuel (pre ++ (flat kvs ++ spare)) (pre ++ post) n i
        ≡ done (pre ++ (flat kvs ++ post')))
      × (length post' + 2 * length kvs ≡ length post)
unfolding flat
copy_pairs-flat kvs zero pre spare post n i lt at_i at_n small room = elim lt [ ]
copy_pairs-flat [] (suc fuel) pre spare post n i lt at_i at_n small room =
    (post, copy_pairs-stop fuel _ _ n i (ground arith), omega arith)
copy_pairs-flat ((x, y) ∷ kvs) (suc fuel) pre spare [] n i lt at_i at_n small room =
    absurd (omega (arith, room))
copy_pairs-flat ((x, y) ∷ kvs) (suc fuel) pre spare (a ∷ []) n i lt at_i at_n small room =
    absurd (omega (arith, room))
copy_pairs-flat ((x, y) ∷ kvs) (suc fuel) pre spare (a ∷ b ∷ post) n i lt at_i at_n small room =
    let (post', rest, size) =
      copy_pairs-flat kvs fuel (pre ++ x ∷ y ∷ []) spare post n (i + 2) (omega arith)
        (omega (arith, length-append_pair pre x y)) (omega arith) small (omega arith) in
    (
      post',
      copy_pairs-step fuel pre x y a b (flat kvs ++ spare) post n i at_i (omega arith) small
          ∙ ap (λ xs. copy_pairs fuel xs (pre ++ x ∷ y ∷ post) n (i + 2))
              (sym (append_pair pre x y (flat kvs ++ spare)))
          ∙ ap (λ xs. copy_pairs fuel ((pre ++ x ∷ y ∷ []) ++ (flat kvs ++ spare)) xs n (i + 2))
              (sym (append_pair pre x y post))
          ∙ rest
          ∙ ap (λ (xs : List ObjectRef). done xs) (append_pair pre x y (flat kvs ++ post')),
      omega (arith, size),
    )

-- In an array that holds the entries, `reserve` for up to 8 leaves the same entries, and a capacity
-- for those asked for.
pub reserve-Represents :
    (nil : ObjectRef) (size : ℕ) (m : ArrayMap) (kvs : List Entry)
    → Represents m kvs
    → size ≤ 8
    → (m' : ArrayMap) × (reserve nil size m ≡ done m') × Represents m' kvs × (2 * size ≤ m'.cap)
unfolding reserve
reserve-Represents nil size m kvs r le =
    let fits : ltb max_size size ≡ false = ground arith in
    let count = Represents-length m kvs r in
    elim (Bool-cases (leb ((size * 2) % 256) m.cap)) [
      | inl enough ↦ (m, rw (fits, reserve) (rw (enough, reserve) refl), r, ground (arith, enough))
      | inr more ↦
          let (post', copied, left) =
            copy_pairs-flat kvs (m.length + 1) [] r.spare (fresh_slots nil ((size * 2) % 256))
              m.length 0 (omega (arith, r.has_length)) refl (omega (arith, r.has_length))
              (omega (arith, r.has_length, r.bounded))
              (ground (arith, length-fresh_slots nil ((size * 2) % 256))) in
          (
            record m { slots = flat kvs ++ post'; cap = (size * 2) % 256 },
            rw (fits, reserve)
                (rw (more, reserve)
                  (rw
                    (
                      ap
                            (λ xs.
                              copy_pairs (m.length + 1) xs (fresh_slots nil ((size * 2) % 256))
                                m.length 0)
                            r.has_slots
                          ∙ copied,
                      reserve,
                    )
                    refl)),
            record {
              spare = post';
              has_slots = refl;
              has_length = r.has_length;
              has_cap = omega (
                arith,
                left,
                length-fresh_slots nil ((size * 2) % 256),
                length-flat kvs,
                length-append (flat kvs) post',
              );
              bounded = omega arith;
            },
            omega arith,
          )
    ]
