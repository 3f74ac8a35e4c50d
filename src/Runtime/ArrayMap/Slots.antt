-- ===== src/Runtime/ArrayMap/Slots.antt =====
-- Reads and writes at an index that a list is split at.
use jank.Prelude.{
  ℕ, ◌+◌, true, List, [], ◌∷◌, ◌++◌, some, ◌≡◌, refl, ap, sym, ◌∙◌, arith, ltb, length, get_elem?,
  set, length-append,
}
use jank.Runtime.ArrayMap.{ObjectRef, done, read, write, read_all}

get_elem?-append :
    (pre : List ObjectRef) (x : ObjectRef) (post : List ObjectRef)
    → get_elem? (pre ++ x ∷ post) (length pre) ≡ some x
get_elem?-append [] x post = refl
get_elem?-append (y ∷ pre) x post = get_elem?-append pre x post

set-append :
    (pre : List ObjectRef) (x w : ObjectRef) (post : List ObjectRef)
    → set (pre ++ x ∷ post) (length pre) w ≡ pre ++ w ∷ post
set-append [] x w post = refl
set-append (y ∷ pre) x w post = ap (λ (xs : List ObjectRef). y ∷ xs) (set-append pre x w post)

pub append_snoc :
    (pre : List ObjectRef) (x : ObjectRef) (post : List ObjectRef)
    → (pre ++ x ∷ []) ++ post ≡ pre ++ x ∷ post
append_snoc [] x post = refl
append_snoc (y ∷ pre) x post = ap (λ (xs : List ObjectRef). y ∷ xs) (append_snoc pre x post)

-- The index in the lemmas is any number that equals the length of the front part.
pub read-append :
    (pre : List ObjectRef) (x : ObjectRef) (post : List ObjectRef) (i : ℕ)
    → i ≡ length pre
    → read (pre ++ x ∷ post) i ≡ done x
unfolding read
read-append pre x post i e = rw (e, get_elem?-append pre x post, read)

pub read-append_second :
    (pre : List ObjectRef) (x y : ObjectRef) (post : List ObjectRef) (i : ℕ)
    → i ≡ length pre + 1
    → read (pre ++ x ∷ y ∷ post) i ≡ done y
read-append_second pre x y post i e =
    ap (λ xs. read xs i) (sym (append_snoc pre x (y ∷ post)))
    ∙ read-append (pre ++ x ∷ []) y post i (omega (arith, e, length-append pre (x ∷ [])))

write-append_here :
    (pre : List ObjectRef) (x w : ObjectRef) (post : List ObjectRef)
    → write (pre ++ x ∷ post) (length pre) w ≡ done (pre ++ w ∷ post)
unfolding write
write-append_here pre x w post =
    let inside : ltb (length pre) (length (pre ++ x ∷ post)) ≡ true =
      ground (arith, length-append pre (x ∷ post)) in
    rw (inside, write) (ap (λ (xs : List ObjectRef). done xs) (set-append pre x w post))

pub write-append :
    (pre : List ObjectRef) (x w : ObjectRef) (post : List ObjectRef) (i : ℕ)
    → i ≡ length pre
    → write (pre ++ x ∷ post) i w ≡ done (pre ++ w ∷ post)
write-append pre x w post i e = rw e (write-append_here pre x w post)

pub write-append_second :
    (pre : List ObjectRef) (x y w : ObjectRef) (post : List ObjectRef) (i : ℕ)
    → i ≡ length pre + 1
    → write (pre ++ x ∷ y ∷ post) i w ≡ done (pre ++ x ∷ w ∷ post)
write-append_second pre x y w post i e =
    ap (λ xs. write xs i w) (sym (append_snoc pre x (y ∷ post)))
    ∙ write-append (pre ++ x ∷ []) y w post i (omega (arith, e, length-append pre (x ∷ [])))
    ∙ ap (λ (xs : List ObjectRef). done xs) (append_snoc pre x (w ∷ post))

-- Two slots at once.
pub length-append_pair :
    (pre : List ObjectRef) (x y : ObjectRef) → length (pre ++ x ∷ y ∷ []) ≡ length pre + 2
length-append_pair pre x y = length-append pre (x ∷ y ∷ []) ∙ omega arith

pub append_pair :
    (pre : List ObjectRef) (x y : ObjectRef) (post : List ObjectRef)
    → (pre ++ x ∷ y ∷ []) ++ post ≡ pre ++ x ∷ y ∷ post
append_pair [] x y post = refl
append_pair (z ∷ pre) x y post = ap (λ (xs : List ObjectRef). z ∷ xs) (append_pair pre x y post)

read_all-from :
    (pre xs : List ObjectRef) (post : List ObjectRef) (i : ℕ)
    → i ≡ length pre
    → read_all (length xs) i (pre ++ (xs ++ post)) ≡ done xs
unfolding read_all
read_all-from pre [] post i e = refl
read_all-from pre (x ∷ xs) post i e =
    let here = read-append pre x (xs ++ post) i e in
    let rest =
      read_all-from (pre ++ x ∷ []) xs post (i + 1)
        (omega (arith, e, length-append pre (x ∷ []))) in
    let rest' = rw (append_snoc pre x (xs ++ post)) at rest in rw (here, rest')

-- Reading the front part returns it.
pub read_all-append :
    (xs post : List ObjectRef) (n : ℕ) → n ≡ length xs → read_all n 0 (xs ++ post) ≡ done xs
read_all-append xs post n e = rw e (read_all-from [] xs post 0 refl)
