-- ===== src/Runtime/Chunk/Filled.antt =====
-- A chunk that is filled by a buffer: src/cpp/jank/runtime/obj/array_chunk.cpp and
-- chunk_buffer.cpp, below compiler+runtime.
use mathlib.Core.List.{append_assoc, append-nil}
use jank.Prelude.{
  ℕ, zero, suc, ◌+◌, ◌≤◌, ◌<◌, ◌%◌, true, false, List, [], ◌∷◌, ◌++◌, none, some, leb, ◌==◌, ◌≡◌,
  ◌⊎◌, refl, arith, inl, inr, Bool-cases, if◌then◌else◌, length, length-append, get_elem?, drop,
}
use jank.Runtime.Chunk.{
  ArrayChunk, ChunkBuffer, Access, done, thrown, ◌>>=◌, integral, pos, usize_values, count,
  chunk_next, read_object, nth_or, nth, with_capacity, append, chunk,
}

module _ {ℓ} {Object : Type ℓ} where
  -- Appends the objects one by one.
  unfoldable pub append_all : ChunkBuffer Object → List Object → Access (ChunkBuffer Object)
  unfolding append
  append_all b [] = done b
  append_all b (o ∷ os) = append b o >>= (λ b'. append_all b' os)

  -- What is left of a chunk.
  abbrev pub elements : ArrayChunk Object → List Object
  elements c = drop c.offset c.buffer

  -- An element of a list; out of range, an exception.
  abbrev pub element : List Object → ℕ → Access Object
  element os i = elim (get_elem? os i) [ none ↦ thrown | some o ↦ done o ]

  append_all_lem :
      (b : ChunkBuffer Object) (os : List Object)
      → length b.buffer ≤ b.capacity
      → append_all b os ≡ (
          if leb (length b.buffer + length os) b.capacity
          then done (record b { buffer = b.buffer ++ os })
          else thrown)
  unfolding append_all append
  append_all_lem b [] fits = ground (arith, append-nil b.buffer)
  append_all_lem b (o ∷ os) fits = elim (Bool-cases (length b.buffer == b.capacity)) [
    | inl full ↦ ground arith
    | inr room ↦
        let b' : ChunkBuffer Object = record b { buffer = b.buffer ++ (o ∷ []) } in
        ground (
          arith,
          append_all_lem b' os,
          length-append b.buffer (o ∷ []),
          append_assoc b.buffer (o ∷ []) os,
        )
  ]

  -- An index is beyond the list, or has an element.
  get_elem?-cases :
      (os : List Object) (i : ℕ)
      → ((leb (length os) i ≡ true) × (get_elem? os i ≡ none))
        ⊎ ((i < length os)
            × (leb (length os) i ≡ false)
            × ((o : Object) × (get_elem? os i ≡ some o)))
  get_elem?-cases [] i = inl (ground arith, refl)
  get_elem?-cases (o ∷ os) zero = inr (ground arith, ground arith, (o, refl))
  get_elem?-cases (o ∷ os) (suc i) = elim (get_elem?-cases os i) [
    | inl (beyond, none_there) ↦ inl (ground arith, none_there)
    | inr (less, within, found) ↦ inr (omega arith, ground arith, found)
  ]

  get_elem?-append :
      (before os : List Object) (i : ℕ)
      → get_elem? (before ++ os) (length before + i) ≡ get_elem? os i
  get_elem?-append [] os i = let at_start : 0 + i ≡ i = omega arith in rw at_start refl
  get_elem?-append (o ∷ before) os i =
      let shift : suc (length before) + i ≡ suc (length before + i) = omega arith in
      rw shift (get_elem?-append before os i)

  -- The chunk in front of `os`, in a vector that starts with `before`.
  abbrev behind : List Object → List Object → ArrayChunk Object
  behind before os = record { buffer = before ++ os; offset = length before }

  count-behind : (before os : List Object) → count (behind before os) ≡ length os
  unfolding count
  count-behind before os = ground (arith, length-append before os)

  nth-behind :
      (before os : List Object) (i : ℕ)
      → length (before ++ os) < usize_values
      → nth (behind before os) (integral (pos i)) ≡ element os i
  unfolding nth nth_or
  nth-behind before os i few = elim (get_elem?-cases os i) [
    | inl (beyond, none_there) ↦
        rw (count-behind before os) (rw beyond (rw (none_there, element) refl))
    | inr (less, within, (o, found)) ↦
        let size = length-append before os in
        let small : (length before + i) % usize_values ≡ length before + i = omega arith in
        rw (count-behind before os) (
          rw within
            (rw small (rw (get_elem?-append before os i, found, read_object, element) refl)))
  ]

  chunk_next-behind :
      (before os : List Object) (o : Object)
      → length (before ++ (o ∷ os)) < usize_values
      → chunk_next (behind before (o ∷ os)) ≡ done (behind (before ++ (o ∷ [])) os)
  unfolding chunk_next
  chunk_next-behind before os o few =
      let size = length-append before (o ∷ os) in
      let size' = length-append before (o ∷ []) in
      let more : (length before == length (before ++ (o ∷ os))) ≡ false = ground arith in
      let step : (length before + 1) % usize_values ≡ length (before ++ (o ∷ [])) = omega arith in
      rw more (rw (step, append_assoc before (o ∷ []) os) refl)

  -- From the chunk `c` on, `os` is what there is: the count and the elements of the chunk are
  -- those of `os`, and `chunk_next` leads on to the rest of `os`, and throws where it is empty.
  pub Yields : ArrayChunk Object → List Object → Type ℓ
  Yields c [] =
      (count c ≡ 0) × ((i : ℕ) → nth c (integral (pos i)) ≡ thrown) × (chunk_next c ≡ thrown)
  Yields c (o ∷ os) =
      (count c ≡ suc (length os))
      × ((i : ℕ) → nth c (integral (pos i)) ≡ element (o ∷ os) i)
      × ((c' : ArrayChunk Object) × (chunk_next c ≡ done c') × Yields c' os)

  behind-Yields :
      (before os : List Object)
      → length (before ++ os) < usize_values
      → Yields (behind before os) os
  unfolding Yields chunk_next
  behind-Yields before [] few = (
    count-behind before [],
    (λ i. nth-behind before [] i few),
    ground (arith, length-append before []),
  )
  behind-Yields before (o ∷ os) few =
      let before' = before ++ (o ∷ []) in
      (
        count-behind before (o ∷ os),
        (λ i. nth-behind before (o ∷ os) i few),
        (
          behind before' os,
          chunk_next-behind before os o few,
          behind-Yields before' os (rw (append_assoc before (o ∷ []) os) few),
        ),
      )

  -- Of at most as many objects as its capacity, fewer than 2^64, a new buffer takes all; the chunk
  -- that it gives yields them in order, and the buffer takes no more afterwards.
  pub chunk-append_all :
      (capacity : ℕ) (os : List Object)
      → length os ≤ capacity
      → length os < usize_values
      → (b : ChunkBuffer Object) × (append_all (with_capacity capacity) os ≡ done b)
        × Yields (chunk b).0 os
        × ((o : Object) → append (chunk b).1 o ≡ thrown)
  unfolding chunk append
  chunk-append_all capacity os fits few = (
    record { capacity = capacity; buffer = os },
    rw (append_all_lem (with_capacity capacity) os (omega arith)) (ground arith),
    behind-Yields [] os few,
    (λ o. refl),
  )
