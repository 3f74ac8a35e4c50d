-- ===== src/Runtime/Chunk.antt =====
-- Chunks of sequences: src/cpp/jank/runtime/obj/array_chunk.cpp and chunk_buffer.cpp, and their
-- headers, below compiler+runtime.
pub mod Filled
use jank.Prelude.{
  ℕ, ◌+◌, ◌-◌, ◌%◌, Bool, true, false, List, [], ◌∷◌, ◌++◌, Option, none, some, leb, ◌==◌,
  if◌then◌else◌, length, get_elem?,
}

-- Signed numbers: `pos n` is n, `negsuc n` is -1-n.
pub data ℤ : Type 0 where
  pos : ℕ → ℤ
  negsuc : ℕ → ℤ

-- What an operation does: it returns, it throws, or it reads outside of a vector.
pub data Access {ℓ} (A : Type ℓ) : Type ℓ where
  done : A → Access A
  thrown : Access A
  undefined : Access A

infixl 5 ◌>>=◌
abbrev pub ◌>>=◌ {ℓ κ} : {A : Type ℓ} {B : Type κ} → Access A → (A → Access B) → Access B
done a >>= f = f a
thrown >>= f = thrown
undefined >>= f = undefined

-- The object that is an index: an integral number, or another object.
pub data Index : Type 0 where
  integral : ℤ → Index
  other : Index

-- Numbers of `usize`.
abbrev pub usize_values : ℕ
usize_values = 18446744073709551616

module _ {ℓ} (Object : Type ℓ) where
  pub record ArrayChunk : Type ℓ where
    pub buffer : List Object
    pub offset : ℕ

  pub record ChunkBuffer : Type ℓ where
    pub capacity : ℕ
    pub buffer : List Object

module _ {ℓ} {Object : Type ℓ} where
  -- The constructor from a vector alone.
  abbrev pub make_chunk : List Object → ArrayChunk Object
  make_chunk buffer = record { buffer = buffer; offset = 0 }

  -- `array_chunk::count`: the difference wraps where the offset is above the size.
  unfoldable pub count : ArrayChunk Object → ℕ
  count c =
      let size = length c.buffer in
      if leb c.offset size then size - c.offset else size + usize_values - c.offset

  -- `chunk_next`, and the chunk that `chunk_next_in_place` turns into.
  unfoldable pub chunk_next : ArrayChunk Object → Access (ArrayChunk Object)
  chunk_next c =
      if c.offset == length c.buffer
      then thrown
      else done (record c { offset = (c.offset + 1) % usize_values })

  -- `buffer[i]`
  abbrev pub read_object : List Object → ℕ → Access Object
  read_object buffer i = elim (get_elem? buffer i) [ none ↦ undefined | some o ↦ done o ]

  -- The common part of both `nth`: what they do out of range is an argument.
  unfoldable pub nth_or : Access Object → ArrayChunk Object → Index → Access Object
  unfolding count
  nth_or outside c other = outside
  nth_or outside c (integral (negsuc _)) = outside
  nth_or outside c (integral (pos i)) =
      if leb (count c) i then outside else read_object c.buffer ((c.offset + i) % usize_values)

  unfoldable pub nth : ArrayChunk Object → Index → Access Object
  unfolding nth_or
  nth c index = nth_or thrown c index

  unfoldable pub nth_fallback : ArrayChunk Object → Index → Object → Access Object
  unfolding nth_or
  nth_fallback c index fallback = nth_or (done fallback) c index

  -- The constructor with a capacity.
  abbrev pub with_capacity : ℕ → ChunkBuffer Object
  with_capacity capacity = record { capacity = capacity; buffer = [] }

  -- The constructor with an object for the capacity, whose number is `c`.
  unfoldable pub with_number : ℤ → Access (ChunkBuffer Object)
  with_number (negsuc _) = thrown
  with_number (pos c) = done (with_capacity c)

  -- `chunk_buffer::count`
  abbrev pub buffered : ChunkBuffer Object → ℕ
  buffered b = length b.buffer

  unfoldable pub append : ChunkBuffer Object → Object → Access (ChunkBuffer Object)
  append b o =
      if length b.buffer == b.capacity
      then thrown
      else done (record b { buffer = b.buffer ++ (o ∷ []) })

  -- The chunk, and the buffer afterwards.
  unfoldable pub chunk : ChunkBuffer Object → ArrayChunk Object × ChunkBuffer Object
  chunk b = (make_chunk b.buffer, with_capacity 0)
