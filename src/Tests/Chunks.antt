-- ===== src/Tests/Chunks.antt =====
-- Filling and walking a chunk.
use jank.Prelude.{ℕ, List, [], ◌∷◌, ◌≡◌, refl, arith}
use jank.Runtime.Chunk.{
  ChunkBuffer, done, thrown, ◌>>=◌, integral, pos, negsuc, make_chunk, count, chunk_next, nth,
  nth_or, nth_fallback, with_capacity, append, chunk,
}
use jank.Runtime.Chunk.Filled.{append_all, Yields, chunk-append_all}

abbrev three : List ℕ
three = 10 ∷ 20 ∷ 30 ∷ []

nth_next : chunk_next (make_chunk three) >>= (λ c. nth c (integral (pos 1))) ≡ done 30
unfolding chunk_next nth nth_or count
nth_next = refl

nth_negative : nth_fallback (make_chunk three) (integral (negsuc 0)) 7 ≡ done 7
unfolding nth_fallback nth_or
nth_negative = refl

overfull : append_all (with_capacity 2) three ≡ thrown
unfolding append_all append
overfull = refl

chunk-append_all_example :
    (b : ChunkBuffer ℕ) × (append_all (with_capacity 4) three ≡ done b)
    × Yields (chunk b).0 three
    × ((o : ℕ) → append (chunk b).1 o ≡ thrown)
chunk-append_all_example = chunk-append_all 4 three (omega arith) (omega arith)
