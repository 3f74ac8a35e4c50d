-- ===== src/Ir/Function.antt =====
-- Blocks and functions: include/cpp/jank/ir/processor.hpp and the members defined at the top of
-- src/cpp/jank/ir/processor.cpp, below compiler+runtime.
use mathlib.Core.List.{reverse}
use jank.Prelude.{
  ℕ, zero, suc, ◌-◌, Bool, false, List, [], ◌∷◌, ◌++◌, Option, none, some, ◌>>=◌, if◌then◌else◌,
  length, get_elem?, eq_bytes, ltb,
}
use jank.Ir.Instruction.{Identifier, Instruction, is_terminator, is_scope_close}

pub record Block : Type 0 where
  pub index : ℕ
  pub name : Identifier
  pub instructions : List Instruction

-- The part of a function that the passes read and write.
pub record Function : Type 0 where
  pub name : Identifier
  pub blocks : List Block
  pub immediate_dominators : List (Identifier × Identifier)
  pub rpo : List Identifier
  pub block_rpo_index : List (Identifier × ℕ)

-- The loop of `has_terminator`, over the instructions from the last to the first.
unfoldable pub terminator_from_end : List Instruction → Bool
terminator_from_end [] = false
terminator_from_end (i ∷ is) =
    if is_scope_close i.op then terminator_from_end is else is_terminator i.op

unfoldable pub has_terminator : Block → Bool
unfolding terminator_from_end is_scope_close is_terminator
has_terminator b = terminator_from_end (reverse b.instructions)

-- Returns the new block's index.
unfoldable pub add_block : Identifier → List Block → List Block × ℕ
add_block name blocks =
    let index = length blocks in
    (blocks ++ (record { index = index; name = name; instructions = [] } ∷ []), index)

-- `--blocks[i].index`, where `index` is positive.
unfoldable pub decrement_indices : List Block → List Block
decrement_indices [] = []
decrement_indices (b ∷ bs) = record b { index = b.index - 1 } ∷ decrement_indices bs

-- The erasure, and the loop over the blocks behind the erased one.
unfoldable pub erase_block : List Block → ℕ → List Block
unfolding decrement_indices
erase_block [] i = []
erase_block (b ∷ bs) zero = decrement_indices bs
erase_block (b ∷ bs) (suc i) = b ∷ erase_block bs i

-- `none` is the undefined behaviour of an erasure out of range.
unfoldable pub remove_block : List Block → ℕ → Option (List Block)
unfolding erase_block
remove_block bs i = if ltb i (length bs) then some (erase_block bs i) else none

-- The index of the first block with the name; `none` is the panic.
unfoldable pub find_block : List Block → Identifier → Option ℕ
find_block [] name = none
find_block (b ∷ bs) name =
    let later = (do i ← find_block bs name; some (suc i)) in
    if eq_bytes b.name name then some 0 else later

-- `blocks[find_block(name)]`
unfoldable pub block_named : List Block → Identifier → Option Block
unfolding find_block
block_named bs name = do i ← find_block bs name; get_elem? bs i
