-- ===== src/Ir/Opt/HoistLiterals.antt =====
-- compiler+runtime/src/cpp/jank/ir/opt/hoist_literals.cpp
use jank.Prelude.{ℕ, Bool, List, [], ◌∷◌, Option, none, some, ◌>>=◌}
use jank.Ir.Instruction.{Identifier, Handle, Instruction}
use jank.Ir.Function.{Block, Function}
use jank.Ir.Opt.Hoist.{
  Occurrence, hoist_groups, is_literal, add_occurrence, literal_of, all_instructions,
}

-- The table that `collect_literals` fills, from the literals of the instructions. `same` compares
-- two objects with their metadata (`very_equal_to_with_meta`).
unfoldable pub collect_literals_from :
    (Handle → Handle → Bool)
    → List (Identifier × Instruction)
    → List (Handle × List Occurrence)
    → List (Handle × List Occurrence)
unfolding literal_of add_occurrence
collect_literals_from same [] result = result
collect_literals_from same ((block, i) ∷ rest) result =
    collect_literals_from same rest (elim (literal_of i.op) [
      | none ↦ result
      | some obj ↦ add_occurrence same obj (block, i.name) result
    ])

unfoldable pub collect_literals :
    (Handle → Handle → Bool) → List Block → List (Handle × List Occurrence)
unfolding collect_literals_from all_instructions
collect_literals same blocks = collect_literals_from same (all_instructions blocks) []

-- The pass on a function, with the counter of generated names before and after.
unfoldable pub hoist_literals :
    (Handle → Handle → Bool) → Handle → Handle → Function → ℕ → Option (Function × ℕ)
unfolding collect_literals hoist_groups
hoist_literals same void_type unknown fn symbol_counter = do
  s ←
      hoist_groups is_literal void_type unknown fn.immediate_dominators fn.block_rpo_index
        (collect_literals same fn.blocks)
        (record { blocks = fn.blocks; symbol_counter = symbol_counter })
  some (record fn { blocks = s.blocks }, s.symbol_counter)
