-- ===== src/Ir/Dominance/Rpo.antt =====
-- The traversal of the control flow graph that lists the blocks in reverse post order: `build_rpo`
-- of compiler+runtime/src/cpp/jank/ir/dominance.cpp.
pub mod Visit
mod Build
pub mod Total
pub mod Resolve
use jank.Prelude.{
  ℕ, zero, suc, ◌+◌, Bool, true, false, List, [], ◌∷◌, ◌++◌, map, Option, none, some, ◌>>=◌,
  contains,
}
use jank.Ir.Instruction.{Identifier, Handle, Instruction, Op, jump, branch, loop, case_, try_}
use jank.Ir.Function.{Block, has_terminator, block_named}

abbrev pub optional_block : Option Identifier → List Identifier
optional_block none = []
optional_block (some block) = block ∷ []

-- `p.second` of each pair.
abbrev pub pair_blocks : List (Handle × Identifier) → List Identifier
pair_blocks = map (λ (p : Handle × Identifier). p.1)

-- The blocks that an instruction visits, in the order of the visits.
unfoldable pub targets : Op → List Identifier
targets (jump block is_loop) = block ∷ []
targets (branch condition then_block else_block merge_block) =
    then_block ∷ else_block ∷ merge_block ∷ []
targets (loop loop_block merge_block shadow binding_shadows) =
    loop_block ∷ optional_block merge_block
targets (case_ shift mask value case_blocks default_block merge_block) =
    pair_blocks case_blocks ++ (default_block ∷ merge_block ∷ [])
targets (try_ catches merge_block shadow finally_block) =
    pair_blocks catches ++ (merge_block ∷ optional_block finally_block)
targets _ = []

unfoldable pub block_targets : List Instruction → List Identifier
unfolding targets
block_targets [] = []
block_targets (i ∷ is) = targets i.op ++ block_targets is

-- The list that grows at its front, and the set of the blocks that were entered.
pub record Visits : Type 0 where
  pub rpo : List Identifier
  pub seen : List Identifier

-- The recursive calls for the targets, one after the other.
unfoldable pub visit_all :
    (Identifier → Visits → Option Visits) → List Identifier → Visits → Option Visits
visit_all visit [] s = some s
visit_all visit (name ∷ names) s = do s' ← visit name s; visit_all visit names s'

-- The body of `build_rpo`, with the recursive call as an argument; `none` is also the failed
-- assertion for a block without a terminator.
unfoldable pub visit_block : (Identifier → Visits → Option Visits) → Block → Visits → Option Visits
unfolding visit_all block_targets has_terminator
visit_block visit b s = elim (contains s.seen b.name) [
  | true ↦ some s
  | false ↦ elim (has_terminator b) [
    | false ↦ none
    | true ↦ do
      s' ← visit_all visit (block_targets b.instructions) (record s { seen = b.name ∷ s.seen })
      some (record s' { rpo = b.name ∷ s'.rpo })
  ]
]

-- `build_rpo` of the block with the name; `none` is the panic of `find_block`, a failed assertion,
-- or the end of the fuel, which bounds the depth of the calls.
unfoldable pub build_rpo : List Block → ℕ → Identifier → Visits → Option Visits
unfolding visit_block
build_rpo blocks zero name s = none
build_rpo blocks (suc fuel) name s = do
  b ← block_named blocks name
  visit_block (build_rpo blocks fuel) b s
