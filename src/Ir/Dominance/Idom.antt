-- ===== src/Ir/Dominance/Idom.antt =====
-- Immediate dominators: `build_idom` and `build_dominance` of
-- compiler+runtime/src/cpp/jank/ir/dominance.cpp.
pub mod Assign
pub mod Intersect
pub mod Sweep
pub mod Sweeps
pub mod Start
pub mod Paths
pub mod Sound
pub mod Exact
use jank.Prelude.{
  ℕ, zero, suc, ◌+◌, ◌*◌, Bool, true, false, not, ◌||◌, List, [], ◌∷◌, ◌++◌, Option, none, some,
  ◌>>=◌, if◌then◌else◌, length, eq_bytes, at, put,
}
use jank.Ir.Instruction.{Identifier, Instruction, Op, jump, branch, loop, case_, try_}
use jank.Ir.Function.{Block, Function, has_terminator}
use jank.Ir.Dominance.{DominanceMap, RpoIndexMap, lcd}
use jank.Ir.Dominance.Rpo.{optional_block, pair_blocks, build_rpo}

abbrev pub Predecessors : Type 0
Predecessors = List (Identifier × List Identifier)

-- `preds[to]`, which is empty where there was no entry.
unfoldable pub predecessors_of : Predecessors → Identifier → List Identifier
predecessors_of preds to = elim (at preds to) [ none ↦ [] | some from ↦ from ]

-- `preds[to].push_back(from)` for each target.
unfoldable pub push_all : Identifier → List Identifier → Predecessors → Predecessors
unfolding predecessors_of
push_all from [] preds = preds
push_all from (to ∷ tos) preds =
    push_all from tos (put preds to (predecessors_of preds to ++ from ∷ []))

-- `.at(0)`
abbrev pub first : List Identifier → Option Identifier
first [] = none
first (x ∷ xs) = some x

-- The edges of one instruction of the block `b`. The targets of a `try` hang on the first
-- predecessor of its block; without one the code throws.
unfoldable pub add_edges : Identifier → Op → Predecessors → Option Predecessors
unfolding push_all
add_edges b (jump block is_loop) preds = some (push_all b (block ∷ []) preds)
add_edges b (branch condition then_block else_block merge_block) preds =
    some (push_all b (then_block ∷ else_block ∷ merge_block ∷ []) preds)
add_edges b (loop loop_block merge_block shadow binding_shadows) preds =
    some (push_all b (loop_block ∷ optional_block merge_block) preds)
add_edges b (case_ shift mask value case_blocks default_block merge_block) preds =
    some (push_all b (pair_blocks case_blocks ++ (default_block ∷ merge_block ∷ [])) preds)
add_edges b (try_ catches merge_block shadow finally_block) preds = do
  from ← first (predecessors_of preds b)
  some (push_all from (pair_blocks catches ++ (merge_block ∷ optional_block finally_block)) preds)
add_edges b _ preds = some preds

unfoldable pub add_block_edges : Identifier → List Instruction → Predecessors → Option Predecessors
unfolding add_edges
add_block_edges b [] preds = some preds
add_block_edges b (i ∷ is) preds = do preds' ← add_edges b i.op preds; add_block_edges b is preds'

-- `none` is also the failed assertion for a block without a terminator.
unfoldable pub add_all_edges : List Block → Predecessors → Option Predecessors
unfolding add_block_edges has_terminator
add_all_edges [] preds = some preds
add_all_edges (b ∷ bs) preds = elim (has_terminator b) [
  | false ↦ none
  | true ↦ do preds' ← add_block_edges b.name b.instructions preds; add_all_edges bs preds'
]

-- `preds.emplace(b.name, {})` for every block.
unfoldable pub no_predecessors : List Block → Predecessors
no_predecessors [] = []
no_predecessors (b ∷ bs) = put (no_predecessors bs) b.name []

unfoldable pub build_predecessors : List Block → Option Predecessors
unfolding no_predecessors add_all_edges
build_predecessors blocks = add_all_edges blocks (no_predecessors blocks)

-- `rpo_index[rpo[i]] = i`, from the index `i` on.
unfoldable pub index_from : ℕ → List Identifier → RpoIndexMap → RpoIndexMap
index_from i [] m = m
index_from i (x ∷ xs) m = index_from (i + 1) xs (put m x i)

-- `idom.contains(x)`
unfoldable pub is_processed : DominanceMap → Identifier → Bool
is_processed idom x = elim (at idom x) [ none ↦ false | some d ↦ true ]

-- The first predecessor with a dominator; the empty name if there is none.
unfoldable pub first_processed : DominanceMap → List Identifier → Identifier
unfolding is_processed
first_processed idom [] = []
first_processed idom (p ∷ ps) = if is_processed idom p then p else first_processed idom ps

module _ (fuel : ℕ) (rpo_index : RpoIndexMap) where
  -- The loop that intersects with the other processed predecessors.
  unfoldable pub intersect_all : DominanceMap → List Identifier → Identifier → Option Identifier
  unfolding is_processed
  intersect_all idom [] new_idom = some new_idom
  intersect_all idom (p ∷ ps) new_idom = elim (eq_bytes p new_idom || not (is_processed idom p)) [
    | true ↦ intersect_all idom ps new_idom
    | false ↦ do d ← lcd idom rpo_index fuel p new_idom; intersect_all idom ps d
  ]

  -- `idom.at(block_name) == new_idom`, where there is an entry.
  unfoldable pub is_idom : DominanceMap → Identifier → Identifier → Bool
  is_idom idom x d = elim (at idom x) [ none ↦ false | some d' ↦ eq_bytes d' d ]

  -- One block of a sweep: the map, and whether it changed.
  unfoldable pub sweep_block :
      Predecessors → Identifier → DominanceMap × Bool → Option (DominanceMap × Bool)
  unfolding first_processed intersect_all is_idom
  sweep_block preds x (idom, changed) = do
    block_preds ← at preds x
    let start = first_processed idom block_preds
    elim start [
      | [] ↦ some (idom, changed)
      | c ∷ cs ↦ do
        d ← intersect_all idom block_preds (c ∷ cs)
        some (if is_idom idom x d then (idom, changed) else (put idom x d, true))
    ]

  unfoldable pub sweep :
      Predecessors → List Identifier → DominanceMap × Bool → Option (DominanceMap × Bool)
  unfolding sweep_block
  sweep preds [] s = some s
  sweep preds (x ∷ xs) s = do s' ← sweep_block preds x s; sweep preds xs s'

  -- `while(changed)`; `none` is the end of the fuel of the loop, or a thrown `at`.
  unfoldable pub iterate : ℕ → Predecessors → List Identifier → DominanceMap → Option DominanceMap
  unfolding sweep
  iterate zero preds rest idom = none
  iterate (suc rounds) preds rest idom = do
    s ← sweep preds rest (idom, false)
    elim s.1 [ true ↦ iterate rounds preds rest s.0 | false ↦ some s.0 ]

-- `build_idom` for the list of the traversal; a sweep skips its first block, the entry. The indices
-- are below the length of the list, so twice that length is fuel enough for `lcd`.
unfoldable pub build_idom : ℕ → Function → List Identifier → Option Function
unfolding build_predecessors index_from iterate
build_idom rounds fn [] = none
build_idom rounds fn (entry ∷ rest) = do
  preds ← build_predecessors fn.blocks
  let rpo_index = index_from 0 (entry ∷ rest) []
  idom ← iterate (2 * length (entry ∷ rest) + 1) rpo_index rounds preds rest ((entry, entry) ∷ [])
  some (record fn { immediate_dominators = idom; rpo = entry ∷ rest; block_rpo_index = rpo_index })

-- The traversal starts at the first block, with fuel for every block.
unfoldable pub build_dominance : ℕ → Function → Option Function
unfolding build_rpo build_idom
build_dominance rounds fn = elim fn.blocks [
  | [] ↦ none
  | b ∷ bs ↦ do
    v ← build_rpo fn.blocks (length fn.blocks + 1) b.name (record { rpo = []; seen = [] })
    build_idom rounds fn v.rpo
]
