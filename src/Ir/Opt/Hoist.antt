-- ===== src/Ir/Opt/Hoist.antt =====
-- Hoisting of literals and var derefs into the lowest common dominator of their blocks:
-- hoist_literals.cpp and hoist_var_derefs.cpp of compiler+runtime/src/cpp/jank/ir/opt, and
-- `replace_with_nop` of compiler+runtime/src/cpp/jank/ir/util.cpp.
pub mod Present
pub mod Duplicates
pub mod Canonical
pub mod Group
use jank.Prelude.{
  ℕ, ◌+◌, ◌*◌, Bool, true, false, List, [], ◌∷◌, ◌++◌, map, Option, none, some, ◌>>=◌,
  if◌then◌else◌, ◌==◌, length, get_elem?, set, Bytes, eq_bytes,
}
use jank.Runtime.UniqueString.{fresh_name}
use jank.Ir.Instruction.{
  Identifier, Handle, Instruction, Op, nop, parameter, capture, cpp_scope_open, literal, var_deref,
  loop,
}
use jank.Ir.Function.{Block, find_block, block_named}
use jank.Ir.Rewrite.{rewrite_uses}
use jank.Ir.Dominance.{DominanceMap, RpoIndexMap, lcd_all}

-- What a pass changes: the blocks, and the counter of generated names.
pub record Pass : Type 0 where
  pub blocks : List Block
  pub symbol_counter : ℕ

-- A block and an instruction of it.
abbrev pub Occurrence : Type 0
Occurrence = Identifier × Identifier

-- The first instruction of the name, replaced; `none` if there is none.
unfoldable pub replace_instruction :
    Identifier → Instruction → List Instruction → Option (List Instruction)
replace_instruction name new [] = none
replace_instruction name new (i ∷ is) =
    let rest = (do is' ← replace_instruction name new is; some (i ∷ is')) in
    if eq_bytes i.name name then some (new ∷ is) else rest

-- `find_if` by the name.
unfoldable pub find_instruction : Identifier → List Instruction → Option Instruction
find_instruction name [] = none
find_instruction name (i ∷ is) = if eq_bytes i.name name then some i else find_instruction name is

-- The void type of clang and the unknown source position, for the `nop`s.
module _ (void_type unknown : Handle) where
  unfoldable pub replace_with_nop : Identifier → Identifier → Pass → Option Pass
  unfolding replace_instruction
  replace_with_nop block name s = do
    index ← find_block s.blocks block
    owning_block ← get_elem? s.blocks index
    let inst : Instruction = record {
      name = fresh_name (s.symbol_counter + 1);
      type = void_type;
      location = unknown;
      op = nop;
    }
    instructions ← replace_instruction name inst owning_block.instructions
    some (record {
      blocks = set s.blocks index (record owning_block { instructions = instructions });
      symbol_counter = s.symbol_counter + 1;
    })

  -- The loop that rewrites the uses of every occurrence but the canonical one.
  unfoldable pub replace_duplicates : Identifier → List Occurrence → Pass → Option Pass
  unfolding replace_with_nop
  replace_duplicates canonical_name [] s = some s
  replace_duplicates canonical_name ((block, name) ∷ rest) s = elim (eq_bytes name canonical_name) [
    | true ↦ replace_duplicates canonical_name rest s
    | false ↦ do
      s' ←
          replace_with_nop block name
            (record s { blocks = rewrite_uses name canonical_name s.blocks })
      replace_duplicates canonical_name rest s'
  ]

-- The first occurrence that stands in the target block; the empty name if there is none.
unfoldable pub canonical_in : Identifier → List Occurrence → Identifier
canonical_in target [] = []
canonical_in target ((block, name) ∷ rest) =
    if eq_bytes block target then name else canonical_in target rest

unfoldable pub is_leading : Op → Bool
is_leading parameter = true
is_leading (capture value) = true
is_leading cpp_scope_open = true
is_leading _ = false

-- The insertion at `insert_pos`, behind the leading instructions.
unfoldable pub insert_leading : Instruction → List Instruction → List Instruction
unfolding is_leading
insert_leading new [] = new ∷ []
insert_leading new (i ∷ is) = if is_leading i.op then i ∷ insert_leading new is else new ∷ i ∷ is

-- A fresh copy of the first occurrence in the target block, and its name. The `dynamic_cast` to the
-- kind of the occurrences throws on another kind, here `none`.
unfoldable pub insert_canonical :
    (Op → Bool) → Identifier → Occurrence → Pass → Option (Identifier × Pass)
unfolding insert_leading find_instruction
insert_canonical is_kind target (block, name) s = do
  index ← find_block s.blocks target
  target_block ← get_elem? s.blocks index
  existing_block ← block_named s.blocks block
  found ← find_instruction name existing_block.instructions
  existing ← if is_kind found.op then some found else none
  let canonical_name = fresh_name (s.symbol_counter + 1)
  let new_instr : Instruction = record existing { name = canonical_name }
  some (
    canonical_name,
    record {
      blocks = set s.blocks index (record target_block {
        instructions = insert_leading new_instr target_block.instructions;
      });
      symbol_counter = s.symbol_counter + 1;
    },
  )

-- The canonical name: that of an occurrence in the target block, or of an inserted instruction.
unfoldable pub choose_canonical :
    (Op → Bool) → Identifier → List Occurrence → Pass → Option (Identifier × Pass)
unfolding canonical_in insert_canonical
choose_canonical is_kind target [] s = none
choose_canonical is_kind target (first ∷ rest) s = elim (canonical_in target (first ∷ rest)) [
  | [] ↦ insert_canonical is_kind target first s
  | c ∷ cs ↦ some (c ∷ cs, s)
]

module _ (is_kind : Op → Bool) (void_type unknown : Handle) (idom : DominanceMap)
    (rpo_index : RpoIndexMap) where
  -- One round of the outer loop, for the occurrences of one value. The indices are below the
  -- number of blocks, so twice that number is fuel enough for `lcd`.
  unfoldable pub hoist_group : List Occurrence → Pass → Option Pass
  unfolding choose_canonical
  hoist_group occurrences s = elim (length occurrences == 1) [
    | true ↦ some s
    | false ↦ do
      target ←
          lcd_all idom rpo_index (2 * length rpo_index + 1)
            (map (λ (o : Occurrence). o.0) occurrences)
      chosen ← choose_canonical is_kind target occurrences s
      replace_duplicates void_type unknown chosen.0 occurrences chosen.1
  ]

  unfoldable pub hoist_groups {ℓ} : {K : Type ℓ} → List (K × List Occurrence) → Pass → Option Pass
  unfolding hoist_group
  hoist_groups [] s = some s
  hoist_groups ((key, occurrences) ∷ rest) s = do
    s' ← hoist_group occurrences s
    hoist_groups rest s'

-- `result[key].emplace_back(occurrence)`, with the keys compared by `same`.
unfoldable pub add_occurrence {ℓ} :
    {K : Type ℓ}
    → (K → K → Bool)
    → K
    → Occurrence
    → List (K × List Occurrence)
    → List (K × List Occurrence)
add_occurrence same key o [] = (key, o ∷ []) ∷ []
add_occurrence same key o ((k, os) ∷ rest) =
    if same k key then (k, os ++ o ∷ []) ∷ rest else (k, os) ∷ add_occurrence same key o rest

-- `obj` of a literal.
unfoldable pub literal_of : Op → Option Handle
literal_of (literal obj value) = some obj
literal_of _ = none

-- `qualified_var` of a var deref.
unfoldable pub var_deref_of : Op → Option Bytes
var_deref_of (var_deref qualified_var) = some qualified_var
var_deref_of _ = none

unfoldable pub is_literal : Op → Bool
is_literal (literal obj value) = true
is_literal _ = false

unfoldable pub is_var_deref : Op → Bool
is_var_deref (var_deref qualified_var) = true
is_var_deref _ = false

unfoldable pub is_loop : Op → Bool
is_loop (loop loop_block merge_block shadow binding_shadows) = true
is_loop _ = false

-- The instructions in the order of the collecting loops, each with the name of its block.
unfoldable pub all_instructions : List Block → List (Identifier × Instruction)
all_instructions [] = []
all_instructions (b ∷ bs) = map (λ i. (b.name, i)) b.instructions ++ all_instructions bs
