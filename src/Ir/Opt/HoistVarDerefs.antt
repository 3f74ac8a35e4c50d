-- ===== src/Ir/Opt/HoistVarDerefs.antt =====
-- compiler+runtime/src/cpp/jank/ir/opt/hoist_var_derefs.cpp
use jank.Prelude.{
  ℕ, Bool, true, false, List, [], ◌∷◌, Option, none, some, ◌>>=◌, if◌then◌else◌, Bytes, codes,
  eq_bytes,
}
use jank.Runtime.Munge.{after_prefix}
use jank.Ir.Instruction.{Identifier, Handle, Instruction}
use jank.Ir.Function.{Block, Function}
use jank.Ir.Opt.Hoist.{
  Occurrence, hoist_groups, is_var_deref, add_occurrence, var_deref_of, is_loop, all_instructions,
}

pub record VarDerefInfo : Type 0 where
  pub derefs : List (Bytes × List Occurrence)
  pub has_loop : Bool

-- The derefs of one instruction, where `is_dynamic` reads the flag of an interned var.
unfoldable pub add_var_deref :
    (Bytes → Bool)
    → Identifier
    → Instruction
    → Option Bytes
    → List (Bytes × List Occurrence)
    → List (Bytes × List Occurrence)
unfolding add_occurrence
add_var_deref is_dynamic block i none derefs = derefs
add_var_deref is_dynamic block i (some qualified_var) derefs =
    if is_dynamic qualified_var
    then derefs
    else add_occurrence eq_bytes qualified_var (block, i.name) derefs

-- The collecting loops, which stop at the first loop instruction.
unfoldable pub collect_var_derefs_from :
    (Bytes → Bool) → List (Identifier × Instruction) → List (Bytes × List Occurrence) → VarDerefInfo
unfolding is_loop var_deref_of add_var_deref
collect_var_derefs_from is_dynamic [] derefs = record { derefs = derefs; has_loop = false }
collect_var_derefs_from is_dynamic ((block, i) ∷ rest) derefs = elim (is_loop i.op) [
  | true ↦ record { derefs = derefs; has_loop = true }
  | false ↦
      collect_var_derefs_from is_dynamic rest
        (add_var_deref is_dynamic block i (var_deref_of i.op) derefs)
]

unfoldable pub collect_var_derefs : (Bytes → Bool) → List Block → VarDerefInfo
unfolding collect_var_derefs_from all_instructions
collect_var_derefs is_dynamic blocks =
    collect_var_derefs_from is_dynamic (all_instructions blocks) []

-- `fn.name.starts_with("jank_load_")`
unfoldable pub is_load : Identifier → Bool
unfolding after_prefix
is_load name = elim (after_prefix (codes "jank_load_") name) [ none ↦ false | some rest ↦ true ]

-- The pass on a function, with the counter of generated names before and after.
unfoldable pub hoist_var_derefs :
    (Bytes → Bool) → Handle → Handle → Function → ℕ → Option (Function × ℕ)
unfolding is_load collect_var_derefs hoist_groups
hoist_var_derefs is_dynamic void_type unknown fn symbol_counter =
    let info = collect_var_derefs is_dynamic fn.blocks in
    if is_load fn.name
    then some (fn, symbol_counter)
    else if info.has_loop
    then some (fn, symbol_counter)
    else (do
      s ←
          hoist_groups is_var_deref void_type unknown fn.immediate_dominators fn.block_rpo_index
            info.derefs (record { blocks = fn.blocks; symbol_counter = symbol_counter })
      some (record fn { blocks = s.blocks }, s.symbol_counter))
