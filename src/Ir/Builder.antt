-- ===== src/Ir/Builder.antt =====
-- The builder of the intermediate representation: include/cpp/jank/ir/builder.hpp, the module of
-- include/cpp/jank/ir/processor.hpp, and the operations of src/cpp/jank/ir/builder.cpp on names
-- and blocks, below compiler+runtime.
pub mod Emit
pub mod Values
pub mod Control
pub mod Cpp
pub mod Fresh
pub mod Ensures
pub mod Terminated
pub mod Emission
pub mod Lifted
use jank.Prelude.{
  ℕ, zero, suc, ◌+◌, ◌-◌, Bool, List, [], ◌∷◌, ◌++◌, Option, none, some, if◌then◌else◌, length,
  get_elem?, set, Bytes, codes, contains, leb, ◌==◌,
}
use jank.Runtime.UniqueString.{decimal}
use jank.Ir.Instruction.{Identifier, Handle, Instruction}
use jank.Ir.Function.{Block, Function, add_block, remove_block}

pub record LiftedVar : Type 0 where
  pub name : Identifier
  pub owned : Bool

-- The part of a module that the builder writes.
pub record Module : Type 0 where
  pub functions : List Function
  pub lifted_constants : List (Handle × Identifier)
  pub lifted_cpp_constants : List (Handle × Identifier)
  pub lifted_vars : List (Bytes × LiftedVar)

-- `blocks` are those of the current function, which go to the module when it is complete;
-- `params` and `fn_ctx` belong to its arity.
-- `symbol_counter` is that of the current namespace.
pub record Builder : Type 0 where
  pub mod_ : Module
  pub fn_index : ℕ
  pub params : List Bytes
  pub fn_ctx : Handle
  pub blocks : List Block
  pub block_index : ℕ
  pub ident_count : ℕ
  pub locals : List (Bytes × Identifier)
  pub local_to_loop_shadow : List (Bytes × Identifier)
  pub allowed_defers : List Bytes
  pub used_identifiers : List Identifier
  pub loop_recur_target : Option ℕ
  pub fn_recur_target : Option ℕ
  pub location : Handle
  pub symbol_counter : ℕ

-- Code that reads and writes the builder; `none` stands for a failed debug assertion or undefined
-- behaviour: a block out of range, the value of an empty option.
abbrev pub M : Type 0 → Type 0
M A = Builder → Option (A × Builder)

unfoldable pub pure : {A : Type 0} → A → M A
pure a b = some (a, b)

infixl 5 ◌>>=◌ ◌>>◌
unfoldable pub ◌>>=◌ : {A B : Type 0} → M A → (A → M B) → M B
◌>>=◌ m f b = elim (m b) [ none ↦ none | some (a, b') ↦ f a b' ]

unfoldable pub ◌>>◌ : {B : Type 0} → M (Unit {0}) → M B → M B
unfolding ◌>>=◌
m >> k = m >>= λ _. k

unfoldable pub unwrap : {A : Type 0} → Option A → M A
unwrap none b = none
unwrap (some a) b = some (a, b)

unfoldable pub gets : {A : Type 0} → (Builder → A) → M A
gets f b = some (f b, b)

unfoldable pub modify : (Builder → Builder) → M (Unit {0})
modify f b = some (tt, f b)

-- The loop of `next_ident`, from a count on: the name, and the count behind it.
unfoldable pub next_unused : ℕ → Bytes → List Identifier → ℕ → Option (Identifier × ℕ)
next_unused zero prefix used count = none
next_unused (suc fuel) prefix used count =
    let rest = next_unused fuel prefix used (count + 1) in
    let ret = prefix ++ decimal count in if contains used ret then rest else some (ret, count + 1)

unfoldable pub next_ident : Bytes → M Identifier
unfolding next_unused
next_ident prefix b =
    elim (next_unused (length b.used_identifiers + 1) prefix b.used_identifiers b.ident_count) [
      | none ↦ none
      | some (ret, count) ↦
          some (ret, record b { ident_count = count; used_identifiers = ret ∷ b.used_identifiers })
    ]

-- `next_ident()`
unfoldable pub next_value : M Identifier
unfolding next_ident
next_value = next_ident (codes "v")

unfoldable pub next_shadow : M Identifier
unfolding next_ident
next_shadow = next_ident (codes "s")

-- `current_function()->blocks[block_index]`
unfoldable pub current_block : Builder → Option Block
current_block b = get_elem? b.blocks b.block_index

unfoldable pub block : Identifier → M ℕ
unfolding add_block
block name b =
    let (blocks', index) = add_block name b.blocks in some (index, record b { blocks = blocks' })

unfoldable pub block_name : ℕ → M Identifier
block_name index b = elim (get_elem? b.blocks index) [ none ↦ none | some blk ↦ some (blk.name, b) ]

-- `builder::remove_block`
unfoldable pub discard_block : ℕ → M (Unit {0})
unfolding remove_block
discard_block index b =
    if b.block_index == index then none else elim (remove_block b.blocks index) [
      | none ↦ none
      | some blocks' ↦ some (
        tt,
        record b {
          blocks = blocks';
          block_index = if leb index b.block_index then b.block_index - 1 else b.block_index;
        },
      )
    ]

unfoldable pub enter_block : ℕ → M (Unit {0})
enter_block index = modify λ b. record b { block_index = index }

-- `current_function()->blocks[block_index].instructions.emplace_back(...)`
unfoldable pub emplace_back : Instruction → M (Unit {0})
emplace_back i b = elim (get_elem? b.blocks b.block_index) [
  | none ↦ none
  | some blk ↦ some (
    tt,
    record b {
      blocks =
          set b.blocks b.block_index (record blk { instructions = blk.instructions ++ (i ∷ []) });
    },
  )
]
