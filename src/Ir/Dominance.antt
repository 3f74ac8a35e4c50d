-- ===== src/Ir/Dominance.antt =====
-- Dominators of the control flow graph: compiler+runtime/src/cpp/jank/ir/dominance.cpp.
pub mod Lcd
pub mod Rpo
pub mod Idom
use jank.Prelude.{
  ℕ, zero, suc, ◌+◌, Bool, true, false, List, [], ◌∷◌, Option, none, some, ◌>>=◌, ltb, eq_bytes, at,
}
use jank.Ir.Instruction.{Identifier}

abbrev pub DominanceMap : Type 0
DominanceMap = List (Identifier × Identifier)

abbrev pub RpoIndexMap : Type 0
RpoIndexMap = List (Identifier × ℕ)

module _ (idom : DominanceMap) (rpo_index : RpoIndexMap) where
  -- `while(rpo_index.at(a) > rpo_index.at(b)) a = idom.at(a);`, where `none` is a thrown `at`, or
  -- the end of the fuel.
  unfoldable pub climb : ℕ → Identifier → Identifier → Option Identifier
  climb zero a b = none
  climb (suc fuel) a b = do
    i ← at rpo_index a
    j ← at rpo_index b
    elim (ltb j i) [ true ↦ (do a' ← at idom a; climb fuel a' b) | false ↦ some a ]

  -- `lcd` of two blocks.
  unfoldable pub lcd : ℕ → Identifier → Identifier → Option Identifier
  lcd zero a b = none
  lcd (suc fuel) a b = elim (eq_bytes a b) [
    | true ↦ some a
    | false ↦ do a' ← climb (suc fuel) a b; b' ← climb (suc fuel) b a'; lcd fuel a' b'
  ]

  -- The loop of `lcd` over a vector of blocks.
  unfoldable pub lcd_from : ℕ → Identifier → List Identifier → Option Identifier
  lcd_from fuel result [] = some result
  lcd_from fuel result (b ∷ bs) = do r ← lcd fuel result b; lcd_from fuel r bs

  -- `lcd` of a vector of blocks, which is not empty; `none` for the empty one.
  unfoldable pub lcd_all : ℕ → List Identifier → Option Identifier
  unfolding lcd_from
  lcd_all fuel [] = none
  lcd_all fuel (b ∷ bs) = lcd_from fuel b bs
