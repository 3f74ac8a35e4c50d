-- ===== src/Ir/Rewrite/Removes.antt =====
-- `rewrite_uses` and the uses that `uses_name` finds after it.
use jank.Prelude.{false, List, [], ◌∷◌, ◌≡◌, ◌≢◌, refl, arith, All}
use jank.Ir.Instruction.{Identifier, Op, Instruction, nop}
use jank.Ir.Function.{Block}
use jank.Ir.Rewrite.{rewrite_op, rewrite_each, rewrite_instruction, rewrite_uses, uses_name}
use jank.Ir.Rewrite.Parts.{
  Clears-name, Clears-option, Clears-optional_typed, Clears-names, Clears-entries, Clears-captures,
  Clears-targets, Stays-name, Stays-option, Stays-optional_typed, Stays-names, Stays-entries,
  Stays-captures, Stays-targets,
}

module _ (a b : Identifier) (ne : a ≢ b) where
  pub uses_name-rewrite_op : (op : Op) → uses_name (rewrite_op a b op).value a ≡ false
  unfolding rewrite_op uses_name
  uses_name-rewrite_op nop = refl
  uses_name-rewrite_op _ = grind (
    arith,
    Clears-name a b ne,
    Clears-option a b ne,
    Clears-optional_typed a b ne,
    Clears-names a b ne,
    Clears-entries a b ne,
    Clears-captures a b ne,
    Clears-targets a b ne,
  )

-- No instruction of these blocks uses `name`.
abbrev pub Unused : Identifier → List Block → Type 0
Unused name bs =
    All (λ (b : Block). All (λ (i : Instruction). uses_name i.op name ≡ false) b.instructions) bs

module _ (a b : Identifier) (ne : a ≢ b) where
  uses_name-rewrite_each :
      (is : List Instruction)
      → All
          (λ (i : Instruction). uses_name i.op a ≡ false)
          (rewrite_each (rewrite_instruction a b) is).value
  unfolding rewrite_each rewrite_instruction
  uses_name-rewrite_each [] = tt
  uses_name-rewrite_each (i ∷ is) = (uses_name-rewrite_op a b ne i.op, uses_name-rewrite_each is)

  -- After `rewrite_uses(fn, a, b)`, with different names, no instruction of the function has an
  -- operand `a` that `uses_name` finds.
  pub Unused-rewrite_uses : (bs : List Block) → Unused a (rewrite_uses a b bs)
  unfolding rewrite_uses rewrite_each
  Unused-rewrite_uses [] = tt
  Unused-rewrite_uses (x ∷ bs) = (uses_name-rewrite_each x.instructions, Unused-rewrite_uses bs)

module _ (a b c : Identifier) (ne : c ≢ b) where
  uses_name-rewrite_op_stays :
      (op : Op) → uses_name op c ≡ false → uses_name (rewrite_op a b op).value c ≡ false
  unfolding rewrite_op uses_name
  uses_name-rewrite_op_stays nop h = refl
  uses_name-rewrite_op_stays _ h = grind (
    arith,
    Stays-name a b c ne,
    Stays-option a b c ne,
    Stays-optional_typed a b c ne,
    Stays-names a b c ne,
    Stays-entries a b c ne,
    Stays-captures a b c ne,
    Stays-targets a b c ne,
  )

  uses_name-rewrite_each_stays :
      (is : List Instruction)
      → All (λ (i : Instruction). uses_name i.op c ≡ false) is
      → All
          (λ (i : Instruction). uses_name i.op c ≡ false)
          (rewrite_each (rewrite_instruction a b) is).value
  unfolding rewrite_each rewrite_instruction
  uses_name-rewrite_each_stays [] h = tt
  uses_name-rewrite_each_stays (i ∷ is) h =
      (uses_name-rewrite_op_stays i.op h.0, uses_name-rewrite_each_stays is h.1)

  -- A later rewriting brings an unused name back only as its new name.
  pub Unused-rewrite_uses_stays : (bs : List Block) → Unused c bs → Unused c (rewrite_uses a b bs)
  unfolding rewrite_uses rewrite_each
  Unused-rewrite_uses_stays [] h = tt
  Unused-rewrite_uses_stays (x ∷ bs) h =
      (uses_name-rewrite_each_stays x.instructions h.0, Unused-rewrite_uses_stays bs h.1)
