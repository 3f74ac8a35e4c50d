-- ===== src/Ir/Opt/RemoveNops.antt =====
-- compiler+runtime/src/cpp/jank/ir/opt/remove_nops.cpp
use mathlib.Core.List.{append_assoc}
use jank.Prelude.{
  inl, inr, Bool-cases, length-append, ℕ, zero, suc, ◌+◌, ◌<◌, ◌≡◌, refl, ap, ◌∙◌, Bool, true,
  false, not, List, [], ◌∷◌, ◌++◌, none, some, arith, get_elem?, remove_at, length, keep, map,
}
use jank.Ir.Instruction.{Instruction, is_nop}
use jank.Ir.Function.{Block}

-- The loop over the indices of a block, which grows the index or shortens the block in each round.
remove_nops_from : ℕ → ℕ → List Instruction → List Instruction
unfolding is_nop
remove_nops_from zero i is = is
remove_nops_from (suc fuel) i is = elim (get_elem? is i) [
  | none ↦ is
  | some inst ↦ elim (is_nop inst.op) [
    | true ↦ remove_nops_from fuel i (remove_at is i)
    | false ↦ remove_nops_from fuel (i + 1) is
  ]
]

remove_nops_block : Block → Block
unfolding remove_nops_from
remove_nops_block b = record b {
  instructions = remove_nops_from (length b.instructions + 1) 0 b.instructions;
}

unfoldable pub remove_nops : List Block → List Block
unfolding remove_nops_block
remove_nops [] = []
remove_nops (b ∷ bs) = remove_nops_block b ∷ remove_nops bs

-- Every instruction but the `nop`s, in order.
abbrev pub without_nops : Block → Block
without_nops b = record b {
  instructions = keep (λ (i : Instruction). not (is_nop i.op)) b.instructions;
}

get_elem?-middle :
    (done : List Instruction) (x : Instruction) (rest : List Instruction)
    → get_elem? (done ++ x ∷ rest) (length done) ≡ some x
get_elem?-middle [] x rest = refl
get_elem?-middle (d ∷ done) x rest = get_elem?-middle done x rest

remove_at-middle :
    (done : List Instruction) (x : Instruction) (rest : List Instruction)
    → remove_at (done ++ x ∷ rest) (length done) ≡ done ++ rest
remove_at-middle [] x rest = refl
remove_at-middle (d ∷ done) x rest = ap (◌∷◌ d) (remove_at-middle done x rest)

get_elem?-end : (done : List Instruction) → get_elem? (done ++ []) (length done) ≡ none
get_elem?-end [] = refl
get_elem?-end (d ∷ done) = get_elem?-end done

abbrev is_kept : Instruction → Bool
is_kept i = not (is_nop i.op)

module _ (fuel : ℕ) (is : List Instruction) (i : ℕ) where
  remove_nops_from_end : get_elem? is i ≡ none → remove_nops_from (suc fuel) i is ≡ is
  unfolding remove_nops_from
  remove_nops_from_end e = rw (e, remove_nops_from)

  module _ (x : Instruction) (e : get_elem? is i ≡ some x) where
    remove_nops_from_nop :
        is_nop x.op ≡ true
        → remove_nops_from (suc fuel) i is ≡ remove_nops_from fuel i (remove_at is i)
    unfolding remove_nops_from
    remove_nops_from_nop n = rw (e, remove_nops_from) (rw (n, is_nop))

    remove_nops_from_other :
        is_nop x.op ≡ false → remove_nops_from (suc fuel) i is ≡ remove_nops_from fuel (i + 1) is
    unfolding remove_nops_from
    remove_nops_from_other n = rw (e, remove_nops_from) (rw (n, is_nop))

remove_nops_from-keep :
    (fuel : ℕ) (done rest : List Instruction)
    → length rest < fuel
    → remove_nops_from fuel (length done) (done ++ rest) ≡ done ++ keep is_kept rest
remove_nops_from-keep zero done rest h = elim h [ ]
remove_nops_from-keep (suc fuel) done [] h =
    remove_nops_from_end fuel (done ++ []) (length done) (get_elem?-end done)
remove_nops_from-keep (suc fuel) done (x ∷ rest) h = elim (Bool-cases (is_nop x.op)) [
  | inl nop ↦
      remove_nops_from_nop fuel _ (length done) x (get_elem?-middle done x rest) nop
      ∙ rw (remove_at-middle done x rest, nop) (remove_nops_from-keep fuel done rest (omega arith))
  | inr other ↦
      remove_nops_from_other fuel _ (length done) x (get_elem?-middle done x rest) other
      ∙ rw other (moved (remove_nops_from-keep fuel (done ++ x ∷ []) rest (omega arith)))
]
  where
    moved :
        remove_nops_from fuel (length (done ++ x ∷ [])) ((done ++ x ∷ []) ++ rest)
          ≡ (done ++ x ∷ []) ++ keep is_kept rest
        → remove_nops_from fuel (length done + 1) (done ++ x ∷ rest) ≡ done ++ x ∷ keep is_kept rest
    moved e =
        let count : length (done ++ x ∷ []) ≡ length done + 1 =
          omega (arith, length-append done (x ∷ [])) in
        let e' = rw count at e in simp (append_assoc) at e'

-- The pass removes exactly the `nop`s of every block, and keeps the order of the others.
pub remove_nops-without_nops : (bs : List Block) → remove_nops bs ≡ map without_nops bs
unfolding remove_nops
remove_nops-without_nops [] = refl
remove_nops-without_nops (b ∷ bs) =
    cons_block (remove_nops_from-keep (length b.instructions + 1) [] b.instructions (omega arith))
      (remove_nops-without_nops bs)
  where
    cons_block :
        remove_nops_from (length b.instructions + 1) 0 b.instructions ≡ keep is_kept b.instructions
        → remove_nops bs ≡ map without_nops bs
        → remove_nops_block b ∷ remove_nops bs ≡ without_nops b ∷ map without_nops bs
    cons_block e r = rw (e, r)
