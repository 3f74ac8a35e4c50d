-- ===== src/Ir/Opt/Hoist/Present.antt =====
-- Finding and replacing one instruction: what `replace_with_nop` needs, keeps and adds.
use jank.Prelude.{
  Bool, true, false, ◌||◌, List, [], ◌∷◌, Option, none, some, ◌>>=◌, bind-eq-some, ◌≡◌, ◌≢◌, refl,
  arith, inl, inr, Bool-cases, if◌then◌else◌, get_elem?, set, All, eq_bytes, eq_bytes_iff,
}
use jank.Ir.Instruction.{Identifier, Instruction, nop}
use jank.Ir.Function.{Block, find_block}
use jank.Ir.Rewrite.{rewrite_each, rewrite_op, rewrite_instruction, rewrite_uses, uses_name}
use jank.Ir.Rewrite.Removes.{Unused}
use jank.Ir.Opt.Hoist.{replace_instruction}

-- An instruction of the name stands in the list.
unfoldable pub has_instruction : Identifier → List Instruction → Bool
has_instruction name [] = false
has_instruction name (i ∷ is) = eq_bytes i.name name || has_instruction name is

-- An instruction of the name stands in the first block of the other name.
unfoldable pub is_present : Identifier → Identifier → List Block → Bool
unfolding has_instruction
is_present block name [] = false
is_present block name (b ∷ bs) =
    if eq_bytes b.name block then has_instruction name b.instructions else is_present block name bs

-- `replace_with_nop` without the index of the block.
unfoldable pub nop_in : Identifier → Identifier → Instruction → List Block → Option (List Block)
nop_in block name new [] = none
nop_in block name new (b ∷ bs) =
    let here = (do
      is ← replace_instruction name new b.instructions
      some (record b { instructions = is } ∷ bs)) in
    let later = (do bs' ← nop_in block name new bs; some (b ∷ bs')) in
    if eq_bytes b.name block then here else later

-- The same through the index of the block.
unfoldable pub nop_at : Identifier → Identifier → Instruction → List Block → Option (List Block)
nop_at block name new bs = do
  index ← find_block bs block
  b ← get_elem? bs index
  is ← replace_instruction name new b.instructions
  some (set bs index (record b { instructions = is }))

pub nop_at-eq-nop_in :
    (block name : Identifier) (new : Instruction) (bs : List Block)
    → nop_at block name new bs ≡ nop_in block name new bs
unfolding nop_at nop_in find_block
nop_at-eq-nop_in block name new [] = refl
nop_at-eq-nop_in block name new (b ∷ bs) = elim (Bool-cases (eq_bytes b.name block)) [
  | inl same ↦ rw same
  | inr other ↦ rw other (ground (arith, nop_at-eq-nop_in block name new bs))
]

replace_instruction_total :
    (name : Identifier) (new : Instruction) (is : List Instruction)
    → has_instruction name is ≡ true
    → (is' : List Instruction) × (replace_instruction name new is ≡ some is')
unfolding has_instruction replace_instruction
replace_instruction_total name new [] h = cc
replace_instruction_total name new (i ∷ is) h = elim (Bool-cases (eq_bytes i.name name)) [
  | inl same ↦ (new ∷ is, rw same)
  | inr other ↦
      let (is', e) = replace_instruction_total name new is (ground arith) in
      (i ∷ is', rw (other, e))
]

pub nop_in_total :
    (block name : Identifier) (new : Instruction) (bs : List Block)
    → is_present block name bs ≡ true
    → (bs' : List Block) × (nop_in block name new bs ≡ some bs')
unfolding is_present nop_in
nop_in_total block name new [] h = cc
nop_in_total block name new (b ∷ bs) h = elim (Bool-cases (eq_bytes b.name block)) [
  | inl same ↦
      let (is, e) = replace_instruction_total name new b.instructions (rw same at h) in
      (record b { instructions = is } ∷ bs, rw (same, e))
  | inr other ↦
      let (bs', e) = nop_in_total block name new bs (rw other at h) in (b ∷ bs', rw (other, e))
]

module _ (name other : Identifier) (new : Instruction) (ne : other ≢ name) where
  has_instruction-replace :
      (is is' : List Instruction)
      → replace_instruction name new is ≡ some is'
      → has_instruction other is ≡ true
      → has_instruction other is' ≡ true
  unfolding has_instruction replace_instruction
  has_instruction-replace [] is' e h = cc
  has_instruction-replace (i ∷ is) is' e h = elim (Bool-cases (eq_bytes i.name name)) [
    | inl same ↦
        let e' : new ∷ is ≡ is' = ground arith in
        rw (← e') (ground (arith, eq_bytes_iff i.name name, eq_bytes_iff i.name other))
    | inr differ ↦
        let (is'', r, f) =
          bind-eq-some (replace_instruction name new is) (λ l. some (i ∷ l)) (rw differ at e) in
        let f' : i ∷ is'' ≡ is' = ground arith in
        rw (← f') (ground (arith, has_instruction-replace is is'' r))
  ]

  pub is_present-nop_in :
      (block block' : Identifier) (bs bs' : List Block)
      → nop_in block name new bs ≡ some bs'
      → is_present block' other bs ≡ true
      → is_present block' other bs' ≡ true
  unfolding is_present nop_in
  is_present-nop_in block block' [] bs' e h = cc
  is_present-nop_in block block' (b ∷ bs) bs' e h = elim (Bool-cases (eq_bytes b.name block)) [
    | inl same ↦
        let (is, r, f) =
          bind-eq-some (replace_instruction name new b.instructions)
            (λ l. some (record b { instructions = l } ∷ bs)) (rw same at e) in
        let f' : record b { instructions = is } ∷ bs ≡ bs' = ground arith in
        rw (← f') (ground (arith, has_instruction-replace b.instructions is r))
    | inr differ ↦
        let (bs'', r, f) =
          bind-eq-some (nop_in block name new bs) (λ l. some (b ∷ l)) (rw differ at e) in
        let f' : b ∷ bs'' ≡ bs' = ground arith in
        rw (← f') (ground (arith, is_present-nop_in block block' bs bs'' r))
  ]

module _ (a b name : Identifier) where
  has_instruction-rewrite :
      (is : List Instruction)
      → has_instruction name (rewrite_each (rewrite_instruction a b) is).value
        ≡ has_instruction name is
  unfolding has_instruction rewrite_each rewrite_instruction
  has_instruction-rewrite [] = refl
  has_instruction-rewrite (i ∷ is) = rw (has_instruction-rewrite is)

  pub is_present-rewrite_uses :
      (block : Identifier) (bs : List Block)
      → is_present block name (rewrite_uses a b bs) ≡ is_present block name bs
  unfolding is_present rewrite_uses rewrite_each
  is_present-rewrite_uses block [] = refl
  is_present-rewrite_uses block (x ∷ bs) =
      rw (has_instruction-rewrite x.instructions, is_present-rewrite_uses block bs)

module _ (c : Identifier) (new : Instruction) (is_nop : new.op ≡ nop) where
  unused_replace :
      (name : Identifier) (is is' : List Instruction)
      → replace_instruction name new is ≡ some is'
      → All (λ (i : Instruction). uses_name i.op c ≡ false) is
      → All (λ (i : Instruction). uses_name i.op c ≡ false) is'
  unfolding replace_instruction uses_name rewrite_op
  unused_replace name [] is' e h = cc
  unused_replace name (i ∷ is) is' e h = elim (Bool-cases (eq_bytes i.name name)) [
    | inl same ↦ let e' : new ∷ is ≡ is' = ground arith in rw (← e') (rw is_nop refl, h.1)
    | inr differ ↦
        let (is'', r, f) =
          bind-eq-some (replace_instruction name new is) (λ l. some (i ∷ l)) (rw differ at e) in
        let f' : i ∷ is'' ≡ is' = ground arith in rw (← f') (h.0, unused_replace name is is'' r h.1)
  ]

  pub Unused-nop_in :
      (block name : Identifier) (bs bs' : List Block)
      → nop_in block name new bs ≡ some bs'
      → Unused c bs
      → Unused c bs'
  unfolding nop_in
  Unused-nop_in block name [] bs' e h = cc
  Unused-nop_in block name (b ∷ bs) bs' e h = elim (Bool-cases (eq_bytes b.name block)) [
    | inl same ↦
        let (is, r, f) =
          bind-eq-some (replace_instruction name new b.instructions)
            (λ l. some (record b { instructions = l } ∷ bs)) (rw same at e) in
        let f' : record b { instructions = is } ∷ bs ≡ bs' = ground arith in
        rw (← f') (unused_replace name b.instructions is r h.0, h.1)
    | inr differ ↦
        let (bs'', r, f) =
          bind-eq-some (nop_in block name new bs) (λ l. some (b ∷ l)) (rw differ at e) in
        let f' : b ∷ bs'' ≡ bs' = ground arith in
        rw (← f') (h.0, Unused-nop_in block name bs bs'' r h.1)
  ]
