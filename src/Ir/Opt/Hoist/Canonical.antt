-- ===== src/Ir/Opt/Hoist/Canonical.antt =====
-- The canonical instruction of one value: an occurrence in the target block, or an inserted copy.
use jank.Prelude.{
  ℕ, ◌+◌, Bool, true, List, [], ◌∷◌, Option, none, some, ◌>>=◌, bind-eq-some, ◌≡◌, refl, sym, ap,
  ◌∙◌, arith, inl, inr, ◌⊎◌, Bool-cases, if◌then◌else◌, get_elem?, set, All, eq_bytes, eq_bytes_iff,
  eq_bytes_refl,
}
use jank.Runtime.UniqueString.{fresh_name}
use jank.Ir.Instruction.{Identifier, Instruction, Op}
use jank.Ir.Function.{Block, find_block, block_named}
use jank.Ir.Dominance.Rpo.Resolve.{is_named}
use jank.Ir.Opt.Hoist.{
  Pass, Occurrence, is_leading, insert_leading, find_instruction, canonical_in, insert_canonical,
  choose_canonical,
}
use jank.Ir.Opt.Hoist.Present.{has_instruction, is_present}
use jank.Ir.Opt.Hoist.Duplicates.{Present}

-- The insertion without the index of the block.
unfoldable insert_in : Identifier → Instruction → List Block → Option (List Block)
insert_in block new [] = none
insert_in block new (b ∷ bs) =
    let here = some (record b { instructions = insert_leading new b.instructions } ∷ bs) in
    let later = (do bs' ← insert_in block new bs; some (b ∷ bs')) in
    if eq_bytes b.name block then here else later

-- The same through the index of the block.
unfoldable insert_at : Identifier → Instruction → List Block → Option (List Block)
insert_at block new bs = do
  index ← find_block bs block
  b ← get_elem? bs index
  some (set bs index (record b { instructions = insert_leading new b.instructions }))

insert_at-eq-insert_in :
    (block : Identifier) (new : Instruction) (bs : List Block)
    → insert_at block new bs ≡ insert_in block new bs
unfolding insert_at insert_in find_block
insert_at-eq-insert_in block new [] = refl
insert_at-eq-insert_in block new (b ∷ bs) = elim (Bool-cases (eq_bytes b.name block)) [
  | inl same ↦ rw same
  | inr other ↦ rw other (ground (arith, insert_at-eq-insert_in block new bs))
]

insert_in_total :
    (block : Identifier) (new : Instruction) (bs : List Block)
    → is_named bs block ≡ true
    → (bs' : List Block) × (insert_in block new bs ≡ some bs')
unfolding insert_in is_named
insert_in_total block new [] h = cc
insert_in_total block new (b ∷ bs) h = elim (Bool-cases (eq_bytes b.name block)) [
  | inl same ↦ (record b { instructions = insert_leading new b.instructions } ∷ bs, rw same)
  | inr other ↦
      let (bs', e) = insert_in_total block new bs (ground (arith, h, other)) in
      (b ∷ bs', rw (other, e))
]

has_instruction-insert_leading :
    (name : Identifier) (new : Instruction) (is : List Instruction)
    → has_instruction name is ≡ true
    → has_instruction name (insert_leading new is) ≡ true
unfolding has_instruction insert_leading
has_instruction-insert_leading name new [] h = cc
has_instruction-insert_leading name new (i ∷ is) h = elim (Bool-cases (is_leading i.op)) [
  | inl leading ↦ rw leading (ground (arith, h, has_instruction-insert_leading name new is))
  | inr other ↦ rw other (ground (arith, h))
]

is_present-insert_in :
    (block : Identifier) (new : Instruction) (block' name : Identifier) (bs bs' : List Block)
    → insert_in block new bs ≡ some bs'
    → is_present block' name bs ≡ true
    → is_present block' name bs' ≡ true
unfolding is_present insert_in
is_present-insert_in block new block' name [] bs' e h = cc
is_present-insert_in block new block' name (b ∷ bs) bs' e h =
    elim (Bool-cases (eq_bytes b.name block)) [
      | inl same ↦
          let f : record b { instructions = insert_leading new b.instructions } ∷ bs ≡ bs' =
            ground arith in
          rw (← f) (ground (arith, has_instruction-insert_leading name new b.instructions))
      | inr other ↦
          let (bs'', r, f) =
            bind-eq-some (insert_in block new bs) (λ l. some (b ∷ l)) (rw other at e) in
          let f' : b ∷ bs'' ≡ bs' = ground arith in
          rw (← f') (ground (arith, is_present-insert_in block new block' name bs bs'' r))
    ]

has_instruction-insert_leading_new :
    (new : Instruction) (is : List Instruction)
    → has_instruction new.name (insert_leading new is) ≡ true
unfolding has_instruction insert_leading
has_instruction-insert_leading_new new [] = ground (arith, eq_bytes_refl new.name)
has_instruction-insert_leading_new new (i ∷ is) = elim (Bool-cases (is_leading i.op)) [
  | inl leading ↦ rw leading (ground (arith, has_instruction-insert_leading_new new is))
  | inr other ↦ rw other (ground (arith, eq_bytes_refl new.name))
]

is_present-insert_in_new :
    (block : Identifier) (new : Instruction) (bs bs' : List Block)
    → insert_in block new bs ≡ some bs'
    → is_present block new.name bs' ≡ true
unfolding is_present insert_in
is_present-insert_in_new block new [] bs' e = cc
is_present-insert_in_new block new (b ∷ bs) bs' e = elim (Bool-cases (eq_bytes b.name block)) [
  | inl same ↦
      let f : record b { instructions = insert_leading new b.instructions } ∷ bs ≡ bs' =
        ground arith in
      rw (← f) (rw same (has_instruction-insert_leading_new new b.instructions))
  | inr other ↦
      let (bs'', r, f) =
        bind-eq-some (insert_in block new bs) (λ l. some (b ∷ l)) (rw other at e) in
      let f' : b ∷ bs'' ≡ bs' = ground arith in
      rw (← f') (rw other (is_present-insert_in_new block new bs bs'' r))
]

-- The first occurrence in the target block stands there.
canonical_in-Present :
    (target : Identifier) (os : List Occurrence) (bs : List Block) (c : ℕ) (cs : Identifier)
    → canonical_in target os ≡ c ∷ cs
    → All (Present bs) os
    → is_present target (c ∷ cs) bs ≡ true
unfolding canonical_in
canonical_in-Present target [] bs c cs e h = cc
canonical_in-Present target ((block, name) ∷ os) bs c cs e h =
    elim (Bool-cases (eq_bytes block target)) [
      | inl same ↦
          let f : name ≡ c ∷ cs = rw same at e in
          ap (λ t. is_present t (c ∷ cs) bs) (sym ((eq_bytes_iff block target).0 same))
          ∙ ap (λ n. is_present block n bs) (sym f)
          ∙ h.0
      | inr other ↦ canonical_in-Present target os bs c cs (rw other at e) h.1
    ]

-- The first instruction of the name, in the first block of the other name, is of the kind.
pub record Holds (is_kind : Op → Bool) (bs : List Block) (o : Occurrence) : Type 0 where
  pub block : Block
  pub existing : Instruction
  pub has_block : block_named bs o.0 ≡ some block
  pub has_existing : find_instruction o.1 block.instructions ≡ some existing
  pub of_kind : is_kind existing.op ≡ true

module _ (is_kind : Op → Bool) where
  insert_canonical-lem :
      (target : Identifier) (o : Occurrence) (s : Pass) (h : Holds is_kind s.blocks o)
      → insert_canonical is_kind target o s ≡ (
          insert_at target (record h.existing { name = fresh_name (s.symbol_counter + 1) }) s.blocks
          >>= λ bs. some (
            fresh_name (s.symbol_counter + 1),
            record { blocks = bs; symbol_counter = s.symbol_counter + 1 },
          ))
  unfolding insert_canonical insert_at
  insert_canonical-lem target o s h = ground (arith, h.has_block, h.has_existing, h.of_kind)

  -- The chosen name, and the state in which every occurrence still stands in its block.
  pub record Chosen (target : Identifier) (os : List Occurrence) (s : Pass) : Type 0 where
    pub name : Identifier
    pub after : Pass
    pub runs : choose_canonical is_kind target os s ≡ some (name, after)
    pub present : (o : Occurrence) → Present s.blocks o → Present after.blocks o
    pub stands : is_present target name after.blocks ≡ true

  choose_canonical-insert :
      (target : Identifier) (o : Occurrence) (os : List Occurrence) (s : Pass)
      → canonical_in target (o ∷ os) ≡ []
      → choose_canonical is_kind target (o ∷ os) s ≡ insert_canonical is_kind target o s
  unfolding choose_canonical
  choose_canonical-insert target o os s e = rw (e, choose_canonical) refl

  choose_canonical-reuse :
      (target : Identifier) (o : Occurrence) (os : List Occurrence) (s : Pass) (c : ℕ)
      (cs : Identifier)
      → canonical_in target (o ∷ os) ≡ c ∷ cs
      → choose_canonical is_kind target (o ∷ os) s ≡ some (c ∷ cs, s)
  unfolding choose_canonical
  choose_canonical-reuse target o os s c cs e = rw (e, choose_canonical) refl

  Bytes-cases : (n : Identifier) → (n ≡ []) ⊎ ((c : ℕ) × (cs : Identifier) × (n ≡ c ∷ cs))
  Bytes-cases [] = inl refl
  Bytes-cases (c ∷ cs) = inr (c, cs, refl)

  pub choose_canonical-Chosen :
      (target : Identifier) (o : Occurrence) (os : List Occurrence) (s : Pass)
      → is_named s.blocks target ≡ true
      → Holds is_kind s.blocks o
      → All (Present s.blocks) (o ∷ os)
      → Chosen target (o ∷ os) s
  choose_canonical-Chosen target o os s named h all_present =
      elim (Bytes-cases (canonical_in target (o ∷ os))) [
        | inl fresh ↦
            let new : Instruction = record h.existing {
              name = fresh_name (s.symbol_counter + 1);
            } in
            let (bs, e) = insert_in_total target new s.blocks named in
            record {
              name = fresh_name (s.symbol_counter + 1);
              after = record { blocks = bs; symbol_counter = s.symbol_counter + 1 };
              runs =
                  choose_canonical-insert target o os s fresh
                  ∙ insert_canonical-lem target o s h
                  ∙ rw (insert_at-eq-insert_in target new s.blocks, e);
              present = λ p q. is_present-insert_in target new p.0 p.1 s.blocks bs e q;
              stands = is_present-insert_in_new target new s.blocks bs e;
            }
        | inr (c, cs, e) ↦ record {
          name = c ∷ cs;
          after = s;
          runs = choose_canonical-reuse target o os s c cs e;
          present = λ p q. q;
          stands = canonical_in-Present target (o ∷ os) s.blocks c cs e all_present;
        }
      ]
