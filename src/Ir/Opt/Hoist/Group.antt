-- ===== src/Ir/Opt/Hoist/Group.antt =====
-- One round of the hoisting passes, for the occurrences of one value.
use jank.Prelude.{
  ℕ, ◌+◌, ◌*◌, Bool, true, false, List, [], ◌∷◌, map, some, ◌≡◌, ◌≢◌, ◌∙◌, refl, arith, ◌==◌,
  length, All,
}
use jank.Ir.Instruction.{Identifier, Handle, Op}
use jank.Ir.Rewrite.Removes.{Unused}
use jank.Ir.Dominance.{DominanceMap, RpoIndexMap, lcd_all}
use jank.Ir.Dominance.Lcd.{Node, IsDominatorTree, Above-index}
use jank.Ir.Dominance.Lcd.Blocks.{NodeBelow, IsLcdAll, lcd_all-IsLcdAll}
use jank.Ir.Dominance.Rpo.Resolve.{is_named}
use jank.Ir.Opt.Hoist.{Pass, Occurrence, choose_canonical, replace_duplicates, hoist_group}
use jank.Ir.Opt.Hoist.Present.{is_present}
use jank.Ir.Opt.Hoist.Duplicates.{Present, Distinct, replace_duplicates-Replaced}
use jank.Ir.Opt.Hoist.Canonical.{Holds, choose_canonical-Chosen}

-- The blocks of the occurrences.
abbrev pub owning_blocks : List Occurrence → List Identifier
owning_blocks = map (λ (o : Occurrence). o.0)

module _ (is_kind : Op → Bool) (void_type unknown : Handle) (idom : DominanceMap)
    (rpo_index : RpoIndexMap) where
  hoist_group-steps :
      (os : List Occurrence) (s : Pass) (target canonical : Identifier) (s' : Pass)
      → (length os == 1) ≡ false
      → lcd_all idom rpo_index (2 * length rpo_index + 1) (owning_blocks os) ≡ some target
      → choose_canonical is_kind target os s ≡ some (canonical, s')
      → hoist_group is_kind void_type unknown idom rpo_index os s
        ≡ replace_duplicates void_type unknown canonical os s'
  unfolding hoist_group
  hoist_group-steps os s target canonical s' several e chosen =
      rw (several, hoist_group) (rw (e, hoist_group) (rw (chosen, hoist_group) refl))

  -- What a round leaves: the target is the lowest common dominator of the occurrences, the
  -- canonical instruction stands in it, and `uses_name` finds no dropped one.
  pub record Hoisted (os : List Occurrence) (s : Pass) : Type 0 where
    pub target : Identifier
    pub lowest : IsLcdAll idom rpo_index (owning_blocks os) target
    pub canonical : Identifier
    pub after : Pass
    pub runs : hoist_group is_kind void_type unknown idom rpo_index os s ≡ some after
    pub stands : is_present target canonical after.blocks ≡ true
    pub unused : All (λ (o : Occurrence). o.1 ≢ canonical → Unused o.1 after.blocks) os

  All-Present :
      (s s' : Pass) (os : List Occurrence)
      → ((o : Occurrence) → Present s.blocks o → Present s'.blocks o)
      → All (Present s.blocks) os
      → All (Present s'.blocks) os
  All-Present s s' [] keeps h = tt
  All-Present s s' (o ∷ os) keeps h = (keeps o h.0, All-Present s s' os keeps h.1)

  -- Where the dominators form a tree of the function's blocks, the indices are below the number of
  -- blocks, every occurrence stands in its block, their names differ and the first is of the kind
  -- of the pass: a round for two or more occurrences ends with the canonical instruction in the
  -- lowest common dominator of their blocks, and leaves no operand that names a dropped one and
  -- that `uses_name` finds.
  pub hoist_group-Hoisted :
      (o p : Occurrence) (os : List Occurrence) (s : Pass)
      → IsDominatorTree idom rpo_index
      → ((x : Identifier) (n : ℕ) → Node idom rpo_index x n → is_named s.blocks x ≡ true)
      → All (NodeBelow idom rpo_index (length rpo_index)) (owning_blocks (o ∷ p ∷ os))
      → Holds is_kind s.blocks o
      → All (Present s.blocks) (o ∷ p ∷ os)
      → Distinct (o ∷ p ∷ os)
      → Hoisted (o ∷ p ∷ os) s
  hoist_group-Hoisted o p os s tree named below h present distinct =
      let (target, found, lowest) =
        lcd_all-IsLcdAll tree (length rpo_index) (2 * length rpo_index + 1) o.0
          (owning_blocks (p ∷ os)) below (omega arith) in
      let (n, lt, v) = below.0 in
      let (j, le, u) = Above-index tree n lowest.above.0 v in
      let chosen =
        choose_canonical-Chosen is_kind target o (p ∷ os) s (named target j u) h present in
      let r =
        replace_duplicates-Replaced void_type unknown chosen.name (o ∷ p ∷ os) chosen.after
          (All-Present s chosen.after (o ∷ p ∷ os) chosen.present present) distinct in
      record {
        target = target;
        lowest = lowest;
        canonical = chosen.name;
        after = r.after;
        runs =
            hoist_group-steps (o ∷ p ∷ os) s target chosen.name chosen.after (ground arith) found
              chosen.runs
            ∙ r.runs;
        stands = r.canonical_stays target chosen.stands;
        unused = r.unused;
      }
