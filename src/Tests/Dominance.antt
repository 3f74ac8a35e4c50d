-- ===== src/Tests/Dominance.antt =====
-- A diamond: the entry branches to two blocks, which both jump to the last one.
use jank.Prelude.{
  ◌≢◌, ◌<◌, ◌≤◌, ◌+◌, ℕ, true, false, List, [], ◌∷◌, some, ◌≡◌, ◌⊎◌, inl, inr, Bool-cases, sym,
  refl, arith, Bytes, codes, at, eq_bytes, eq_bytes_iff, contains, put, all,
}
use jank.Ir.Instruction.{Identifier, Instruction, Op, jump, branch, ret}
use jank.Ir.Function.{has_terminator, Block, Function, block_named}
use jank.Ir.Dominance.{DominanceMap, RpoIndexMap, climb, lcd, lcd_all}
use jank.Ir.Dominance.Lcd.{Node, IsDominatorTree, IsLcd, lcd-IsLcd}
use jank.Ir.Dominance.Lcd.Blocks.{IsLcdAll, lcd_all-IsLcdAll}
use jank.Ir.Dominance.Rpo.{build_rpo}
use jank.Ir.Dominance.Rpo.Visit.{HasBlock}
use jank.Ir.Dominance.Rpo.Total.{
  Resolves, AllTerminated, unvisited, ReachableOnce, build_rpo-ReachableOnce,
}
use jank.Ir.Dominance.Rpo.Resolve.{
  targets_named, targets_named-Resolves, all_terminated-AllTerminated,
}
use jank.Ir.Dominance.Idom.{Predecessors, build_predecessors, sweep, build_dominance}
use jank.Ir.Dominance.Idom.Sweep.{HasEarlier, Ordered}
use jank.Ir.Dominance.Idom.Paths.{start, step}
use jank.Ir.Dominance.Idom.Exact.{Covers, Dominators, sweep-Dominators}
use jank.Ir.Dominance.Idom.Start
use jank.Ir.Dominance.Idom.Start.{start-Sound, start-IsSweepable, start-ProcessedBelow}

abbrev entry : Identifier
entry = codes "entry"

abbrev left : Identifier
left = codes "left"

abbrev right : Identifier
right = codes "right"

abbrev merge : Identifier
merge = codes "merge"

abbrev inst : Bytes → Op → Instruction
inst name op = record { name = name; type = 0; location = 0; op = op }

abbrev block : ℕ → Identifier → Op → Block
block index name op = record { index = index; name = name; instructions = inst (codes "t") op ∷ [] }

abbrev diamond : List Block
diamond =
    block 0 entry (branch (codes "c") left right merge)
    ∷ block 1 left (jump merge false)
    ∷ block 2 right (jump merge false)
    ∷ block 3 merge (ret (codes "v"))
    ∷ []

abbrev diamond_fn : Function
diamond_fn = record {
  name = codes "f";
  blocks = diamond;
  immediate_dominators = [];
  rpo = [];
  block_rpo_index = [];
}

abbrev idom : DominanceMap
idom = (entry, entry) ∷ (right, entry) ∷ (left, entry) ∷ (merge, entry) ∷ []

abbrev rpo_index : RpoIndexMap
rpo_index = (entry, 0) ∷ (right, 1) ∷ (left, 2) ∷ (merge, 3) ∷ []

diamond_dominators :
    build_dominance 3 diamond_fn
    ≡ some (record diamond_fn {
      immediate_dominators = idom;
      rpo = entry ∷ right ∷ left ∷ merge ∷ [];
      block_rpo_index = rpo_index;
    })
unfolding build_dominance at put block_named contains eq_bytes lcd climb
diamond_dominators = refl

root : (x y : Identifier) → at rpo_index x ≡ some 0 → at idom x ≡ some y → x ≡ y
unfolding at
root x y p q = ground (
  arith,
  p,
  q,
  eq_bytes_iff entry x,
  eq_bytes_iff right x,
  eq_bytes_iff left x,
  eq_bytes_iff merge x,
)

-- Every block of the diamond has the entry as its dominator.
idom-entry : (x y : Identifier) → at idom x ≡ some y → y ≡ entry
unfolding at
idom-entry x y p = ground arith

unique : (x y : Identifier) (n : ℕ) → at rpo_index x ≡ some n → at rpo_index y ≡ some n → x ≡ y
unfolding at
unique x y n p q = ground (
  arith,
  p,
  q,
  eq_bytes_iff entry x,
  eq_bytes_iff right x,
  eq_bytes_iff left x,
  eq_bytes_iff merge x,
  eq_bytes_iff entry y,
  eq_bytes_iff right y,
  eq_bytes_iff left y,
  eq_bytes_iff merge y,
)

node :
    (x : Identifier) (n : ℕ)
    → at idom x ≡ some entry
    → at rpo_index x ≡ some n
    → Node idom rpo_index x n
node x n p q = record { parent = entry; has_parent = p; has_index = q }

entry-Node : Node idom rpo_index entry 0
entry-Node = node entry 0 (unfold at eq_bytes in refl) (unfold at eq_bytes in refl)

left-Node : Node idom rpo_index left 2
left-Node = node left 2 (unfold at eq_bytes in refl) (unfold at eq_bytes in refl)

right-Node : Node idom rpo_index right 1
right-Node = node right 1 (unfold at eq_bytes in refl) (unfold at eq_bytes in refl)

merge-Node : Node idom rpo_index merge 3
merge-Node = node merge 3 (unfold at eq_bytes in refl) (unfold at eq_bytes in refl)

diamond_tree : IsDominatorTree idom rpo_index
diamond_tree = record {
  root = root;
  climbs = λ x y n p q lt. (0, lt, rw (idom-entry x y p) entry-Node);
  unique = unique;
}

lcd-IsLcd_example :
    (c : Identifier) × (lcd idom rpo_index 4 left right ≡ some c) × IsLcd diamond_tree left right c
lcd-IsLcd_example = lcd-IsLcd diamond_tree 4 left right 2 1 left-Node right-Node (omega arith)

lcd_all-IsLcdAll_example :
    (c : Identifier) × (lcd_all idom rpo_index 8 (left ∷ merge ∷ right ∷ []) ≡ some c)
    × IsLcdAll idom rpo_index (left ∷ merge ∷ right ∷ []) c
lcd_all-IsLcdAll_example =
    lcd_all-IsLcdAll diamond_tree 4 8 left (merge ∷ right ∷ [])
      (
        (2, omega arith, left-Node),
        ((3, omega arith, merge-Node), ((1, omega arith, right-Node), tt)),
      )
      (omega arith)

diamond_targets : targets_named diamond diamond ≡ true
unfolding targets_named eq_bytes
diamond_targets = refl

abbrev resolves : Resolves diamond
resolves = targets_named-Resolves diamond diamond_targets

diamond_terminated : all has_terminator diamond ≡ true
unfolding all has_terminator
diamond_terminated = refl

abbrev diamond_ends : AllTerminated diamond
diamond_ends = all_terminated-AllTerminated diamond diamond_terminated

entry_block : HasBlock diamond entry
unfolding block_named eq_bytes
entry_block = (block 0 entry (branch (codes "c") left right merge), refl)

build_rpo-ReachableOnce_example :
    ReachableOnce diamond resolves diamond_ends entry
      (build_rpo diamond 5 entry (unvisited diamond resolves diamond_ends))
build_rpo-ReachableOnce_example =
    build_rpo-ReachableOnce diamond resolves diamond_ends 5 entry entry_block (omega arith)

abbrev preds : Predecessors
preds =
    (merge, entry ∷ left ∷ right ∷ []) ∷ (right, entry ∷ []) ∷ (left, entry ∷ []) ∷ (entry, []) ∷ []

diamond_predecessors : build_predecessors diamond ≡ some preds
unfolding build_predecessors at put eq_bytes
diamond_predecessors = refl

not_empty : (c : ℕ) (cs : Bytes) → (c ∷ cs) ≢ []
not_empty c cs e = cc e

-- A block of the diamond, of the index `i`, whose predecessor is the entry.
below_entry :
    (x : Identifier) (i : ℕ) (from : List Identifier)
    → x ≢ []
    → at rpo_index x ≡ some i
    → at preds x ≡ some from
    → contains from entry ≡ true
    → 0 < i
    → HasEarlier rpo_index preds i x
below_entry x i from name at_i at_from m lt = record {
  named = name;
  has_index = at_i;
  from = from;
  has_from = at_from;
  earlier = entry;
  is_from = m;
  index = 0;
  has_earlier_index = unfold at eq_bytes in refl;
  before = lt;
}

diamond-Ordered : Ordered rpo_index preds 1 (right ∷ left ∷ merge ∷ [])
unfolding at eq_bytes contains
diamond-Ordered = (
  below_entry right 1 (entry ∷ []) (not_empty _ _) refl refl refl (omega arith),
  (
    below_entry left 2 (entry ∷ []) (not_empty _ _) refl refl refl (omega arith),
    (
      below_entry merge 3 (entry ∷ left ∷ right ∷ []) (not_empty _ _) refl refl refl (omega arith),
      tt,
    ),
  ),
)

-- A block with predecessors is the entry or one of the blocks to sweep.
listed :
    (x : Identifier) (from : List Identifier)
    → at preds x ≡ some from
    → (x ≡ entry) ⊎ (contains (right ∷ left ∷ merge ∷ []) x ≡ true)
unfolding at contains
listed x from e = elim (Bool-cases (eq_bytes entry x)) [
  | inl same ↦ inl (sym ((eq_bytes_iff entry x).0 same))
  | inr other ↦ inr (
      ground (
        arith,
        e,
        other,
        eq_bytes_iff merge x,
        eq_bytes_iff right x,
        eq_bytes_iff left x,
        eq_bytes_iff x merge,
        eq_bytes_iff x right,
        eq_bytes_iff x left,
      ))
]

abbrev enough : 4 + 4 ≤ 9
enough = omega arith

diamond-Covers : Covers rpo_index preds entry (right ∷ left ∷ merge ∷ [])
diamond-Covers x start = inl refl
diamond-Covers x (step x' path edge) = listed x' edge.from edge.has_from

-- The first sweep finds the dominators, and the second one changes nothing.
first_sweep :
    sweep 9 rpo_index preds (right ∷ left ∷ merge ∷ []) (Start.start entry, false)
    ≡ some (idom, true)
unfolding sweep at put contains eq_bytes lcd climb
first_sweep = refl

second_sweep :
    sweep 9 rpo_index preds (right ∷ left ∷ merge ∷ []) (idom, false) ≡ some (idom, false)
unfolding sweep at put contains eq_bytes lcd climb
second_sweep = refl

sweep-Dominators_example :
    Dominators rpo_index preds entry 9 4 enough
      (right ∷ left ∷ merge ∷ [])
      (sweep 9 rpo_index preds (right ∷ left ∷ merge ∷ []) (Start.start entry, false))
sweep-Dominators_example =
    sweep-Dominators rpo_index preds entry 9 4 enough (right ∷ left ∷ merge ∷ [])
      (Start.start entry)
      (start-IsSweepable entry rpo_index entry-Node.has_index unique 4 (omega arith)
        (not_empty _ _))
      (start-Sound entry rpo_index preds) entry-Node.has_index
      (start-ProcessedBelow entry rpo_index entry-Node.has_index unique) diamond-Ordered
      diamond-Covers (omega arith)
