-- ===== src/Ir/Dominance/Idom/Exact.antt =====
-- The dominators that a sweep confirms are those of the control flow graph:
-- compiler+runtime/src/cpp/jank/ir/dominance.cpp.
use mathlib.Core.Path.{subst}
use jank.Prelude.{
  ℕ, ◌+◌, ◌≤◌, Bool, true, false, List, Option, some, ◌≡◌, refl, ap, sym, ◌∙◌, arith, length, ◌⊎◌,
  ◌↔◌, inl, inr, contains, at,
}
use jank.Ir.Instruction.{Identifier}
use jank.Ir.Dominance.{DominanceMap, RpoIndexMap}
use jank.Ir.Dominance.Lcd.{Node, IsDominatorTree, Above, here, up, Above-trans}
use jank.Ir.Dominance.Idom.{Predecessors, sweep}
use jank.Ir.Dominance.Idom.Assign.{IsSweepable}
use jank.Ir.Dominance.Idom.Paths.{PathTo, start, step, Passes, Dominates}
use jank.Ir.Dominance.Idom.Sound.{Sound}
use jank.Ir.Dominance.Idom.Sweep.{ProcessedBelow, Ordered, Settled}
use jank.Ir.Dominance.Idom.Sweeps.{sweep-Swept}

module _ (rpo_index : RpoIndexMap) (preds : Predecessors) (entry : Identifier) where
  -- Every block that a path from the entry reaches is the entry, or one of the blocks.
  abbrev pub Covers : List Identifier → Type 0
  Covers xs = (x : Identifier) → PathTo preds entry x → (x ≡ entry) ⊎ (contains xs x ≡ true)

  module _ (idom : DominanceMap) (tree : IsDominatorTree idom rpo_index)
      (at_entry : at rpo_index entry ≡ some 0) (xs : List Identifier) (covers : Covers xs)
      (indexed : (x y : Identifier) → at idom x ≡ some y → (n : ℕ) × Node idom rpo_index x n)
      (entry_processed : (y : Identifier) × (at idom entry ≡ some y))
      (settled : (x : Identifier) → contains xs x ≡ true → Settled rpo_index preds idom x) where
    -- Nothing else stands above the entry.
    above_entry : {w x : Identifier} → Above idom rpo_index w x → x ≡ entry → w ≡ entry
    above_entry here same = same
    above_entry (up {x = x} y e r) same =
        let at_x : at rpo_index x ≡ some 0 = ap (at rpo_index) same ∙ at_entry in
        above_entry r (sym (tree.root x y at_x e) ∙ same)

    reached_node : (x : Identifier) → PathTo preds entry x → (n : ℕ) × Node idom rpo_index x n
    reached_node x path = elim (covers x path) [
      | inl same ↦ let (y, e) = entry_processed in indexed x y (ap (at idom) same ∙ e)
      | inr m ↦ let h = settled x m in indexed x h.dominator h.has_dominator
    ]

    -- A block that stands above another one is on every path to it.
    Above-Passes :
        (w : Identifier) {x : Identifier} (path : PathTo preds entry x)
        → Above idom rpo_index w x
        → Passes preds w path
    unfolding Passes
    Above-Passes w start a = above_entry a refl
    Above-Passes w (step {p} x path edge) here = inl refl
    Above-Passes w (step {p} x path edge) (up y e r) = elim (covers x (step x path edge)) [
      | inl same ↦ inl (above_entry (up y e r) same ∙ sym same)
      | inr m ↦
          let h = settled x m in
          let (n, v) = reached_node p path in
          let is_dominator : y ≡ h.dominator = ground (arith, e, h.has_dominator) in
          let r' = subst (Above idom rpo_index w) is_dominator r in
          inr (Above-Passes w path (Above-trans tree (h.over p n edge v) r'))
    ]

    Above-Dominates : (w x : Identifier) → Above idom rpo_index w x → Dominates preds entry w x
    unfolding Dominates
    Above-Dominates w x a path = Above-Passes w path a

  module _ (fuel bound : ℕ) (enough : bound + bound ≤ fuel) where
    -- The outcome of a sweep of the blocks `xs`.
    pub record Dominators (xs : List Identifier) (r : Option (DominanceMap × Bool)) : Type 0 where
      pub after : DominanceMap
      pub changed : Bool
      pub runs : r ≡ some (after, changed)
      pub sweepable : IsSweepable after rpo_index bound
      pub processed : ProcessedBelow rpo_index after (1 + length xs)
      pub sound : Sound rpo_index preds entry after
      pub exact :
          changed ≡ false
          → (w x y : Identifier) → at after x ≡ some y
          → (Above after rpo_index w x ↔ Dominates preds entry w x)

    -- Where the dominators so far form a tree that is sound, the entry has the index 0 and is
    -- processed, the blocks to sweep stand at the indices from 1 on, each behind one of its
    -- predecessors, every block that a path from the entry reaches is among them, and the fuel is
    -- twice the number of indices: the sweep ends, leaves such a tree, and every one of the blocks
    -- has a dominator. A tree is sound if every block that is on all paths from the entry to
    -- another one stands above it, and from each dominator a path leads to its block through
    -- blocks of higher indices only. If the sweep changes nothing, exactly the blocks on all paths
    -- stand above a block.
    pub sweep-Dominators :
        (xs : List Identifier) (idom : DominanceMap)
        → IsSweepable idom rpo_index bound
        → Sound rpo_index preds entry idom
        → at rpo_index entry ≡ some 0
        → ProcessedBelow rpo_index idom 1
        → Ordered rpo_index preds 1 xs
        → Covers xs
        → 1 + length xs ≤ bound
        → Dominators xs (sweep fuel rpo_index preds xs (idom, false))
    sweep-Dominators xs idom s sound at_entry p h covers le =
        let r =
          sweep-Swept rpo_index preds entry fuel bound enough xs 1 idom false s sound p h le in
        record {
          after = r.after;
          changed = r.changed';
          runs = r.runs;
          sweepable = r.sweepable;
          processed = r.processed;
          sound = r.sound;
          exact = λ f w x y e. (
            Above-Dominates r.after r.sweepable.tree at_entry xs covers
                (λ z t i. let (n, _, v) = r.sweepable.known z t i in (n, v))
                (r.processed entry 0 at_entry (omega arith)) (r.settled f) w x,
            r.sound.above w x y e,
          );
        }
