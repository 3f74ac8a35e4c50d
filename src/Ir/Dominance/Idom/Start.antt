-- ===== src/Ir/Dominance/Idom/Start.antt =====
-- The map that `build_idom` starts with, in which the entry is its own dominator.
use jank.Prelude.{
  ℕ, ◌<◌, [], ◌∷◌, some, ◌≡◌, ◌≢◌, ap, sym, ◌∙◌, arith, eq_bytes_iff, eq_bytes_refl, at,
}
use mathlib.Core.Path.{subst}
use jank.Ir.Instruction.{Identifier}
use jank.Ir.Dominance.{DominanceMap, RpoIndexMap}
use jank.Ir.Dominance.Lcd.{Node, Above, here}
use jank.Ir.Dominance.Idom.{Predecessors}
use jank.Ir.Dominance.Idom.Paths
use jank.Ir.Dominance.Idom.Paths.{Dominates, Passes, Down, stay, PathTo}
use jank.Ir.Dominance.Idom.Sound.{Sound}
use jank.Ir.Dominance.Idom.Assign.{IsSweepable}
use jank.Ir.Dominance.Idom.Sweep.{ProcessedBelow}

module _ (entry : Identifier) where
  abbrev pub start : DominanceMap
  start = (entry, entry) ∷ []

  at-start : (x y : Identifier) → at start x ≡ some y → (entry ≡ x) × (entry ≡ y)
  unfolding at
  at-start x y e = ground (arith, e, eq_bytes_iff entry x)

  at-start-entry : at start entry ≡ some entry
  unfolding at
  at-start-entry = rw (eq_bytes_refl entry)

  module _ (rpo_index : RpoIndexMap) (at_entry : at rpo_index entry ≡ some 0)
      (unique : (x y : Identifier) (n : ℕ)
        → at rpo_index x ≡ some n
        → at rpo_index y ≡ some n
        → x ≡ y) where
    entry-Node : Node start rpo_index entry 0
    entry-Node = record { parent = entry; has_parent = at-start-entry; has_index = at_entry }

    index_zero : (x y : Identifier) (n : ℕ) → at start x ≡ some y → at rpo_index x ≡ some n → n ≡ 0
    index_zero x y n e h =
        let (same, _) = at-start x y e in
        let h' : at rpo_index entry ≡ some n = ap (at rpo_index) same ∙ h in
        ground (arith, at_entry, h')

    pub start-IsSweepable : (bound : ℕ) → 0 < bound → entry ≢ [] → IsSweepable start rpo_index bound
    start-IsSweepable bound pos name = record {
      tree = record {
        root = λ x y h e. let (same, same') = at-start x y e in sym same ∙ same';
        climbs = λ x y n e h lt. absurd (omega (arith, lt, index_zero x y n e h));
        unique = unique;
      };
      known = λ x y e.
          let (same, _) = at-start x y e in
          (0, pos, subst (λ z. Node start rpo_index z 0) same entry-Node);
      named = λ x y e h. let (same, _) = at-start x y e in name (same ∙ h);
    }

    pub start-ProcessedBelow : ProcessedBelow rpo_index start 1
    start-ProcessedBelow q j e lt =
        let zero_index : at rpo_index q ≡ some 0 = e ∙ ap some (omega arith) in
        (entry, ap (at start) (unique q entry 0 zero_index at_entry) ∙ at-start-entry)

  module _ (rpo_index : RpoIndexMap) (preds : Predecessors) where
    pub start-Sound : Sound rpo_index preds entry start
    unfolding Dominates Passes
    start-Sound = record {
      above = λ w x y e dom.
          let (same, _) = at-start x y e in
          subst (Above start rpo_index w) same (
            subst (λ t. Above start rpo_index t entry)
              (sym (at_entry w (subst (Dominates preds entry w) (sym same) dom))) here);
      descends = λ x y n e at_n.
          let (same, same') = at-start x y e in
          subst (λ t. Down preds rpo_index n t x) same'
            (subst (λ t. Down preds rpo_index n entry t) same stay);
    }
      where
        at_entry : (w : Identifier) → Dominates preds entry w entry → w ≡ entry
        at_entry w dom = dom Paths.start
