-- ===== src/Ir/Dominance/Idom/Paths.antt =====
-- Paths of the control flow graph, and the blocks that stand on all of them: what the dominators of
-- compiler+runtime/src/cpp/jank/ir/dominance.cpp mean.
use mathlib.Core.Path.{subst}
use jank.Prelude.{
  ℕ, zero, suc, ◌<◌, ◌≤◌, true, List, some, ◌≡◌, ◌≢◌, ap, sym, ◌∙◌, arith, ◌⊎◌, inl, inr, contains,
  at,
}
use jank.Ir.Instruction.{Identifier}
use jank.Ir.Dominance.{DominanceMap, RpoIndexMap}
use jank.Ir.Dominance.Lcd.{Node, IsDominatorTree, Above, here, up, Above-index}
use jank.Ir.Dominance.Idom.{Predecessors}

module _ (preds : Predecessors) where
  -- `p` is a predecessor of `x`.
  pub record Edge (p x : Identifier) : Type 0 where
    pub from : List Identifier
    pub has_from : at preds x ≡ some from
    pub is_from : contains from p ≡ true

  pub data PathTo (a : Identifier) : Identifier → Type 0 where
    start : PathTo a a
    step : {p : Identifier} (x : Identifier) → PathTo a p → Edge p x → PathTo a x

  -- `w` stands on the path.
  unfoldable pub Passes : (w : Identifier) {a x : Identifier} → PathTo a x → Type 0
  Passes w {a} start = w ≡ a
  Passes w (step x path edge) = (w ≡ x) ⊎ Passes w path

  -- Every path from the entry to `x` passes `w`.
  unfoldable pub Dominates : Identifier → Identifier → Identifier → Type 0
  Dominates entry w x = (path : PathTo entry x) → Passes w path

  -- What dominates a block and differs from it dominates its predecessors.
  pub Dominates-pred :
      (entry w p x : Identifier) → Dominates entry w x → w ≢ x → Edge p x → Dominates entry w p
  unfolding Dominates Passes
  Dominates-pred entry w p x d ne edge path = elim (d (step x path edge)) [
    | inl same ↦ absurd (ne same)
    | inr passes ↦ passes
  ]

  module _ (rpo_index : RpoIndexMap) where
    -- A path on which every block behind the first has an index above `n`.
    pub data Down (n : ℕ) (a : Identifier) : Identifier → Type 0 where
      stay : Down n a a
      down :
          {p : Identifier} (x : Identifier) (m : ℕ)
          → Down n a p
          → Edge p x
          → at rpo_index x ≡ some m
          → n < m
          → Down n a x

    Down-weaken : {n k : ℕ} {a x : Identifier} → k ≤ n → Down n a x → Down k a x
    Down-weaken le stay = stay
    Down-weaken le (down x m d edge e lt) = down x m (Down-weaken le d) edge e (omega arith)

    Down-trans : {n : ℕ} {a b x : Identifier} → Down n a b → Down n b x → Down n a x
    Down-trans p stay = p
    Down-trans p (down x m d edge e lt) = down x m (Down-trans p d) edge e lt

    -- What dominates the end of such a path, and has a lower index, dominates its start.
    pub Dominates-up :
        {n : ℕ} {a x : Identifier} (entry w : Identifier) (k : ℕ)
        → Down n a x
        → Dominates entry w x
        → at rpo_index w ≡ some k
        → k ≤ n
        → Dominates entry w a
    Dominates-up entry w k stay dom at_w le = dom
    Dominates-up {n} entry w k (down {p} x m d edge e lt) dom at_w le =
        Dominates-up entry w k d (Dominates-pred entry w p x dom apart edge) at_w le
      where
        apart : w ≢ x
        apart same =
            let at_x : at rpo_index w ≡ some m = ap (at rpo_index) same ∙ e in
            ground (arith, at_x, at_w, lt, le)

    -- From a dominator that was assigned, a path leads down to the block.
    abbrev pub Descends : DominanceMap → Type 0
    Descends idom =
        (x y : Identifier) (n : ℕ) → at idom x ≡ some y → at rpo_index y ≡ some n → Down n y x

    pub Above-Down :
        {idom : DominanceMap} {a x : Identifier} (i n : ℕ)
        → IsDominatorTree idom rpo_index
        → Descends idom
        → Above idom rpo_index a x
        → Node idom rpo_index x n
        → at rpo_index a ≡ some i
        → Down i a x
    Above-Down i n tree h here v at_a = stay
    Above-Down {idom} {a} i zero tree h (up {x} y e r) v at_a =
        let same = tree.root x y v.has_index e in
        subst (Down i a) (sym same)
          (Above-Down i zero tree h r (subst (λ z. Node idom rpo_index z 0) same v) at_a)
    Above-Down i (suc n) tree h (up {x} y e r) v at_a =
        let (m, lt, w) = tree.climbs x y (suc n) e v.has_index (omega arith) in
        let (j, le, u) = Above-index tree m r w in
        let low : i ≤ m = ground (arith, u.has_index, at_a, le) in
        Down-trans (Above-Down i m tree h r w at_a) (Down-weaken low (h x y m e w.has_index))
