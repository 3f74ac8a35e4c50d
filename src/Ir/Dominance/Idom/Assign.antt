-- ===== src/Ir/Dominance/Idom/Assign.antt =====
-- One assignment of `build_idom` to the map of dominators.
use jank.Prelude.{
  ℕ, ◌<◌, false, [], some, ◌≡◌, ◌≢◌, ap, sym, ◌∙◌, arith, inl, inr, Bool-cases, eq_bytes,
  eq_bytes_iff, eq_bytes_refl, at, put, at-put,
}
use mathlib.Core.Path.{subst}
use jank.Ir.Instruction.{Identifier}
use jank.Ir.Dominance.{DominanceMap, RpoIndexMap}
use jank.Ir.Dominance.Lcd.{Node, IsDominatorTree}

-- A tree, whose blocks have a name and an index below a bound.
pub record IsSweepable (idom : DominanceMap) (rpo_index : RpoIndexMap) (bound : ℕ) : Type 0 where
  pub tree : IsDominatorTree idom rpo_index
  pub known :
      (x y : Identifier) → at idom x ≡ some y → (n : ℕ) × (n < bound) × Node idom rpo_index x n
  pub named : (x y : Identifier) → at idom x ≡ some y → x ≢ []

module _ (idom : DominanceMap) (x d : Identifier) where
  pub at-put_same : at (put idom x d) x ≡ some d
  at-put_same = at-put idom x x d ∙ rw (eq_bytes_refl x)

  pub at-put_other : (z : Identifier) → eq_bytes x z ≡ false → at (put idom x d) z ≡ at idom z
  at-put_other z h = at-put idom x z d ∙ rw h

  -- A block keeps its index, and has a dominator after the assignment if it had one before.
  pub Node-put :
      (rpo_index : RpoIndexMap) (y : Identifier) (k : ℕ)
      → Node idom rpo_index y k
      → Node (put idom x d) rpo_index y k
  Node-put rpo_index y k v = elim (Bool-cases (eq_bytes x y)) [
    | inl same ↦ record {
      parent = d;
      has_parent = ap (at (put idom x d)) (sym ((eq_bytes_iff x y).0 same)) ∙ at-put_same;
      has_index = v.has_index;
    }
    | inr differ ↦ record {
      parent = v.parent;
      has_parent = at-put_other y differ ∙ v.has_parent;
      has_index = v.has_index;
    }
  ]

  -- The assigned dominator has an index below that of the block.
  pub IsDominatorTree-put :
      (rpo_index : RpoIndexMap) (n j : ℕ)
      → IsDominatorTree idom rpo_index
      → at rpo_index x ≡ some n
      → Node idom rpo_index d j
      → j < n
      → IsDominatorTree (put idom x d) rpo_index
  IsDominatorTree-put rpo_index n j tree at_n v lt = record {
    root = λ z y h e. elim (Bool-cases (eq_bytes x z)) [
      | inl same ↦
          let h' : at rpo_index x ≡ some 0 = ap (at rpo_index) ((eq_bytes_iff x z).0 same) ∙ h in
          absurd (below_zero h')
      | inr differ ↦ tree.root z y h (sym (at-put_other z differ) ∙ e)
    ];
    climbs = λ z y m e h pos. elim (Bool-cases (eq_bytes x z)) [
      | inl same ↦
          let e' : some d ≡ some y =
            sym at-put_same ∙ ap (at (put idom x d)) ((eq_bytes_iff x z).0 same) ∙ e in
          let h' : some n ≡ some m = sym at_n ∙ ap (at rpo_index) ((eq_bytes_iff x z).0 same) ∙ h in
          (
            j,
            index_below m h',
            subst (λ w. Node (put idom x d) rpo_index w j) (some_inj e') (Node-put rpo_index d j v),
          )
      | inr differ ↦
          let (k, below, w) = tree.climbs z y m (sym (at-put_other z differ) ∙ e) h pos in
          (k, below, Node-put rpo_index y k w)
    ];
    unique = tree.unique;
  }
    where
      below_zero : at rpo_index x ≡ some 0 → ⊥
      below_zero h = ground (arith, at_n, lt, h)

      index_below : (m : ℕ) → some n ≡ some m → j < m
      index_below m h = ground (arith, lt, h)

      some_inj : {y : Identifier} → some d ≡ some y → d ≡ y
      some_inj h = cc h

  pub IsSweepable-put :
      (rpo_index : RpoIndexMap) (bound n j : ℕ)
      → IsSweepable idom rpo_index bound
      → at rpo_index x ≡ some n
      → n < bound
      → x ≢ []
      → Node idom rpo_index d j
      → j < n
      → IsSweepable (put idom x d) rpo_index bound
  IsSweepable-put rpo_index bound n j s at_n small name v lt = record {
    tree = IsDominatorTree-put rpo_index n j s.tree at_n v lt;
    known = λ z y e. elim (Bool-cases (eq_bytes x z)) [
      | inl same ↦ (
        n,
        small,
        record {
          parent = y;
          has_parent = e;
          has_index = ap (at rpo_index) (sym ((eq_bytes_iff x z).0 same)) ∙ at_n;
        },
      )
      | inr differ ↦
          let (k, below, w) = s.known z y (sym (at-put_other z differ) ∙ e) in
          (k, below, Node-put rpo_index z k w)
    ];
    named = λ z y e. elim (Bool-cases (eq_bytes x z)) [
      | inl same ↦ λ h. name ((eq_bytes_iff x z).0 same ∙ h)
      | inr differ ↦ s.named z y (sym (at-put_other z differ) ∙ e)
    ];
  }
