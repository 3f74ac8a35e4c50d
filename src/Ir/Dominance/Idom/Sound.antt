-- ===== src/Ir/Dominance/Idom/Sound.antt =====
-- The tree of dominators keeps every block above those that it dominates:
-- compiler+runtime/src/cpp/jank/ir/dominance.cpp.
use jank.Prelude.{
  ℕ, zero, suc, ◌<◌, ◌≤◌, true, false, List, some, ◌≡◌, ◌≢◌, ap, sym, ◌∙◌, arith, ◌⊎◌, inl, inr,
  Bool-cases, contains, at, put, eq_bytes, eq_bytes_iff,
}
use mathlib.Core.Path.{subst}
use jank.Ir.Instruction.{Identifier}
use jank.Ir.Dominance.{DominanceMap, RpoIndexMap}
use jank.Ir.Dominance.Lcd.{Node, IsDominatorTree, Above, here, up, Above-index, Above-trans}
use jank.Ir.Dominance.Idom.{Predecessors}
use jank.Ir.Dominance.Idom.Assign.{at-put_same, at-put_other, IsDominatorTree-put}
use jank.Ir.Dominance.Idom.Paths.{
  Edge, Dominates, Dominates-pred, Dominates-up, Descends, Down, down, Above-Down,
}

module _ (rpo_index : RpoIndexMap) (preds : Predecessors) (entry : Identifier) where
  -- What dominates a block with a dominator stands above it, and from each dominator a path leads
  -- down to its block.
  pub record Sound (idom : DominanceMap) : Type 0 where
    pub above :
        (w x y : Identifier)
        → at idom x ≡ some y
        → Dominates preds entry w x
        → Above idom rpo_index w x
    pub descends : Descends preds rpo_index idom

  module _ (idom : DominanceMap) (x d : Identifier) (i j : ℕ)
      (tree : IsDominatorTree idom rpo_index) (sound : Sound idom) (at_i : at rpo_index x ≡ some i)
      (v : Node idom rpo_index d j) (lt : j < i) where
    abbrev idom' : DominanceMap
    idom' = put idom x d

    tree_put : IsDominatorTree idom' rpo_index
    tree_put = IsDominatorTree-put idom x d rpo_index i j tree at_i v lt

    parent_index :
        (z y : Identifier) (k : ℕ)
        → at idom z ≡ some y
        → Node idom rpo_index z k
        → (m : ℕ) × (m ≤ k) × (0 < k → m < k) × Node idom rpo_index y m
    parent_index z y zero e u = (
      0,
      omega arith,
      λ h. h,
      subst (λ t. Node idom rpo_index t 0) (tree.root z y u.has_index e) u,
    )
    parent_index z y (suc k) e u =
        let (m, less, n) = tree.climbs z y (suc k) e u.has_index (omega arith) in
        (m, omega arith, λ _. less, n)

    other_block : (z : Identifier) (k : ℕ) → at rpo_index z ≡ some k → k < i → eq_bytes x z ≡ false
    other_block z k e below = elim (Bool-cases (eq_bytes x z)) [
      | inl same ↦
          let at_x : at rpo_index x ≡ some k = ap (at rpo_index) ((eq_bytes_iff x z).0 same) ∙ e in
          absurd (clash at_x)
      | inr differ ↦ differ
    ]
      where
        clash : at rpo_index x ≡ some k → ⊥
        clash at_x = ground (arith, at_x, at_i, below)

    -- A chain that starts at a lower index does not reach the assignment.
    Above-put :
        {w z : Identifier} (k : ℕ)
        → Above idom rpo_index w z
        → Node idom rpo_index z k
        → k < i
        → Above idom' rpo_index w z
    Above-put k here u below = here
    Above-put k (up {x = z} y e r) u below =
        let (m, le, _, n) = parent_index z y k e u in
        up y (at-put_other idom x d z (other_block z k u.has_index below) ∙ e)
          (Above-put m r n (omega arith))

    -- A chain stays, or it passes the assigned block and ends above it.
    Above-split :
        {w z : Identifier} (k : ℕ)
        → Above idom rpo_index w z
        → Node idom rpo_index z k
        → Above idom' rpo_index w z
          ⊎ (Above idom' rpo_index x z
              × Above idom rpo_index x z
              × ((l : ℕ) × (l < i) × (at rpo_index w ≡ some l)))
    Above-split k here u = inl here
    Above-split {w} k (up {x = z} y e r) u =
        let (m, le, less, n) = parent_index z y k e u in
        elim (Bool-cases (eq_bytes x z)) [
          | inl same ↦
              let is_z : x ≡ z = (eq_bytes_iff x z).0 same in
              let (l, le', t) = Above-index tree m r n in
              let at_x : at rpo_index x ≡ some k = ap (at rpo_index) is_z ∙ u.has_index in
              let k_is_i : k ≡ i = ground (arith, at_x, at_i) in
              inr (
                subst (Above idom' rpo_index x) is_z here,
                subst (Above idom rpo_index x) is_z here,
                (l, omega (arith, less, lt, le', k_is_i), t.has_index),
              )
          | inr differ ↦
              let kept = at-put_other idom x d z differ ∙ e in
              elim (Above-split m r n) [
                | inl stays ↦ inl (up y kept stays)
                | inr (new, old, ends) ↦ inr (up y kept new, up y e old, ends)
              ]
        ]

    -- The predecessors of the assigned block: what stands above all of those that have a dominator
    -- stands above the assigned one, and one of them is below it.
    pub record Meets : Type 0 where
      pub from : List Identifier
      pub has_from : at preds x ≡ some from
      pub lowest :
          (w : Identifier)
          → ((q : Identifier) (n : ℕ)
              → contains from q ≡ true
              → Node idom rpo_index q n
              → Above idom rpo_index w q)
          → Above idom rpo_index w d
      pub earlier : Identifier
      pub index : ℕ
      pub is_from : contains from earlier ≡ true
      pub node : Node idom rpo_index earlier index
      pub above_earlier : Above idom rpo_index d earlier

    module _ (meets : Meets) where
      edge : (q : Identifier) → contains meets.from q ≡ true → Edge preds q x
      edge q m = record { from = meets.from; has_from = meets.has_from; is_from = m }

      above_assigned : (w : Identifier) → Dominates preds entry w x → Above idom' rpo_index w x
      above_assigned w dom = elim (Bool-cases (eq_bytes w x)) [
        | inl same ↦ subst (Above idom' rpo_index w) ((eq_bytes_iff w x).0 same) here
        | inr differ ↦
            let ne : w ≢ x = λ same. cc (differ, (eq_bytes_iff w x).1 same) in
            let over : Above idom rpo_index w d = meets.lowest w (over_all ne) in
            up d (at-put_same idom x d) (Above-put j over v lt)
      ]
        where
          over_all :
              w ≢ x
              → (q : Identifier) (n : ℕ) → contains meets.from q ≡ true
              → Node idom rpo_index q n
              → Above idom rpo_index w q
          over_all ne q n m u =
              sound.above w q u.parent u.has_parent
                (Dominates-pred preds entry w q x dom ne (edge q m))

      above_other :
          (w z y : Identifier)
          → at idom z ≡ some y
          → (k : ℕ) → at rpo_index z ≡ some k
          → Dominates preds entry w z
          → Above idom' rpo_index w z
      above_other w z y e k at_k dom =
          let u : Node idom rpo_index z k = record {
            parent = y;
            has_parent = e;
            has_index = at_k;
          } in
          elim (Above-split k (sound.above w z y e dom) u) [
            | inl stays ↦ stays
            | inr (new, old, (l, low, at_w)) ↦
                let way = Above-Down preds rpo_index i k tree sound.descends old u at_i in
                let dom_x = Dominates-up preds rpo_index entry w l way dom at_w (omega arith) in
                Above-trans tree_put new (above_assigned w dom_x)
          ]

      lower_path : Down preds rpo_index j d x
      lower_path =
          down x i
            (Above-Down preds rpo_index j meets.index tree sound.descends meets.above_earlier
              meets.node v.has_index)
            (edge meets.earlier meets.is_from) at_i lt

      descends' : Descends preds rpo_index idom'
      descends' z y n e at_n = elim (Bool-cases (eq_bytes x z)) [
        | inl same ↦
            let is_z : x ≡ z = (eq_bytes_iff x z).0 same in
            let at_z : some d ≡ some y = sym (at-put_same idom x d) ∙ ap (at idom') is_z ∙ e in
            let is_y : d ≡ y = cc at_z in
            let at_d : at rpo_index d ≡ some n = ap (at rpo_index) is_y ∙ at_n in
            let is_n : j ≡ n = ground (arith, v.has_index, at_d) in
            subst (λ t. Down preds rpo_index n t z) is_y
              (subst (Down preds rpo_index n d) is_z
                (subst (λ t. Down preds rpo_index t d x) is_n lower_path))
        | inr differ ↦ sound.descends z y n (sym (at-put_other idom x d z differ) ∙ e) at_n
      ]

      -- The assignment keeps the tree sound, where every block with a dominator has an index.
      pub Sound-put :
          (indexed : (z y : Identifier) → at idom z ≡ some y → (k : ℕ) × (at rpo_index z ≡ some k))
          → Sound idom'
      Sound-put indexed = record {
        above = λ w z y e dom. elim (Bool-cases (eq_bytes x z)) [
          | inl same ↦
              let is_z : x ≡ z = (eq_bytes_iff x z).0 same in
              subst (Above idom' rpo_index w) is_z
                (above_assigned w (subst (Dominates preds entry w) (sym is_z) dom))
          | inr differ ↦
              let e' = sym (at-put_other idom x d z differ) ∙ e in
              let (k, at_k) = indexed z y e' in above_other w z y e' k at_k dom
        ];
        descends = descends';
      }
