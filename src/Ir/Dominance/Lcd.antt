-- ===== src/Ir/Dominance/Lcd.antt =====
-- Dominator trees, and `lcd` of two blocks.
pub mod Blocks
use mathlib.Core.Path.{subst}
use native.Mathlib.Decide.{dec_lt}
use jank.Prelude.{
  ℕ, zero, suc, ◌+◌, ◌≤◌, ◌<◌, Bool, true, false, List, [], ◌∷◌, Option, none, some, ◌≡◌, ◌≢◌, refl,
  sym, ◌∙◌, arith, inl, inr, Bool-cases, ltb, eq_bytes, eq_bytes_iff, at,
}
use jank.Ir.Instruction.{Identifier}
use jank.Ir.Dominance.{DominanceMap, RpoIndexMap, climb, lcd, lcd_from, lcd_all}

module _ (idom : DominanceMap) (rpo_index : RpoIndexMap) where
  -- A block that has an immediate dominator, and its index in reverse post order.
  pub record Node (x : Identifier) (n : ℕ) : Type 0 where
    pub parent : Identifier
    pub has_parent : at idom x ≡ some parent
    pub has_index : at rpo_index x ≡ some n

  -- `a` is on the chain of immediate dominators that starts at `x`.
  pub data Above (a : Identifier) : Identifier → Type 0 where
    here : Above a a
    up : {x : Identifier} (y : Identifier) → at idom x ≡ some y → Above a y → Above a x

  -- What `build_idom` leaves: the entry is its own dominator, each other block has a dominator that
  -- stands before it in reverse post order, and the indices tell the blocks apart.
  pub record IsDominatorTree : Type 0 where
    pub root : (x y : Identifier) → at rpo_index x ≡ some 0 → at idom x ≡ some y → x ≡ y
    pub climbs :
        (x y : Identifier) (n : ℕ)
        → at idom x ≡ some y
        → at rpo_index x ≡ some n
        → 0 < n
        → (m : ℕ) × (m < n) × Node y m
    pub unique :
        (x y : Identifier) (n : ℕ) → at rpo_index x ≡ some n → at rpo_index y ≡ some n → x ≡ y

module _ (idom : DominanceMap) (rpo_index : RpoIndexMap) where
  climb_step :
      (fuel : ℕ) (a b p : Identifier) (n m : ℕ)
      → at rpo_index a ≡ some n
      → at rpo_index b ≡ some m
      → m < n
      → at idom a ≡ some p
      → climb idom rpo_index (suc fuel) a b ≡ climb idom rpo_index fuel p b
  unfolding climb
  climb_step fuel a b p n m e f lt g = ground arith

  climb_stop :
      (fuel : ℕ) (a b : Identifier) (n m : ℕ)
      → at rpo_index a ≡ some n
      → at rpo_index b ≡ some m
      → ¬ (m < n)
      → climb idom rpo_index (suc fuel) a b ≡ some a
  unfolding climb
  climb_stop fuel a b n m e f ge = ground arith

  lcd_same : (fuel : ℕ) (a b : Identifier) → a ≡ b → lcd idom rpo_index (suc fuel) a b ≡ some a
  unfolding lcd
  lcd_same fuel a b e = ground (arith, eq_bytes_iff a b)

  lcd_step :
      (fuel : ℕ) (a b a' b' : Identifier)
      → a ≢ b
      → climb idom rpo_index (suc fuel) a b ≡ some a'
      → climb idom rpo_index (suc fuel) b a' ≡ some b'
      → lcd idom rpo_index (suc fuel) a b ≡ lcd idom rpo_index fuel a' b'
  unfolding lcd
  lcd_step fuel a b a' b' ne e f = ground (arith, eq_bytes_iff a b)

  pub Node-unique :
      {x : Identifier} (n m : ℕ) → Node idom rpo_index x n → Node idom rpo_index x m → n ≡ m
  Node-unique n m p q = ground (arith, p.has_index, q.has_index)

module _ {idom : DominanceMap} {rpo_index : RpoIndexMap}
    (tree : IsDominatorTree idom rpo_index) where
  pub Above-index :
      {d x : Identifier} (n : ℕ)
      → Above idom rpo_index d x
      → Node idom rpo_index x n
      → (j : ℕ) × (j ≤ n) × Node idom rpo_index d j
  Above-index n here v = (n, omega arith, v)
  Above-index zero (up {x} y e r) v =
      Above-index zero r (subst (λ z. Node idom rpo_index z 0) (tree.root x y v.has_index e) v)
  Above-index (suc n) (up {x} y e r) v =
      let (m, lt, w) = tree.climbs x y (suc n) e v.has_index (omega arith) in
      let (j, le, u) = Above-index m r w in (j, omega arith, u)

  -- What a climb from `a`, of index `n`, to at most the index `m` reaches.
  record Climbed (a : Identifier) (n m : ℕ) (c : Identifier) : Type 0 where
    index : ℕ
    node : Node idom rpo_index c index
    low : index ≤ m
    below : index ≤ n
    moved : m < n → index < n
    above : Above idom rpo_index c a
    lowest :
        (d : Identifier) (j : ℕ)
        → Node idom rpo_index d j
        → j ≤ m
        → Above idom rpo_index d a
        → Above idom rpo_index d c

  -- A common dominator that stands high enough is not lost by one step up.
  Above-parent :
      {a p d : Identifier} (n j : ℕ)
      → Node idom rpo_index a n
      → at idom a ≡ some p
      → Node idom rpo_index d j
      → j < n
      → Above idom rpo_index d a
      → Above idom rpo_index d p
  Above-parent n j v e w lt here = absurd (omega (arith, Node-unique idom rpo_index n j v w))
  Above-parent {p} {d} n j v e w lt (up y f r) =
      let same : y ≡ p = ground (arith, e, f) in subst (Above idom rpo_index d) same r

  climb_lem :
      (fuel : ℕ) (a b : Identifier) (n m : ℕ)
      → Node idom rpo_index a n
      → at rpo_index b ≡ some m
      → n < fuel
      → (c : Identifier) × (climb idom rpo_index fuel a b ≡ some c) × Climbed a n m c
  climb_lem zero a b n m v e lt = elim lt [ ]
  climb_lem (suc fuel) a b n m v e lt = elim (dec_lt m n) [
    | yes more ↦
        let (k, less, w) = tree.climbs a v.parent n v.has_parent v.has_index (omega arith) in
        let (c, run, r) = climb_lem fuel v.parent b k m w e (omega arith) in
        (
          c,
          climb_step idom rpo_index fuel a b v.parent n m v.has_index e more v.has_parent ∙ run,
          record {
            index = r.index;
            node = r.node;
            low = r.low;
            below = omega (arith, r.below);
            moved = λ _. omega (arith, r.below);
            above = up v.parent v.has_parent r.above;
            lowest =
                λ d j u le x. r.lowest d j u le (Above-parent n j v v.has_parent u (omega arith) x);
          },
        )
    | no done ↦ (
      a,
      climb_stop idom rpo_index fuel a b n m v.has_index e done,
      record {
        index = n;
        node = v;
        low = omega arith;
        below = omega arith;
        moved = λ h. absurd (done h);
        above = here;
        lowest = λ d j u le x. x;
      },
    )
  ]

  -- `c` dominates both blocks, and everything that dominates both dominates it.
  pub record IsLcd (a b c : Identifier) : Type 0 where
    pub index : ℕ
    pub node : Node idom rpo_index c index
    pub above_left : Above idom rpo_index c a
    pub above_right : Above idom rpo_index c b
    pub lowest :
        (d : Identifier)
        → Above idom rpo_index d a
        → Above idom rpo_index d b
        → Above idom rpo_index d c

  pub Above-trans :
      {c x d : Identifier}
      → Above idom rpo_index c x
      → Above idom rpo_index d c
      → Above idom rpo_index d x
  Above-trans here q = q
  Above-trans (up y e r) q = up y e (Above-trans r q)

  -- What dominates both blocks dominates what the two climbs reach, and so the result.
  lowest_step :
      {a b a' b' c : Identifier} {n m : ℕ} (p : Climbed a n m a') (q : Climbed b m p.index b')
      → IsLcd a' b' c
      → (d : Identifier) → Above idom rpo_index d a
      → Above idom rpo_index d b
      → Node idom rpo_index b m
      → Above idom rpo_index d c
  lowest_step {m} p q r d x y w =
      let (j, le, u) = Above-index m y w in
      let x' = p.lowest d j u le x in
      let (k, le', u') = Above-index p.index x' p.node in r.lowest d x' (q.lowest d k u' le' y)

  -- Where the dominators form a tree, for two blocks with dominators and with fuel above the sum of
  -- their indices, `lcd` returns their lowest common dominator.
  pub lcd-IsLcd :
      (fuel : ℕ) (a b : Identifier) (n m : ℕ)
      → Node idom rpo_index a n
      → Node idom rpo_index b m
      → n + m < fuel
      → (c : Identifier) × (lcd idom rpo_index fuel a b ≡ some c) × IsLcd a b c
  lcd-IsLcd zero a b n m v w lt = elim lt [ ]
  lcd-IsLcd (suc fuel) a b n m v w lt = elim (Bool-cases (eq_bytes a b)) [
    | inl same ↦
        let e : a ≡ b = (eq_bytes_iff a b).0 same in
        (
          a,
          lcd_same idom rpo_index fuel a b e,
          record {
            index = n;
            node = v;
            above_left = here;
            above_right = subst (Above idom rpo_index a) e here;
            lowest = λ d x y. x;
          },
        )
    | inr differ ↦
        let apart : n ≢ m = λ e. cc (
          differ,
          (eq_bytes_iff a b).1
              (tree.unique a b m (subst (λ k. at rpo_index a ≡ some k) e v.has_index) w.has_index),
        ) in
        let (a', run, p) = climb_lem (suc fuel) a b n m v w.has_index (omega arith) in
        let (b', run', q) = climb_lem (suc fuel) b a' m p.index w p.node.has_index (omega arith) in
        let (c, found, r) =
          lcd-IsLcd fuel a' b' p.index q.index p.node q.node
            (omega (arith, apart, p.below, p.low, p.moved, q.below, q.low, q.moved)) in
        (
          c,
          lcd_step idom rpo_index fuel a b a' b' (ground (arith, eq_bytes_iff a b)) run run'
              ∙ found,
          record {
            index = r.index;
            node = r.node;
            above_left = Above-trans p.above r.above_left;
            above_right = Above-trans q.above r.above_right;
            lowest = λ d x y. lowest_step p q r d x y w;
          },
        )
  ]
