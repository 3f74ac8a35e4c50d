-- ===== src/Ir/Dominance/Lcd/Blocks.antt =====
-- `lcd` of a vector of blocks.
use jank.Prelude.{ℕ, ◌+◌, ◌≤◌, ◌<◌, List, [], ◌∷◌, some, ◌≡◌, ◌∙◌, refl, arith, All}
use jank.Ir.Instruction.{Identifier}
use jank.Ir.Dominance.{DominanceMap, RpoIndexMap, lcd, lcd_from, lcd_all}
use jank.Ir.Dominance.Lcd.{Node, Above, IsDominatorTree, lcd-IsLcd, Above-index, Above-trans, here}

module _ (idom : DominanceMap) (rpo_index : RpoIndexMap) where
  -- A block with a dominator and with an index below `k`.
  abbrev pub NodeBelow : ℕ → Identifier → Type 0
  NodeBelow k x = (n : ℕ) × (n < k) × Node idom rpo_index x n

  -- `c` dominates all blocks, and everything that dominates all of them dominates it.
  pub record IsLcdAll (bs : List Identifier) (c : Identifier) : Type 0 where
    pub above : All (Above idom rpo_index c) bs
    pub lowest : (d : Identifier) → All (Above idom rpo_index d) bs → Above idom rpo_index d c

module _ {idom : DominanceMap} {rpo_index : RpoIndexMap}
    (tree : IsDominatorTree idom rpo_index) where
  Above-All :
      {c r : Identifier} (bs : List Identifier)
      → Above idom rpo_index c r
      → All (Above idom rpo_index r) bs
      → All (Above idom rpo_index c) bs
  Above-All [] a h = tt
  Above-All (b ∷ bs) a h = (Above-trans tree h.0 a, Above-All bs a h.1)

  lcd_from-step :
      (fuel : ℕ) (r b r' : Identifier) (bs : List Identifier)
      → lcd idom rpo_index fuel r b ≡ some r'
      → lcd_from idom rpo_index fuel r (b ∷ bs) ≡ lcd_from idom rpo_index fuel r' bs
  unfolding lcd_from
  lcd_from-step fuel r b r' bs e = rw e

  lcd_from-IsLcdAll :
      (k fuel : ℕ) (r : Identifier) (bs : List Identifier)
      → NodeBelow idom rpo_index k r
      → All (NodeBelow idom rpo_index k) bs
      → k + k ≤ fuel
      → (c : Identifier) × (lcd_from idom rpo_index fuel r bs ≡ some c)
        × IsLcdAll idom rpo_index (r ∷ bs) c
  lcd_from-IsLcdAll k fuel r [] v vs le =
      (r, unfold lcd_from in refl, record { above = (here, tt); lowest = λ d h. h.0 })
  lcd_from-IsLcdAll k fuel r (b ∷ bs) (n, lt, v) ((m, lt', w), vs) le =
      let (r', run, p) = lcd-IsLcd tree fuel r b n m v w (omega arith) in
      let (i, i_le, u) = Above-index tree n p.above_left v in
      let (c, found, q) = lcd_from-IsLcdAll k fuel r' bs (i, omega arith, u) vs le in
      (
        c,
        lcd_from-step fuel r b r' bs run ∙ found,
        record {
          above = (
            Above-trans tree p.above_left q.above.0,
            (Above-trans tree p.above_right q.above.0, q.above.1),
          );
          lowest = λ d h. q.lowest d (p.lowest d h.0 h.1.0, h.1.1);
        },
      )

  -- Where the dominators form a tree, for blocks with dominators, whose indices are below a bound,
  -- and with fuel of twice the bound, `lcd` returns the lowest block that dominates them all.
  pub lcd_all-IsLcdAll :
      (k fuel : ℕ) (b : Identifier) (bs : List Identifier)
      → All (NodeBelow idom rpo_index k) (b ∷ bs)
      → k + k ≤ fuel
      → (c : Identifier) × (lcd_all idom rpo_index fuel (b ∷ bs) ≡ some c)
        × IsLcdAll idom rpo_index (b ∷ bs) c
  unfolding lcd_all
  lcd_all-IsLcdAll k fuel b bs h le = lcd_from-IsLcdAll k fuel b bs h.0 h.1 le
