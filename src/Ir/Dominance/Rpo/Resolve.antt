-- ===== src/Ir/Dominance/Rpo/Resolve.antt =====
-- Checks that every block ends with a terminator, and that every target of a block names a block.
use jank.Prelude.{
  Bool, true, false, ◌||◌, List, [], ◌∷◌, Option, none, some, ◌≡◌, refl, arith, inl, inr,
  Bool-cases, false≢true, contains, all, all-contains, eq_bytes, if◌then◌else◌,
}
use jank.Ir.Instruction.{Identifier}
use jank.Ir.Function.{Block, has_terminator, block_named}
use jank.Ir.Dominance.Rpo.{block_targets}
use jank.Ir.Dominance.Rpo.Visit.{In, successors, HasBlock}
use jank.Ir.Dominance.Rpo.Build.{block_named-nil, block_named-cons}
use jank.Ir.Dominance.Rpo.Total.{Resolves, AllTerminated}

unfoldable pub is_named : List Block → Identifier → Bool
is_named [] name = false
is_named (b ∷ bs) name = eq_bytes b.name name || is_named bs name

unfoldable pub targets_named : List Block → List Block → Bool
unfolding is_named block_targets all
targets_named blocks [] = true
targets_named blocks (b ∷ bs) =
    if all (is_named blocks) (block_targets b.instructions) then targets_named blocks bs else false

is_named-HasBlock :
    (bs : List Block) (name : Identifier) → is_named bs name ≡ true → HasBlock bs name
unfolding is_named
is_named-HasBlock [] name h = absurd (false≢true h)
is_named-HasBlock (b ∷ bs) name h = elim (Bool-cases (eq_bytes b.name name)) [
  | inl same ↦ (b, rw block_named-cons (rw same))
  | inr other ↦
      let (c, e) = is_named-HasBlock bs name (rw other at h) in
      (c, rw block_named-cons (rw (other, e)))
]

target_named :
    (blocks bs : List Block) (x y : Identifier) (b : Block)
    → targets_named blocks bs ≡ true
    → block_named bs x ≡ some b
    → In y (block_targets b.instructions)
    → is_named blocks y ≡ true
unfolding targets_named
target_named blocks [] x y b h e i = cc (block_named-nil x)
target_named blocks (c ∷ bs) x y b h e i = elim (Bool-cases (eq_bytes c.name x)) [
  | inl same ↦
      let found : c ≡ b = ground (arith, block_named-cons c bs x) in
      all-contains (is_named blocks) (block_targets b.instructions) y (rw (← found) (ground arith))
        i
  | inr other ↦
      target_named blocks bs x y b (ground arith) (ground (arith, block_named-cons c bs x)) i
]

successor_named :
    (blocks : List Block) (x y : Identifier) (o : Option Block)
    → block_named blocks x ≡ o
    → targets_named blocks blocks ≡ true
    → In y (successors blocks x)
    → is_named blocks y ≡ true
unfolding successors contains
successor_named blocks x y none e h i = absurd (false≢true (rw (e, successors) at i))
successor_named blocks x y (some b) e h i =
    target_named blocks blocks x y b h e (rw (e, successors) at i)

pub targets_named-Resolves :
    (blocks : List Block) → targets_named blocks blocks ≡ true → Resolves blocks
targets_named-Resolves blocks h x y i =
    is_named-HasBlock blocks y (successor_named blocks x y (block_named blocks x) refl h i)

pub all_terminated-AllTerminated :
    (bs : List Block) → all has_terminator bs ≡ true → AllTerminated bs
unfolding all
all_terminated-AllTerminated [] h x b e = cc (block_named-nil x)
all_terminated-AllTerminated (c ∷ bs) h x b e = elim (Bool-cases (eq_bytes c.name x)) [
  | inl same ↦
      let found : c ≡ b = ground (arith, block_named-cons c bs x) in
      rw (← found) (ground (arith, h))
  | inr other ↦
      all_terminated-AllTerminated bs (ground (arith, h)) x b
        (ground (arith, block_named-cons c bs x))
]
