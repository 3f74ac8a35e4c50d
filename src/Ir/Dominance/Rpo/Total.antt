-- ===== src/Ir/Dominance/Rpo/Total.antt =====
-- The whole traversal, with fuel for every block.
use mathlib.Core.Path.{subst}
use jank.Prelude.{
  ℕ, zero, suc, ◌<◌, true, false, List, [], ◌∷◌, Option, some, ◌≡◌, sym, arith, length, ◌↔◌, inl,
  inr, false≢true, Bool-cases, contains,
}
use jank.Ir.Instruction.{Identifier}
use jank.Ir.Function.{Block, has_terminator, block_named}
use jank.Ir.Dominance.Rpo.{Visits, visit_all, visit_block, block_targets, build_rpo}
use jank.Ir.Dominance.Rpo.Visit.{
  In, In-cons, In-head, In-tail, NoRepeat, successors, Reaches, here, next, HasBlock, Inv, Visited,
  Visited-nil, Visited-cons,
}
use jank.Ir.Dominance.Rpo.Build.{
  unseen, unseen_mono, unseen-le-length, unseen-cons, block_named-name, successors-eq, enter,
  Inv-enter, Visited-seen, Visited-finish,
}

visit_all-cons :
    (visit : Identifier → Visits → Option Visits) (n : Identifier) (names : List Identifier)
    (s a : Visits)
    → visit n s ≡ some a
    → visit_all visit (n ∷ names) s ≡ visit_all visit names a
unfolding visit_all
visit_all-cons visit n names s a e = rw e

module _ (visit : Identifier → Visits → Option Visits) (b : Block) (s : Visits) where
  visit_block-seen : In b.name s.seen → visit_block visit b s ≡ some s
  unfolding visit_block
  visit_block-seen i = rw (i, visit_block)

  visit_block-enter :
      (a : Visits)
      → contains s.seen b.name ≡ false
      → has_terminator b ≡ true
      → visit_all visit (block_targets b.instructions) (record s { seen = b.name ∷ s.seen })
        ≡ some a
      → visit_block visit b s ≡ some (record a { rpo = b.name ∷ a.rpo })
  unfolding visit_block
  visit_block-enter a u t e = rw (u, visit_block) (rw (t, visit_block) (rw e))

build_rpo-block :
    (blocks : List Block) (fuel : ℕ) (n : Identifier) (b : Block) (s : Visits)
    → block_named blocks n ≡ some b
    → build_rpo blocks (suc fuel) n s ≡ visit_block (build_rpo blocks fuel) b s
unfolding build_rpo
build_rpo-block blocks fuel n b s named = rw (named, build_rpo)

-- Every target of a block names a block.
abbrev pub Resolves : List Block → Type 0
Resolves blocks = (x y : Identifier) → In y (successors blocks x) → HasBlock blocks y

-- Every block ends with a terminator.
abbrev pub AllTerminated : List Block → Type 0
AllTerminated blocks =
    (x : Identifier) (b : Block) → block_named blocks x ≡ some b → has_terminator b ≡ true

module _ (blocks : List Block) (resolves : Resolves blocks) (ends : AllTerminated blocks) where
  -- A visit that is good enough while fewer than `k` blocks are left.
  abbrev VisitsWell : ℕ → (Identifier → Visits → Option Visits) → Type 0
  VisitsWell k visit =
      (n : Identifier) (s : Visits)
      → HasBlock blocks n
      → Inv blocks s
      → unseen blocks s.seen < k
      → Visited blocks (n ∷ []) s (visit n s)

  visit_all-Visited :
      (k : ℕ) (visit : Identifier → Visits → Option Visits)
      → VisitsWell k visit
      → (names : List Identifier) (s : Visits) → ((n : Identifier) → In n names → HasBlock blocks n)
      → Inv blocks s
      → unseen blocks s.seen < k
      → Visited blocks names s (visit_all visit names s)
  visit_all-Visited k visit well [] s has h lt = unfold visit_all in Visited-nil blocks s h
  visit_all-Visited k visit well (n ∷ names) s has h lt =
      let p = well n s (has n (In-head n names)) h lt in
      let q =
        visit_all-Visited k visit well names p.after (λ m i. has m (In-tail m n names i)) p.inv
          (omega (arith, unseen_mono blocks s.seen p.after.seen p.seen_grows)) in
      subst (Visited blocks (n ∷ names) s) (sym (visit_all-cons visit n names s p.after p.runs))
        (Visited-cons blocks n names s p q)

  visit_block-Visited :
      (fuel : ℕ) (b : Block) (s : Visits)
      → VisitsWell fuel (build_rpo blocks fuel)
      → block_named blocks b.name ≡ some b
      → Inv blocks s
      → unseen blocks s.seen < suc fuel
      → Visited blocks (b.name ∷ []) s (visit_block (build_rpo blocks fuel) b s)
  visit_block-Visited fuel b s well named h lt = elim (Bool-cases (contains s.seen b.name)) [
    | inl seen ↦
        subst (Visited blocks (b.name ∷ []) s)
          (sym (visit_block-seen (build_rpo blocks fuel) b s seen))
          (Visited-seen blocks b.name s h seen)
    | inr new ↦
        let q =
          visit_all-Visited fuel (build_rpo blocks fuel) well (block_targets b.instructions)
            (enter blocks b.name s)
            (λ y i. resolves b.name y (rw (successors-eq blocks b.name b named) i))
            (Inv-enter blocks b.name s h)
            (omega (arith, unseen-cons blocks b.name b s.seen named new)) in
        subst (Visited blocks (b.name ∷ []) s)
          (sym (
            visit_block-enter (build_rpo blocks fuel) b s q.after new (ends b.name b named) q.runs))
          (Visited-finish blocks b.name b s named new h q)
  ]

  build_rpo-Visited : (fuel : ℕ) → VisitsWell fuel (build_rpo blocks fuel)
  build_rpo-Visited zero n s has h lt = elim lt [ ]
  build_rpo-Visited (suc fuel) n s (b, named) h lt =
      let e : b.name ≡ n = block_named-name blocks n b named in
      subst (Visited blocks (n ∷ []) s) (sym (build_rpo-block blocks fuel n b s named)) (
        subst (λ m. Visited blocks (m ∷ []) s (visit_block (build_rpo blocks fuel) b s)) e
          (visit_block-Visited fuel b s (build_rpo-Visited fuel)
            (subst (λ m. block_named blocks m ≡ some b) (sym e) named) h lt))

  -- The state before the traversal.
  abbrev pub unvisited : Visits
  unvisited = record { rpo = []; seen = [] }

  Inv-unvisited : Inv blocks unvisited
  Inv-unvisited = record {
    entered = λ x i. absurd (false≢true (unfold contains in i));
    closed = λ x y i j. absurd (false≢true (unfold contains in i));
    no_repeat = tt;
  }

  pub record ReachableOnce (entry : Identifier) (r : Option Visits) : Type 0 where
    pub after : Visits
    pub runs : r ≡ some after
    pub no_repeat : NoRepeat after.rpo
    pub exact : (x : Identifier) → In x after.rpo ↔ Reaches blocks entry x

  -- Where every block ends with a terminator and its targets exist, the traversal from a block ends with fuel above the
  -- number of blocks. Its list holds exactly the blocks that are reachable, and none of them twice.
  pub build_rpo-ReachableOnce :
      (fuel : ℕ) (entry : Identifier)
      → HasBlock blocks entry
      → length blocks < fuel
      → ReachableOnce entry (build_rpo blocks fuel entry unvisited)
  build_rpo-ReachableOnce fuel entry has lt =
      let v =
        build_rpo-Visited fuel entry unvisited has Inv-unvisited
          (omega (arith, unseen-le-length blocks [])) in
      record {
        after = v.after;
        runs = v.runs;
        no_repeat = v.inv.no_repeat;
        exact = λ x. (reached v x, listed v x);
      }
    where
      done :
          {r : Option Visits} (v : Visited blocks (entry ∷ []) unvisited r) (x : Identifier)
          → In x v.after.seen
          → In x v.after.rpo
      done v x i = elim (v.finished x i) [
        | inr in_rpo ↦ in_rpo
        | inl before ↦ absurd (false≢true (unfold contains in before))
      ]

      reached :
          {r : Option Visits} (v : Visited blocks (entry ∷ []) unvisited r) (x : Identifier)
          → In x v.after.rpo
          → Reaches blocks entry x
      reached v x i = elim (v.reached x (v.inv.entered x i)) [
        | inl before ↦ absurd (false≢true (unfold contains in before))
        | inr (m, im, way) ↦ elim (In-cons m entry [] im) [
          | inl e ↦ subst (λ k. Reaches blocks k x) e way
          | inr none_left ↦ absurd (false≢true (unfold contains in none_left))
        ]
      ]

      listed :
          {r : Option Visits} (v : Visited blocks (entry ∷ []) unvisited r) (x : Identifier)
          → Reaches blocks entry x
          → In x v.after.rpo
      listed v x here = done v entry (v.visited entry (In-head entry []))
      listed v x (next y way i) = done v x (v.inv.closed y x (listed v y way) i)
