-- ===== src/Ir/Dominance/Rpo/Build.antt =====
-- The blocks that are left, and the visit of one block.
use jank.Prelude.{
  ℕ, ◌+◌, ◌≤◌, ◌<◌, false, List, [], ◌∷◌, Option, none, some, ◌≡◌, refl, sym, ◌∙◌, arith, length,
  ◌⊎◌, inl, inr, false≢true, Bool-cases, if◌then◌else◌, contains, eq_bytes, eq_bytes_iff,
}
use jank.Ir.Instruction.{Identifier}
use jank.Ir.Function.{Block, find_block, block_named}
use jank.Ir.Dominance.Rpo.{Visits, block_targets}
use jank.Ir.Dominance.Rpo.Visit.{
  In, In-cons, In-head, In-tail, successors, Reaches, here, next, Inv, Visited,
}

-- The number of blocks that were not entered.
pub unseen : List Block → List Identifier → ℕ
unseen [] seen = 0
unseen (b ∷ bs) seen = (if contains seen b.name then 0 else 1) + unseen bs seen

pub unseen_mono :
    (bs : List Block) (s t : List Identifier)
    → ((x : Identifier) → In x s → In x t)
    → unseen bs t ≤ unseen bs s
unfolding unseen
unseen_mono [] s t h = omega arith
unseen_mono (b ∷ bs) s t h = ground (arith, h b.name, unseen_mono bs s t h)

pub unseen-le-length : (bs : List Block) (s : List Identifier) → unseen bs s ≤ length bs
unfolding unseen
unseen-le-length [] s = omega arith
unseen-le-length (b ∷ bs) s = ground (arith, unseen-le-length bs s)

pub block_named-cons :
    (b : Block) (bs : List Block) (n : Identifier)
    → block_named (b ∷ bs) n ≡ (if eq_bytes b.name n then some b else block_named bs n)
unfolding block_named find_block
block_named-cons b bs n = ground arith

pub block_named-nil : (n : Identifier) → block_named [] n ≡ none
unfolding block_named find_block
block_named-nil n = refl

pub block_named-name :
    (bs : List Block) (n : Identifier) (c : Block) → block_named bs n ≡ some c → c.name ≡ n
block_named-name [] n c h = cc (block_named-nil n)
block_named-name (b ∷ bs) n c h =
    ground (arith, block_named-cons b bs n, eq_bytes_iff b.name n, block_named-name bs n c)

-- Entering one more block lowers the number.
pub unseen-cons :
    (bs : List Block) (n : Identifier) (c : Block) (s : List Identifier)
    → block_named bs n ≡ some c
    → contains s n ≡ false
    → unseen bs (n ∷ s) < unseen bs s
unfolding unseen
unseen-cons [] n c s h u = cc (block_named-nil n)
unseen-cons (b ∷ bs) n c s h u = elim (Bool-cases (eq_bytes b.name n)) [
  | inl same ↦
      let e : b.name ≡ n = (eq_bytes_iff b.name n).0 same in
      rw e (rw (In-head n s, u) (omega (arith, unseen_mono bs s (n ∷ s) (λ x i. In-tail x n s i))))
  | inr other ↦ ground (
    arith,
    block_named-cons b bs n,
    unseen-cons bs n c s,
    In-tail b.name n s,
    λ (i : In b.name (n ∷ s)). In-cons b.name n s i,
    eq_bytes_iff b.name n,
  )
]

module _ (blocks : List Block) where
  Reaches-trans :
      {a b c : Identifier} → Reaches blocks a b → Reaches blocks b c → Reaches blocks a c
  Reaches-trans p here = p
  Reaches-trans p (next x q i) = next x (Reaches-trans p q) i

  pub successors-eq :
      (n : Identifier) (b : Block)
      → block_named blocks n ≡ some b
      → successors blocks n ≡ block_targets b.instructions
  unfolding successors
  successors-eq n b e = rw (e, successors)

  -- The state in which the targets of a newly entered block are visited.
  abbrev pub enter : Identifier → Visits → Visits
  enter n s = record s { seen = n ∷ s.seen }

  pub Inv-enter : (n : Identifier) (s : Visits) → Inv blocks s → Inv blocks (enter n s)
  Inv-enter n s h = record {
    entered = λ x i. In-tail x n s.seen (h.entered x i);
    closed = λ x y i j. In-tail y n s.seen (h.closed x y i j);
    no_repeat = h.no_repeat;
  }

  -- A block that was entered before.
  pub Visited-seen :
      (n : Identifier) (s : Visits)
      → Inv blocks s
      → In n s.seen
      → Visited blocks (n ∷ []) s (some s)
  Visited-seen n s h i = record {
    after = s;
    runs = refl;
    inv = h;
    seen_grows = λ x j. j;
    rpo_grows = λ x j. j;
    finished = λ x j. inl j;
    fresh = λ x j. inl j;
    visited = only;
    reached = λ x j. inl j;
  }
    where
      only : (x : Identifier) → In x (n ∷ []) → In x s.seen
      only x j = elim (In-cons x n [] j) [
        | inl e ↦ rw e i
        | inr none_left ↦ absurd (false≢true (unfold contains in none_left))
      ]

  module _ (n : Identifier) (b : Block) (s : Visits) (named : block_named blocks n ≡ some b)
      (unentered : contains s.seen n ≡ false) (h : Inv blocks s) {r : Option Visits}
      (q : Visited blocks (block_targets b.instructions) (enter n s) r) where
    abbrev finish : Visits
    finish = record q.after { rpo = n ∷ q.after.rpo }

    n_seen : In n q.after.seen
    n_seen = q.seen_grows n (In-head n s.seen)

    entered_finish : (x : Identifier) → In x finish.rpo → In x finish.seen
    entered_finish x i = elim (In-cons x n q.after.rpo i) [
      | inl e ↦ rw e n_seen
      | inr old ↦ q.inv.entered x old
    ]

    closed_finish :
        (x y : Identifier) → In x finish.rpo → In y (successors blocks x) → In y finish.seen
    closed_finish x y i j = elim (In-cons x n q.after.rpo i) [
      | inl e ↦ q.visited y (rw (← successors-eq n b named) (rw e at j))
      | inr old ↦ q.inv.closed x y old j
    ]

    not_listed : contains q.after.rpo n ≡ false
    not_listed = elim (Bool-cases (contains q.after.rpo n)) [
      | inr o ↦ o
      | inl i ↦ elim (q.fresh n i) [
        | inl old ↦ absurd (false≢true (sym unentered ∙ h.entered n old))
        | inr new ↦ absurd (false≢true (sym new ∙ In-head n s.seen))
      ]
    ]

    finished_finish : (x : Identifier) → In x finish.seen → In x s.seen ⊎ In x finish.rpo
    finished_finish x i = elim (q.finished x i) [
      | inr done ↦ inr (In-tail x n q.after.rpo done)
      | inl old ↦ elim (In-cons x n s.seen old) [
        | inl e ↦ inr (rw e (In-head n q.after.rpo))
        | inr before ↦ inl before
      ]
    ]

    fresh_finish : (x : Identifier) → In x finish.rpo → In x s.rpo ⊎ (contains s.seen x ≡ false)
    fresh_finish x i = elim (In-cons x n q.after.rpo i) [
      | inl e ↦ inr (rw e unentered)
      | inr old ↦ elim (q.fresh x old) [ inl before ↦ inl before | inr new ↦ inr (earlier x new) ]
    ]
      where
        earlier : (x : Identifier) → contains (n ∷ s.seen) x ≡ false → contains s.seen x ≡ false
        earlier x new = elim (Bool-cases (contains s.seen x)) [
          | inl i ↦ absurd (false≢true (sym new ∙ In-tail x n s.seen i))
          | inr o ↦ o
        ]

    reached_finish :
        (x : Identifier)
        → In x finish.seen
        → In x s.seen ⊎ ((m : Identifier) × In m (n ∷ []) × Reaches blocks m x)
    reached_finish x i = elim (q.reached x i) [
      | inr (m, im, way) ↦
          inr (n, In-head n [], Reaches-trans (next n here (rw (successors-eq n b named) im)) way)
      | inl old ↦ elim (In-cons x n s.seen old) [
        | inl e ↦ inr (n, In-head n [], rw e here)
        | inr before ↦ inl before
      ]
    ]

    visited_finish : (x : Identifier) → In x (n ∷ []) → In x finish.seen
    visited_finish x i = elim (In-cons x n [] i) [
      | inl e ↦ rw e n_seen
      | inr none_left ↦ absurd (false≢true (unfold contains in none_left))
    ]

    -- The block is listed in front of what its targets added.
    pub Visited-finish : Visited blocks (n ∷ []) s (some finish)
    Visited-finish = record {
      after = finish;
      runs = refl;
      inv = record {
        entered = entered_finish;
        closed = closed_finish;
        no_repeat = (not_listed, q.inv.no_repeat);
      };
      seen_grows = λ x i. q.seen_grows x (In-tail x n s.seen i);
      rpo_grows = λ x i. In-tail x n q.after.rpo (q.rpo_grows x i);
      finished = finished_finish;
      fresh = fresh_finish;
      visited = visited_finish;
      reached = reached_finish;
    }
