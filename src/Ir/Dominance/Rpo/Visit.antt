-- ===== src/Ir/Dominance/Rpo/Visit.antt =====
-- What a visit establishes, for one block and for a list of blocks.
use jank.Prelude.{
  true, false, List, [], ◌∷◌, Option, none, some, ◌≡◌, refl, sym, ◌∙◌, arith, ◌⊎◌, inl, inr,
  false≢true, Bool-cases, contains, eq_bytes_iff, eq_bytes_refl,
}
use jank.Ir.Instruction.{Identifier}
use jank.Ir.Function.{Block, block_named}
use jank.Ir.Dominance.Rpo.{Visits, block_targets}

abbrev pub In : Identifier → List Identifier → Type 0
In x xs = contains xs x ≡ true

pub In-cons : (x y : Identifier) (ys : List Identifier) → In x (y ∷ ys) → (x ≡ y) ⊎ In x ys
unfolding contains
In-cons x y ys h = ground (arith, eq_bytes_iff x y)

pub In-head : (x : Identifier) (xs : List Identifier) → In x (x ∷ xs)
unfolding contains
In-head x xs = ground (arith, eq_bytes_refl x)

pub In-tail : (x y : Identifier) (ys : List Identifier) → In x ys → In x (y ∷ ys)
unfolding contains
In-tail x y ys h = ground arith

-- No name stands twice.
abbrev pub NoRepeat : List Identifier → Type 0
NoRepeat [] = Unit
NoRepeat (x ∷ xs) = (contains xs x ≡ false) × NoRepeat xs

-- The targets of the block with the name.
unfoldable pub successors : List Block → Identifier → List Identifier
successors blocks name = elim (block_named blocks name) [
  | none ↦ []
  | some b ↦ block_targets b.instructions
]

module _ (blocks : List Block) where
  -- A path of the graph.
  pub data Reaches (from : Identifier) : Identifier → Type 0 where
    here : Reaches from from
    next :
        {y : Identifier} (x : Identifier)
        → Reaches from x
        → In y (successors blocks x)
        → Reaches from y

  abbrev pub HasBlock : Identifier → Type 0
  HasBlock name = (b : Block) × (block_named blocks name ≡ some b)

  -- The finished blocks were entered, and so were their targets.
  pub record Inv (s : Visits) : Type 0 where
    pub entered : (x : Identifier) → In x s.rpo → In x s.seen
    pub closed : (x y : Identifier) → In x s.rpo → In y (successors blocks x) → In y s.seen
    pub no_repeat : NoRepeat s.rpo

  -- The result of visiting the names from the state `s`.
  pub record Visited (names : List Identifier) (s : Visits) (r : Option Visits) : Type 0 where
    pub after : Visits
    pub runs : r ≡ some after
    pub inv : Inv after
    pub seen_grows : (x : Identifier) → In x s.seen → In x after.seen
    pub rpo_grows : (x : Identifier) → In x s.rpo → In x after.rpo
    pub finished : (x : Identifier) → In x after.seen → In x s.seen ⊎ In x after.rpo
    pub fresh : (x : Identifier) → In x after.rpo → In x s.rpo ⊎ (contains s.seen x ≡ false)
    pub visited : (x : Identifier) → In x names → In x after.seen
    pub reached :
        (x : Identifier)
        → In x after.seen
        → In x s.seen ⊎ ((n : Identifier) × In n names × Reaches n x)

  pub Visited-nil : (s : Visits) → Inv s → Visited [] s (some s)
  Visited-nil s h = record {
    after = s;
    runs = refl;
    inv = h;
    seen_grows = λ x i. i;
    rpo_grows = λ x i. i;
    finished = λ x i. inl i;
    fresh = λ x i. inl i;
    visited = λ x i. absurd (false≢true (unfold contains in i));
    reached = λ x i. inl i;
  }

  module _ (n : Identifier) (names : List Identifier) (s : Visits) {r r' : Option Visits}
      (p : Visited (n ∷ []) s r) (q : Visited names p.after r') where
    finished_cons : (x : Identifier) → In x q.after.seen → In x s.seen ⊎ In x q.after.rpo
    finished_cons x i = elim (q.finished x i) [
      | inr done ↦ inr done
      | inl old ↦ elim (p.finished x old) [
        | inl before ↦ inl before
        | inr done ↦ inr (q.rpo_grows x done)
      ]
    ]

    unseen_before : (x : Identifier) → contains p.after.seen x ≡ false → contains s.seen x ≡ false
    unseen_before x h = elim (Bool-cases (contains s.seen x)) [
      | inl i ↦ absurd (false≢true (sym h ∙ p.seen_grows x i))
      | inr o ↦ o
    ]

    fresh_cons : (x : Identifier) → In x q.after.rpo → In x s.rpo ⊎ (contains s.seen x ≡ false)
    fresh_cons x i = elim (q.fresh x i) [
      | inl old ↦ p.fresh x old
      | inr unseen ↦ inr (unseen_before x unseen)
    ]

    visited_cons : (x : Identifier) → In x (n ∷ names) → In x q.after.seen
    visited_cons x i = elim (In-cons x n names i) [
      | inl e ↦ q.seen_grows x (p.visited x (rw e (In-head n [])))
      | inr later ↦ q.visited x later
    ]

    reached_cons :
        (x : Identifier)
        → In x q.after.seen
        → In x s.seen ⊎ ((m : Identifier) × In m (n ∷ names) × Reaches m x)
    reached_cons x i = elim (q.reached x i) [
      | inr (m, im, way) ↦ inr (m, In-tail m n names im, way)
      | inl old ↦ elim (p.reached x old) [
        | inl before ↦ inl before
        | inr (m, im, way) ↦ inr (m, weaken m im, way)
      ]
    ]
      where
        weaken : (m : Identifier) → In m (n ∷ []) → In m (n ∷ names)
        weaken m im = elim (In-cons m n [] im) [
          | inl e ↦ rw e (In-head n names)
          | inr none_left ↦ absurd (false≢true (unfold contains in none_left))
        ]

    pub Visited-cons : Visited (n ∷ names) s r'
    Visited-cons = record {
      after = q.after;
      runs = q.runs;
      inv = q.inv;
      seen_grows = λ x i. q.seen_grows x (p.seen_grows x i);
      rpo_grows = λ x i. q.rpo_grows x (p.rpo_grows x i);
      finished = finished_cons;
      fresh = fresh_cons;
      visited = visited_cons;
      reached = reached_cons;
    }
