-- ===== src/Ir/Dominance/Idom/Intersect.antt =====
-- The first processed predecessor, and the intersection with the others.
use jank.Prelude.{
  ℕ, ◌+◌, ◌<◌, ◌≤◌, true, false, not, ◌||◌, List, [], ◌∷◌, none, some, ◌≡◌, ◌≢◌, refl, ap, sym, ◌∙◌,
  arith, inl, inr, false≢true, Bool-cases, Option-cases, eq_bytes, eq_bytes_iff, eq_bytes_refl,
  contains, at,
}
use mathlib.Core.Path.{subst}
use jank.Ir.Instruction.{Identifier}
use jank.Ir.Dominance.{DominanceMap, RpoIndexMap, lcd}
use jank.Ir.Dominance.Lcd.{Node, Above, here, lcd-IsLcd, Above-index, Above-trans}
use jank.Ir.Dominance.Idom.{is_processed, first_processed, intersect_all}
use jank.Ir.Dominance.Idom.Assign.{IsSweepable}

first_processed-skip :
    (idom : DominanceMap) (p : Identifier) (ps : List Identifier)
    → at idom p ≡ none
    → first_processed idom (p ∷ ps) ≡ first_processed idom ps
unfolding first_processed is_processed
first_processed-skip idom p ps h = ground (arith, h)

first_processed-hit :
    (idom : DominanceMap) (p z : Identifier) (ps : List Identifier)
    → at idom p ≡ some z
    → first_processed idom (p ∷ ps) ≡ p
unfolding first_processed is_processed
first_processed-hit idom p z ps h = ground (arith, h)

-- A list of predecessors of which one has a dominator begins its search at a name that has one.
pub first_processed-some :
    (idom : DominanceMap) (ps : List Identifier) (q y : Identifier)
    → ((x d : Identifier) → at idom x ≡ some d → x ≢ [])
    → contains ps q ≡ true
    → at idom q ≡ some y
    → (c : ℕ) × (cs : Identifier) × (z : Identifier) × (first_processed idom ps ≡ c ∷ cs)
      × (at idom (c ∷ cs) ≡ some z)
      × (contains ps (c ∷ cs) ≡ true)
unfolding contains
first_processed-some idom [] q y named m e = absurd (false≢true m)
first_processed-some idom (p ∷ ps) q y named m e = elim (Option-cases (at idom p)) [
  | inl missing ↦
      let differ : eq_bytes q p ≡ false = ground (arith, missing, e, eq_bytes_iff q p, missing_q) in
      let (c, cs, z, start, found, is_in) =
        first_processed-some idom ps q y named (ground (arith, m, differ)) e in
      (c, cs, z, first_processed-skip idom p ps missing ∙ start, found, ground (arith, is_in))
  | inr (z, found) ↦
      let (c, cs, z', same, found') = begins p z found in
      (
        c,
        cs,
        z',
        first_processed-hit idom p z ps found ∙ same,
        found',
        ground (arith, same, eq_bytes_refl p),
      )
]
  where
    missing_q : q ≡ p → at idom p ≡ some y
    missing_q same = ap (at idom) (sym same) ∙ e

    begins :
        (x z : Identifier)
        → at idom x ≡ some z
        → (c : ℕ) × (cs : Identifier) × (z' : Identifier) × (x ≡ c ∷ cs)
          × (at idom (c ∷ cs) ≡ some z')
    begins [] z found = absurd (named [] z found refl)
    begins (c ∷ cs) z found = (c, cs, z, refl, found)

module _ (fuel : ℕ) (rpo_index : RpoIndexMap) (idom : DominanceMap) where
  intersect_all-skip :
      (p : Identifier) (ps : List Identifier) (new : Identifier)
      → (eq_bytes p new || not (is_processed idom p)) ≡ true
      → intersect_all fuel rpo_index idom (p ∷ ps) new ≡ intersect_all fuel rpo_index idom ps new
  unfolding intersect_all
  intersect_all-skip p ps new h = rw (h, intersect_all)

  intersect_all-lcd :
      (p : Identifier) (ps : List Identifier) (new c : Identifier)
      → (eq_bytes p new || not (is_processed idom p)) ≡ false
      → lcd idom rpo_index fuel p new ≡ some c
      → intersect_all fuel rpo_index idom (p ∷ ps) new ≡ intersect_all fuel rpo_index idom ps c
  unfolding intersect_all
  intersect_all-lcd p ps new c h e = rw (h, intersect_all) (rw (e, intersect_all))

  -- What the intersection returns: the lowest block that stands above the start and above each
  -- processed predecessor.
  pub record Intersected (ps : List Identifier) (new : Identifier) : Type 0 where
    pub result : Identifier
    pub runs : intersect_all fuel rpo_index idom ps new ≡ some result
    pub above_start : Above idom rpo_index result new
    pub common :
        (q : Identifier) (n : ℕ)
        → contains ps q ≡ true
        → Node idom rpo_index q n
        → Above idom rpo_index result q
    pub lowest :
        (w : Identifier)
        → Above idom rpo_index w new
        → ((q : Identifier) (n : ℕ)
            → contains ps q ≡ true
            → Node idom rpo_index q n
            → Above idom rpo_index w q)
        → Above idom rpo_index w result

  module _ (bound : ℕ) (s : IsSweepable idom rpo_index bound) (enough : bound + bound ≤ fuel) where
    -- A predecessor that is skipped is the start, or has no dominator.
    skipped_above :
        (p new d : Identifier)
        → Above idom rpo_index d new
        → (eq_bytes p new || not (is_processed idom p)) ≡ true
        → (n : ℕ) → Node idom rpo_index p n
        → Above idom rpo_index d p
    unfolding is_processed
    skipped_above p new d a h n w =
        let same : eq_bytes p new ≡ true = ground (arith, w.has_parent, h) in
        subst (Above idom rpo_index d) (sym ((eq_bytes_iff p new).0 same)) a

    pub intersect_all-Intersected :
        (ps : List Identifier) (new : Identifier) (k : ℕ)
        → Node idom rpo_index new k
        → k < bound
        → Intersected ps new
    unfolding contains is_processed
    intersect_all-Intersected [] new k v lt = record {
      result = new;
      runs = unfold intersect_all in refl;
      above_start = here;
      common = λ q n m w. absurd (false≢true m);
      lowest = λ w a h. a;
    }
    intersect_all-Intersected (p ∷ ps) new k v lt =
        elim (Bool-cases (eq_bytes p new || not (is_processed idom p))) [
          | inl skip ↦
              let r = intersect_all-Intersected ps new k v lt in
              record {
                result = r.result;
                runs = intersect_all-skip p ps new skip ∙ r.runs;
                above_start = r.above_start;
                common = λ q n m w. elim (Bool-cases (eq_bytes q p)) [
                  | inl same ↦
                      let e : q ≡ p = (eq_bytes_iff q p).0 same in
                      subst (Above idom rpo_index r.result) (sym e) (
                        skipped_above p new r.result r.above_start skip n
                          (subst (λ x. Node idom rpo_index x n) e w))
                  | inr differ ↦ r.common q n (later q m differ) w
                ];
                lowest = λ w a h. r.lowest w a (λ q n m u. h q n (tail_in q m) u);
              }
          | inr meet ↦
              let (y, e) = processed p meet in
              let (m, small, w) = s.known p y e in
              let (c, run, l) = lcd-IsLcd s.tree fuel p new m k w v (omega (arith, enough)) in
              let (i, le, u) = Above-index s.tree k l.above_right v in
              let r = intersect_all-Intersected ps c i u (omega arith) in
              record {
                result = r.result;
                runs = intersect_all-lcd p ps new c meet run ∙ r.runs;
                above_start = Above-trans s.tree l.above_right r.above_start;
                common = λ q n h x. elim (Bool-cases (eq_bytes q p)) [
                  | inl same ↦
                      subst (Above idom rpo_index r.result) (sym ((eq_bytes_iff q p).0 same))
                        (Above-trans s.tree l.above_left r.above_start)
                  | inr differ ↦ r.common q n (later q h differ) x
                ];
                lowest = λ d a h.
                    r.lowest d (l.lowest d (h p m head_in w) a) (λ q n i u. h q n (tail_in q i) u);
              }
        ]
      where
        head_in : contains (p ∷ ps) p ≡ true
        head_in = ground (arith, eq_bytes_refl p)

        tail_in : (q : Identifier) → contains ps q ≡ true → contains (p ∷ ps) q ≡ true
        tail_in q m = ground (arith, m)

        later :
            (q : Identifier)
            → contains (p ∷ ps) q ≡ true
            → eq_bytes q p ≡ false
            → contains ps q ≡ true
        later q m differ = ground (arith, m, differ)

        unprocessed :
            (x : Identifier)
            → (eq_bytes x new || not (is_processed idom x)) ≡ false
            → at idom x ≡ none
            → ⊥
        unprocessed x h missing = ground (arith, h, missing)

        processed :
            (x : Identifier)
            → (eq_bytes x new || not (is_processed idom x)) ≡ false
            → (y : Identifier) × (at idom x ≡ some y)
        processed x h = elim (Option-cases (at idom x)) [
          | inl missing ↦ absurd (unprocessed x h missing)
          | inr found ↦ found
        ]
