-- ===== src/Ir/Dominance/Idom/Sweep.antt =====
-- A sweep of `build_idom`, at one block: compiler+runtime/src/cpp/jank/ir/dominance.cpp.
use jank.Prelude.{
  ℕ, ◌+◌, ◌<◌, ◌≤◌, Bool, true, false, false≢true, List, [], ◌∷◌, Option, none, some, ◌≡◌, ◌≢◌,
  refl, ap, sym, ◌∙◌, arith, inl, inr, Bool-cases, Option-cases, if◌then◌else◌, eq_bytes,
  eq_bytes_iff, contains, at, put,
}
use mathlib.Core.Path.{subst}
use jank.Ir.Instruction.{Identifier}
use jank.Ir.Dominance.{DominanceMap, RpoIndexMap}
use jank.Ir.Dominance.Idom.{Predecessors, first_processed, intersect_all, is_idom, sweep_block}
use jank.Ir.Dominance.Idom.Assign.{IsSweepable, IsSweepable-put, at-put_same, at-put_other}
use jank.Ir.Dominance.Idom.Intersect.{first_processed-some, intersect_all-Intersected}
use jank.Ir.Dominance.Idom.Paths.{Edge}
use jank.Ir.Dominance.Idom.Sound.{Sound, Meets, Sound-put}
use jank.Ir.Dominance.Lcd.{Node, Above, Above-index}

-- Every block with an index below `i` has a dominator.
abbrev pub ProcessedBelow : RpoIndexMap → DominanceMap → ℕ → Type 0
ProcessedBelow rpo_index idom i =
    (q : Identifier) (j : ℕ)
    → at rpo_index q ≡ some j
    → j < i
    → (y : Identifier) × (at idom q ≡ some y)

module _ (rpo_index : RpoIndexMap) (preds : Predecessors) where
  -- The block stands at the index `i`, behind one of its predecessors.
  pub record HasEarlier (i : ℕ) (x : Identifier) : Type 0 where
    pub named : x ≢ []
    pub has_index : at rpo_index x ≡ some i
    pub from : List Identifier
    pub has_from : at preds x ≡ some from
    pub earlier : Identifier
    pub is_from : contains from earlier ≡ true
    pub index : ℕ
    pub has_earlier_index : at rpo_index earlier ≡ some index
    pub before : index < i

  -- The blocks stand at the indices from `i` on, each behind one of its predecessors.
  abbrev pub Ordered : ℕ → List Identifier → Type 0
  Ordered i [] = Unit
  Ordered i (x ∷ xs) = HasEarlier i x × Ordered (i + 1) xs

  -- The dominator of the block stands above each predecessor that has one.
  pub record Settled (idom : DominanceMap) (x : Identifier) : Type 0 where
    pub dominator : Identifier
    pub has_dominator : at idom x ≡ some dominator
    pub over :
        (q : Identifier) (n : ℕ)
        → Edge preds q x
        → Node idom rpo_index q n
        → Above idom rpo_index dominator q

  module _ (entry : Identifier) (fuel bound : ℕ) (enough : bound + bound ≤ fuel) where
    sweep_block-lem :
        (x : Identifier) (idom : DominanceMap) (changed : Bool) (from : List Identifier) (c : ℕ)
        (cs d : Identifier)
        → at preds x ≡ some from
        → first_processed idom from ≡ c ∷ cs
        → intersect_all fuel rpo_index idom from (c ∷ cs) ≡ some d
        → sweep_block fuel rpo_index preds x (idom, changed)
          ≡ some (if is_idom fuel rpo_index idom x d then (idom, changed) else (put idom x d, true))
    unfolding sweep_block
    sweep_block-lem x idom changed from c cs d e start meet = ground (arith, e, start, meet)

    -- What a sweep of the blocks `xs`, from the map `idom` on, leaves; `i` is the index behind them.
    pub record Swept (i : ℕ) (xs : List Identifier) (idom : DominanceMap) (changed : Bool)
        (r : Option (DominanceMap × Bool)) : Type 0 where
      pub after : DominanceMap
      pub changed' : Bool
      pub runs : r ≡ some (after, changed')
      pub sweepable : IsSweepable after rpo_index bound
      pub processed : ProcessedBelow rpo_index after i
      pub sound : Sound rpo_index preds entry after
      pub keeps : changed ≡ true → changed' ≡ true
      pub unchanged : changed' ≡ false → after ≡ idom
      pub settled : changed' ≡ false → (x : Identifier) → contains xs x ≡ true → Settled after x

    lower_index :
        (x q : Identifier) (idom : DominanceMap) (i j : ℕ)
        → IsSweepable idom rpo_index bound
        → at rpo_index x ≡ some i
        → at rpo_index q ≡ some j
        → j < i + 1
        → eq_bytes x q ≡ false
        → j < i
    lower_index x q idom i j s at_i at_j lt other =
        ground (arith, lt, other, eq_bytes_iff x q, same_index)
      where
        same_index : j ≡ i → x ≡ q
        same_index e = s.tree.unique x q i at_i (at_j ∙ ap some e)

    -- The block is processed with the others below it.
    processed_next :
        (x : Identifier) (idom idom' : DominanceMap) (d : Identifier) (i : ℕ)
        → IsSweepable idom rpo_index bound
        → ProcessedBelow rpo_index idom i
        → at rpo_index x ≡ some i
        → at idom' x ≡ some d
        → ((q : Identifier) → eq_bytes x q ≡ false → at idom' q ≡ at idom q)
        → ProcessedBelow rpo_index idom' (i + 1)
    processed_next x idom idom' d i s p at_i found others q j e lt =
        elim (Bool-cases (eq_bytes x q)) [
          | inl same ↦ (d, ap (at idom') (sym ((eq_bytes_iff x q).0 same)) ∙ found)
          | inr other ↦
              let (y, found') = p q j e (lower_index x q idom i j s at_i e lt other) in
              (y, others q other ∙ found')
        ]

    is_idom-some :
        (x : Identifier) (idom : DominanceMap) (d : Identifier)
        → is_idom fuel rpo_index idom x d ≡ true
        → at idom x ≡ some d
    unfolding is_idom
    is_idom-some x idom d same = elim (Option-cases (at idom x)) [
      | inl missing ↦ absurd (unset missing)
      | inr (d', found) ↦ found ∙ ap some (equal d' found)
    ]
      where
        unset : at idom x ≡ none → ⊥
        unset missing = ground (arith, missing, same)

        equal : (d' : Identifier) → at idom x ≡ some d' → d' ≡ d
        equal d' found = ground (arith, found, same, eq_bytes_iff d' d)

    block-Settled :
        (x d : Identifier) (idom : DominanceMap) (from : List Identifier)
        → at preds x ≡ some from
        → at idom x ≡ some d
        → ((q : Identifier) (n : ℕ)
            → contains from q ≡ true
            → Node idom rpo_index q n
            → Above idom rpo_index d q)
        → Settled idom x
    block-Settled x d idom from has found common = record {
      dominator = d;
      has_dominator = found;
      over = λ q n edge v.
          let same : edge.from ≡ from = ground (arith, edge.has_from, has) in
          common q n (subst (λ ps. contains ps q ≡ true) same edge.is_from) v;
    }

    only_block :
        (x z : Identifier) (idom : DominanceMap)
        → Settled idom x
        → contains (x ∷ []) z ≡ true
        → Settled idom z
    unfolding contains
    only_block x z idom h m =
        let same : x ≡ z = ground (arith, m, eq_bytes_iff z x, eq_bytes_iff x z) in
        subst (Settled idom) same h

    pub sweep_block-Swept :
        (x : Identifier) (idom : DominanceMap) (changed : Bool) (i : ℕ)
        → IsSweepable idom rpo_index bound
        → Sound rpo_index preds entry idom
        → ProcessedBelow rpo_index idom i
        → HasEarlier i x
        → i < bound
        → Swept (i + 1) (x ∷ []) idom changed (sweep_block fuel rpo_index preds x (idom, changed))
    sweep_block-Swept x idom changed i s sound p h lt =
        let (y, e) = p h.earlier h.index h.has_earlier_index h.before in
        let (c, cs, z, start, found, is_in) =
          first_processed-some idom h.from h.earlier y s.named h.is_from e in
        let (k, small, v) = s.known (c ∷ cs) z found in
        let r =
          intersect_all-Intersected fuel rpo_index idom bound s enough h.from (c ∷ cs) k v small in
        let d = r.result in
        let (n, small', w) = s.known h.earlier y e in
        let at_index : n ≡ h.index = ground (arith, w.has_index, h.has_earlier_index) in
        let over = r.common h.earlier n h.is_from w in
        let (j, le, u) = Above-index s.tree n over w in
        let low : j < i = omega (arith, le, h.before, at_index) in
        let run = sweep_block-lem x idom changed h.from c cs d h.has_from start r.runs in
        let meets : Meets rpo_index preds entry idom x d i j s.tree sound h.has_index u low =
          record {
            from = h.from;
            has_from = h.has_from;
            lowest = λ a above. r.lowest a (above (c ∷ cs) k is_in v) above;
            earlier = h.earlier;
            index = n;
            is_from = h.is_from;
            node = w;
            above_earlier = over;
          } in
        elim (Bool-cases (is_idom fuel rpo_index idom x d)) [
          | inl same ↦
              let found' = is_idom-some x idom d same in
              record {
                after = idom;
                changed' = changed;
                runs = run ∙ rw same;
                sweepable = s;
                processed = processed_next x idom idom d i s p h.has_index found' (λ q _. refl);
                sound = sound;
                keeps = λ t. t;
                unchanged = λ _. refl;
                settled = λ _ q m.
                    only_block x q idom (block-Settled x d idom h.from h.has_from found' r.common)
                      m;
              }
          | inr new ↦ record {
            after = put idom x d;
            changed' = true;
            runs = run ∙ rw new;
            sweepable = IsSweepable-put idom x d rpo_index bound i j s h.has_index lt h.named u low;
            processed =
                processed_next x idom (put idom x d) d i s p h.has_index (at-put_same idom x d)
                  (at-put_other idom x d);
            sound =
                Sound-put rpo_index preds entry idom x d i j s.tree sound h.has_index u low meets
                  (λ q t f. let (m, _, node) = s.known q t f in (m, node.has_index));
            keeps = λ _. refl;
            unchanged = λ f. absurd (false≢true (sym f));
            settled = λ f. absurd (false≢true (sym f));
          }
        ]
