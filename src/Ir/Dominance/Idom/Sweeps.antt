-- ===== src/Ir/Dominance/Idom/Sweeps.antt =====
-- A sweep of `build_idom` over all blocks: compiler+runtime/src/cpp/jank/ir/dominance.cpp.
use jank.Prelude.{
  ℕ, ◌+◌, ◌≤◌, Bool, true, false, false≢true, List, [], ◌∷◌, ◌≡◌, refl, sym, ◌∙◌, arith, inl, inr,
  Bool-cases, length, eq_bytes, contains,
}
use mathlib.Core.Path.{subst}
use jank.Ir.Instruction.{Identifier}
use jank.Ir.Dominance.{DominanceMap, RpoIndexMap}
use jank.Ir.Dominance.Idom.{Predecessors, sweep}
use jank.Ir.Dominance.Idom.Assign.{IsSweepable}
use jank.Ir.Dominance.Idom.Sound.{Sound}
use jank.Ir.Dominance.Idom.Sweep.{ProcessedBelow, Ordered, Settled, Swept, sweep_block-Swept}

module _ (rpo_index : RpoIndexMap) (preds : Predecessors) (entry : Identifier) (fuel bound : ℕ)
    (enough : bound + bound ≤ fuel) where
  both :
      (x : Identifier) (xs : List Identifier) (idom after : DominanceMap)
      → after ≡ idom
      → ((z : Identifier) → contains (x ∷ []) z ≡ true → Settled rpo_index preds idom z)
      → ((z : Identifier) → contains xs z ≡ true → Settled rpo_index preds after z)
      → (z : Identifier) → contains (x ∷ xs) z ≡ true
      → Settled rpo_index preds after z
  unfolding contains
  both x xs idom after same first later z m = elim (Bool-cases (eq_bytes z x)) [
    | inl is_x ↦
        subst (λ t. Settled rpo_index preds t z) (sym same) (first z (ground (arith, is_x)))
    | inr differ ↦ later z (ground (arith, m, differ))
  ]

  -- A sweep of blocks that stand at the indices from `i` on, each behind one of its predecessors.
  pub sweep-Swept :
      (xs : List Identifier) (i : ℕ) (idom : DominanceMap) (changed : Bool)
      → IsSweepable idom rpo_index bound
      → Sound rpo_index preds entry idom
      → ProcessedBelow rpo_index idom i
      → Ordered rpo_index preds i xs
      → i + length xs ≤ bound
      → Swept rpo_index preds entry fuel bound enough
          (i + length xs)
          xs
          idom
          changed
          (sweep fuel rpo_index preds xs (idom, changed))
  unfolding sweep contains
  sweep-Swept [] i idom changed s sound p h le = record {
    after = idom;
    changed' = changed;
    runs = refl;
    sweepable = s;
    processed = λ q j e lt. p q j e (omega (arith, lt));
    sound = sound;
    keeps = λ t. t;
    unchanged = λ _. refl;
    settled = λ _ z m. absurd (false≢true m);
  }
  sweep-Swept (x ∷ xs) i idom changed s sound p h le =
      let b =
        sweep_block-Swept rpo_index preds entry fuel bound enough x idom changed i s sound p h.0
          (omega arith) in
      let r =
        sweep-Swept xs (i + 1) b.after b.changed' b.sweepable b.sound b.processed h.1
          (omega arith) in
      let block_unchanged : r.changed' ≡ false → b.changed' ≡ false =
        λ f. ground (arith, f, r.keeps) in
      record {
        after = r.after;
        changed' = r.changed';
        runs = rw (b.runs, sweep) r.runs;
        sweepable = r.sweepable;
        processed = λ q j e lt. r.processed q j e (omega (arith, lt));
        sound = r.sound;
        keeps = λ t. r.keeps (b.keeps t);
        unchanged = λ f. r.unchanged f ∙ b.unchanged (block_unchanged f);
        settled = λ f.
            both x xs b.after r.after (r.unchanged f) (b.settled (block_unchanged f)) (r.settled f);
      }
