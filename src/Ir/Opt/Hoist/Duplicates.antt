-- ===== src/Ir/Opt/Hoist/Duplicates.antt =====
-- Replacing the duplicates of one value, in the loop of the hoisting passes.
use jank.Prelude.{
  ℕ, ◌+◌, true, List, [], ◌∷◌, some, ◌>>=◌, ◌≡◌, ◌≢◌, refl, sym, ◌∙◌, arith, inl, inr, false≢true,
  Bool-cases, All, eq_bytes, eq_bytes_iff, eq_bytes_ne,
}
use jank.Runtime.UniqueString.{fresh_name}
use jank.Ir.Instruction.{Identifier, Handle, Instruction, nop}
use jank.Ir.Function.{Block}
use jank.Ir.Rewrite.{rewrite_uses}
use jank.Ir.Rewrite.Removes.{Unused, Unused-rewrite_uses, Unused-rewrite_uses_stays}
use jank.Ir.Opt.Hoist.{Pass, Occurrence, replace_with_nop, replace_duplicates}
use jank.Ir.Opt.Hoist.Present.{
  is_present, nop_at, nop_at-eq-nop_in, nop_in_total, is_present-nop_in, is_present-rewrite_uses,
  Unused-nop_in,
}

-- The occurrences have different names.
abbrev pub Distinct : List Occurrence → Type 0
Distinct [] = Unit
Distinct (o ∷ os) = All (λ (p : Occurrence). p.1 ≢ o.1) os × Distinct os

abbrev pub Present : List Block → Occurrence → Type 0
Present bs o = is_present o.0 o.1 bs ≡ true

module _ (void_type unknown : Handle) where
  abbrev nop_named : ℕ → Instruction
  nop_named n = record { name = fresh_name n; type = void_type; location = unknown; op = nop }

  replace_with_nop-nop_at :
      (block name : Identifier) (s : Pass)
      → replace_with_nop void_type unknown block name s ≡ (
          nop_at block name (nop_named (s.symbol_counter + 1)) s.blocks >>= λ bs.
          some (record { blocks = bs; symbol_counter = s.symbol_counter + 1 }))
  unfolding replace_with_nop nop_at
  replace_with_nop-nop_at block name s = ground arith

  -- One duplicate: rewritten to the canonical name, and replaced.
  record Dropped (canonical block name : Identifier) (s : Pass) : Type 0 where
    after : Pass
    runs :
        replace_with_nop void_type unknown block name
          (record s { blocks = rewrite_uses name canonical s.blocks })
        ≡ some after
    unused : name ≢ canonical → Unused name after.blocks
    stays : (c : Identifier) → c ≢ canonical → Unused c s.blocks → Unused c after.blocks
    present : (o : Occurrence) → o.1 ≢ name → Present s.blocks o → Present after.blocks o

  drop_duplicate :
      (canonical block name : Identifier) (s : Pass)
      → Present s.blocks (block, name)
      → Dropped canonical block name s
  drop_duplicate canonical block name s h =
      let s' : Pass = record s { blocks = rewrite_uses name canonical s.blocks } in
      let new = nop_named (s.symbol_counter + 1) in
      let (bs, e) = nop_in_total block name new s'.blocks (rw is_present-rewrite_uses h) in
      record {
        after = record { blocks = bs; symbol_counter = s.symbol_counter + 1 };
        runs = replace_with_nop-nop_at block name s' ∙ rw (nop_at-eq-nop_in, e);
        unused = λ ne.
            Unused-nop_in name new refl block name s'.blocks bs e
              (Unused-rewrite_uses name canonical ne s.blocks);
        stays = λ c ne u.
            Unused-nop_in c new refl block name s'.blocks bs e
              (Unused-rewrite_uses_stays name canonical c ne s.blocks u);
        present = λ o ne p.
            is_present-nop_in name o.1 new ne block o.0 s'.blocks bs e
              (rw is_present-rewrite_uses p);
      }

  -- The outcome of replacing duplicates, which the theorem below shows to exist.
  pub record Replaced (canonical : Identifier) (os : List Occurrence) (s : Pass) : Type 0 where
    pub after : Pass
    pub runs : replace_duplicates void_type unknown canonical os s ≡ some after
    pub unused : All (λ (o : Occurrence). o.1 ≢ canonical → Unused o.1 after.blocks) os
    pub stays : (c : Identifier) → c ≢ canonical → Unused c s.blocks → Unused c after.blocks
    pub canonical_stays :
        (block : Identifier)
        → is_present block canonical s.blocks ≡ true
        → is_present block canonical after.blocks ≡ true

  keep-Present :
      (canonical block name : Identifier) (s : Pass) (d : Dropped canonical block name s)
      (os : List Occurrence)
      → All (λ (p : Occurrence). p.1 ≢ name) os
      → All (Present s.blocks) os
      → All (Present d.after.blocks) os
  keep-Present canonical block name s d [] ne h = tt
  keep-Present canonical block name s d (o ∷ os) ne h =
      (d.present o ne.0 h.0, keep-Present canonical block name s d os ne.1 h.1)

  replace_duplicates_skip :
      (canonical block name : Identifier) (os : List Occurrence) (s : Pass)
      → name ≡ canonical
      → replace_duplicates void_type unknown canonical ((block, name) ∷ os) s
        ≡ replace_duplicates void_type unknown canonical os s
  unfolding replace_duplicates
  replace_duplicates_skip canonical block name os s e = ground (arith, eq_bytes_iff name canonical)

  replace_duplicates_drop :
      (canonical block name : Identifier) (os : List Occurrence) (s : Pass)
      (d : Dropped canonical block name s)
      → name ≢ canonical
      → replace_duplicates void_type unknown canonical ((block, name) ∷ os) s
        ≡ replace_duplicates void_type unknown canonical os d.after
  unfolding replace_duplicates
  replace_duplicates_drop canonical block name os s d ne =
      rw (eq_bytes_ne name canonical ne, replace_duplicates) (rw (d.runs, replace_duplicates))

  -- Where every occurrence stands in its block and their names differ, the loop finds them all;
  -- afterwards `uses_name` finds no use of a dropped one, and the canonical instruction still stands
  -- in the blocks where it did.
  pub replace_duplicates-Replaced :
      (canonical : Identifier) (os : List Occurrence) (s : Pass)
      → All (Present s.blocks) os
      → Distinct os
      → Replaced canonical os s
  replace_duplicates-Replaced canonical [] s h d = record {
    after = s;
    runs = unfold replace_duplicates in refl;
    unused = tt;
    stays = λ c ne u. u;
    canonical_stays = λ block q. q;
  }
  replace_duplicates-Replaced canonical ((block, name) ∷ os) s h d =
      elim (Bool-cases (eq_bytes name canonical)) [
        | inl same ↦
            let e : name ≡ canonical = (eq_bytes_iff name canonical).0 same in
            let r = replace_duplicates-Replaced canonical os s h.1 d.1 in
            record {
              after = r.after;
              runs = replace_duplicates_skip canonical block name os s e ∙ r.runs;
              unused = (λ ne. absurd (ne e), r.unused);
              stays = r.stays;
              canonical_stays = r.canonical_stays;
            }
        | inr differ ↦
            let ne : name ≢ canonical =
              λ e. false≢true (sym differ ∙ (eq_bytes_iff name canonical).1 e) in
            let dropped = drop_duplicate canonical block name s h.0 in
            let r =
              replace_duplicates-Replaced canonical os dropped.after
                (keep-Present canonical block name s dropped os d.0 h.1) d.1 in
            record {
              after = r.after;
              runs = replace_duplicates_drop canonical block name os s dropped ne ∙ r.runs;
              unused = (λ _. r.stays name ne (dropped.unused ne), r.unused);
              stays = λ c cne u. r.stays c cne (dropped.stays c cne u);
              canonical_stays = λ block' q.
                  r.canonical_stays block'
                    (dropped.present (block', canonical) (λ e. ne (sym e)) q);
            }
      ]
