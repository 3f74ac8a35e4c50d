-- ===== src/Ir/Processor/Tail/Parts.antt =====
-- The parts of expressions in tail position, and the end of the current block:
-- compiler+runtime/src/cpp/jank/ir/processor.cpp and builder.cpp.
use mathlib.Core.Path.{subst}
use mathlib.Core.Option.{some-injective}
use jank.Prelude.{
  ltb, length, ℕ, zero, suc, ◌-◌, ◌≤◌, ◌<◌, ◌≡◌, refl, ap, ◌∙◌, Bool, true, false, List, [], ◌∷◌,
  Option, none, some, Bytes, inl, inr, arith, get_elem?, if◌then◌else◌, leb, ◌==◌, Bool-cases,
}
use jank.Analyze.Expr.{tail_, Node, LoopKind, normal, loop_with_recur, loop_without_recur}
use jank.Ir.Instruction.{Identifier, Handle}
use jank.Ir.Function.{Block, has_terminator, erase_block, remove_block, decrement_indices}
use jank.Ir.Builder.{Builder, M, pure, ◌>>◌, modify, current_block, discard_block}
use jank.Ir.Builder.Emit.{Host}
use jank.Ir.Builder.Values
use jank.Ir.Builder.Ensures.{
  Ensures, Any, bind-Any, bind-Ensures, then-Any, then-Ensures, pure-Ensures, modify-Ensures,
  weaken,
}
use jank.Ir.Builder.Terminated.{
  Terminated, return_tail-Terminated, emit_at-Terminated, cpp_scope_close-Terminated,
}
use jank.Ir.Processor.{yields, is_terminated, finish_merge, restore_locals}
use jank.Ir.Processor.Loops.{LoopBlocks, close_loop, close_tail_loop}
use jank.Ir.Processor.Steps.{finish_do}
use jank.Ir.Processor.Branches.{Gen, let_body, gen_let, gen_letfn, next_do}
use jank.Ir.Processor.Tail.{Ended}

pub Terminated-Ended : (t : Bool) (r : Option Identifier) {b : Builder} → Terminated b → Ended t r b
unfolding Ended
Terminated-Ended true r h = inl h
Terminated-Ended false r h = h

-- What keeps the current block terminated keeps the end.
pub keeps-Ended :
    {A : Type 0} (t : Bool) (r : Option Identifier) (m : M A)
    → Ensures Terminated m (λ _ b. Terminated b)
    → Ensures (Ended t r) m (λ _ b. Ended t r b)
unfolding Ended
keeps-Ended false r m h = h
keeps-Ended true r m h = record {
  at_return = λ b p a b' e. elim p [ inl t ↦ inl (h.at_return b t a b' e) | inr u ↦ inr u ];
}

pub yields-Ended :
    {P : Builder → Type 0} (t : Bool) (m : M Identifier)
    → Ensures P m (λ _ b. Terminated b)
    → Ensures P (yields m) (Ended t)
unfolding yields
yields-Ended t m h =
    bind-Ensures (λ _ b. Terminated b) h
      λ name. pure-Ensures (some name) λ b done. Terminated-Ended t (some name) done

pub branch_by :
    {A : Type 0} {P : Builder → Type 0} {m n : M A} {Q : A → Builder → Type 0} (t : Bool)
    → Ensures P m Q
    → Ensures P n Q
    → Ensures P (elim t as (λ _. M A) [ true ↦ m | false ↦ n ]) Q
branch_by true hm hn = hm
branch_by false hm hn = hn

-- A terminated block has ended, whatever the result.
pub Ended-or :
    (terminated t : Bool) (name : Option Identifier) {rest : Gen}
    → Ensures (λ b. Any b × (terminated ≡ true → Terminated b)) rest (Ended t)
    → Ensures
        (λ b. Any b × (terminated ≡ true → Terminated b))
        (elim terminated as (λ _. Gen) [ true ↦ pure name | false ↦ rest ])
        (Ended t)
Ended-or true t name h = pure-Ensures name λ b p. Terminated-Ended t name (p.1 refl)
Ended-or false t name h = h

Terminated-at :
    (P : Builder → Type 0) (b : Builder) (o : Option Block)
    → current_block b ≡ o
    → P b
    → (t : Bool) (b' : Builder)
    → elim o as (λ _. Option (Bool × Builder)) [
      | none ↦ none
      | some blk ↦ some (has_terminator blk, b)
    ]
      ≡ some (t, b')
    → P b' × (t ≡ true → Terminated b')
Terminated-at P b none current p t b' e = cc
Terminated-at P b (some blk) current p t b' e =
    subst (λ u. P u.1 × (u.0 ≡ true → Terminated u.1)) (some-injective _ _ e)
      (p, λ ends. record { block = blk; is_current = current; terminates = ends })

pub is_terminated-Ensures :
    (P : Builder → Type 0) → Ensures P is_terminated (λ t b. P b × (t ≡ true → Terminated b))
unfolding is_terminated
is_terminated-Ensures P = record {
  at_return = λ b p t b' e. Terminated-at P b (current_block b) refl p t b' e;
}

pub finish_merge-Ended :
    (host : Host) (t : Bool) (loc : Identifier) {P : Builder → Type 0}
    → Ensures P (finish_merge host tail_ loc) (Ended t)
unfolding finish_merge
finish_merge-Ended host t loc = yields-Ended t _ (return_tail-Terminated loc _)

abbrev renumbered : Block → Block
renumbered b = record b { index = b.index - 1 }

get-decrement_indices :
    (bs : List Block) (i : ℕ) (b : Block)
    → get_elem? bs i ≡ some b
    → get_elem? (decrement_indices bs) i ≡ some (renumbered b)
unfolding decrement_indices
get-decrement_indices [] i b h = cc
get-decrement_indices (c ∷ bs) zero b h = ap (λ d. some (renumbered d)) (some-injective _ _ h)
get-decrement_indices (c ∷ bs) (suc i) b h = get-decrement_indices bs i b h

get-remove_before :
    (bs : List Block) (k i : ℕ) → i < k → get_elem? (erase_block bs k) i ≡ get_elem? bs i
unfolding erase_block
get-remove_before [] k i h = refl
get-remove_before (c ∷ bs) zero i h = elim h [ ]
get-remove_before (c ∷ bs) (suc k) zero h = refl
get-remove_before (c ∷ bs) (suc k) (suc i) h = get-remove_before bs k i (omega (arith, h))

get-remove_behind :
    (bs : List Block) (k i : ℕ) (b : Block)
    → k ≤ i
    → get_elem? bs (suc i) ≡ some b
    → get_elem? (erase_block bs k) i ≡ some (renumbered b)
unfolding erase_block
get-remove_behind [] k i b h e = cc
get-remove_behind (c ∷ bs) zero i b h e = get-decrement_indices bs i b e
get-remove_behind (c ∷ bs) (suc k) zero b h e = elim h [ ]
get-remove_behind (c ∷ bs) (suc k) (suc i) b h e = get-remove_behind bs k i b (omega (arith, h)) e

abbrev discarded : ℕ → Builder → Builder
discarded k b = record b {
  blocks = erase_block b.blocks k;
  block_index = if leb k b.block_index then b.block_index - 1 else b.block_index;
}

-- A block other than the removed one is found again, with its instructions.
get-remove_block :
    (bs : List Block) (k i : ℕ) (b : Block)
    → get_elem? bs i ≡ some b
    → (i == k) ≡ false
    → (b' : Block) × (get_elem? (erase_block bs k) (if leb k i then i - 1 else i) ≡ some b')
      × (b'.instructions ≡ b.instructions)
get-remove_block bs k zero b e differ =
    let before : zero < k = ground arith in
    let index : (if leb k zero then zero - 1 else zero) ≡ zero = ground arith in
    (b, rw index (get-remove_before bs k zero before ∙ e), refl)
get-remove_block bs k (suc i) b e differ = elim (Bool-cases (leb k (suc i))) [
  | inl behind ↦
      (let index : suc i - 1 ≡ i = omega arith in
        (renumbered b, rw (behind, index) (get-remove_behind bs k i b (ground arith) e), refl))
  | inr before ↦ (b, rw before (get-remove_before bs k (suc i) (ground arith) ∙ e), refl)
]

discarded-Terminated :
    (k : ℕ) (b : Builder) → (b.block_index == k) ≡ false → Terminated b → Terminated (discarded k b)
unfolding current_block has_terminator
discarded-Terminated k b differ t =
    let (blk, found, same) =
      get-remove_block b.blocks k b.block_index t.block t.is_current differ in
    record { block = blk; is_current = found; terminates = rw same t.terminates }

discard-erased :
    (k : ℕ) (b : Builder)
    → (b.block_index == k) ≡ false
    → Terminated b
    → (in_range : Bool) (r : Unit {0}) (b' : Builder)
    → elim (if in_range then some (erase_block b.blocks k) else none)
        as (λ _. Option (Unit {0} × Builder)) [
          | none ↦ none
          | some blocks' ↦ some (tt, record (discarded k b) { blocks = blocks' })
        ]
      ≡ some (r, b')
    → Terminated b'
discard-erased k b differ t false r b' e = cc
discard-erased k b differ t true r b' e =
    subst (λ u. Terminated u.1) (some-injective _ _ e) (discarded-Terminated k b differ t)

discard-at :
    (k : ℕ) (b : Builder) (same : Bool)
    → (b.block_index == k) ≡ same
    → Terminated b
    → (r : Unit {0}) (b' : Builder)
    → if◌then◌else◌ {A = Option (Unit {0} × Builder)} same none
        (elim (remove_block b.blocks k) as (λ _. Option (Unit {0} × Builder)) [
          | none ↦ none
          | some blocks' ↦ some (tt, record (discarded k b) { blocks = blocks' })
        ])
      ≡ some (r, b')
    → Terminated b'
unfolding remove_block
discard-at k b true at_k t r b' e = cc
discard-at k b false differ t r b' e = discard-erased k b differ t (ltb k (length b.blocks)) r b' e

discard_block-Terminated : (k : ℕ) → Ensures Terminated (discard_block k) (λ _ b. Terminated b)
unfolding discard_block
discard_block-Terminated k = record {
  at_return = λ b t r b' e. discard-at k b (b.block_index == k) refl t r b' e;
}

module _ (host : Host) where
  -- The code behind the body of a loop.
  close_tail_loop-Terminated :
      (l : LoopBlocks) (scope : Identifier)
      → Ensures Terminated (close_tail_loop host l scope) (λ _ b. Terminated b)
  unfolding close_tail_loop current_block
  close_tail_loop-Terminated l scope =
      then-Ensures Terminated (discard_block-Terminated l.merge_blk) (
        bind-Ensures (λ _ b. Terminated b) (cpp_scope_close-Terminated host scope)
          λ name.
            modify-Ensures _ λ b t. record {
              block = t.block;
              is_current = t.is_current;
              terminates = t.terminates;
            })

  let_body-Ended :
      (kind : LoopKind) (type : Handle) (pairs : List (Bytes × Node)) (scope : Identifier)
      (t : Bool) (body : Gen)
      → Ensures Any body (Ended t)
      → (kind ≡ loop_with_recur → t ≡ false)
      → Ensures Any (let_body host kind tail_ type pairs scope body) (Ended t)
  unfolding let_body close_loop Ended
  let_body-Ended normal type pairs scope t body h no_local = bind-Ensures (Ended t) h λ ret.
      bind-Ensures (λ _ b. Ended t ret b)
        (keeps-Ended t ret _ (cpp_scope_close-Terminated host scope))
        λ name. pure-Ensures ret λ b ended. ended
  let_body-Ended loop_without_recur type pairs scope t body h no_local =
      bind-Ensures (Ended t) h λ ret.
        bind-Ensures (λ _ b. Ended t ret b)
          (keeps-Ended t ret _ (cpp_scope_close-Terminated host scope))
          λ name. pure-Ensures ret λ b ended. ended
  let_body-Ended loop_with_recur type pairs scope true body h no_local = cc (no_local refl)
  let_body-Ended loop_with_recur type pairs scope false body h no_local = bind-Any _ _ λ blocks.
      bind-Ensures (Ended false) h λ ret.
        then-Ensures Terminated (close_tail_loop-Terminated blocks scope)
          (pure-Ensures (some blocks.loop_local) λ b ended. ended)

  -- Restored locals do not matter.
  restored-Ended :
      (f : Builder → Builder) (t : Bool) (r : Option Identifier)
      → ((b : Builder) → Terminated b → Terminated (f b))
      → Ensures (Ended t r) (modify f >> pure r) (Ended t)
  restored-Ended f t r keeps =
      then-Ensures (λ b. Ended t r b) (keeps-Ended t r _ (modify-Ensures f keeps))
        (pure-Ensures r λ b ended. ended)

  pub gen_let-Ended :
      (kind : LoopKind) (type : Handle) (pairs : List (Bytes × Node)) (bindings : M (Unit {0}))
      (t : Bool) (body : Gen)
      → Ensures Any body (Ended t)
      → (kind ≡ loop_with_recur → t ≡ false)
      → Ensures Any (gen_let host kind tail_ type pairs bindings body) (Ended t)
  unfolding gen_let restore_locals current_block
  gen_let-Ended kind type pairs bindings t body h no_local = bind-Any _ _ λ old_locals.
      bind-Any _ _ λ scope. then-Any bindings _ (
        bind-Ensures (Ended t) (let_body-Ended kind type pairs scope t body h no_local) λ res.
          restored-Ended _ t res
            λ b u. record { block = u.block; is_current = u.is_current; terminates = u.terminates })

  pub gen_letfn-Ended :
      (names : List Bytes) (functions : M (Unit {0})) (t : Bool) (body : Gen)
      → Ensures Any body (Ended t)
      → Ensures Any (gen_letfn host names functions body) (Ended t)
  unfolding gen_letfn current_block
  gen_letfn-Ended names functions t body h = bind-Any _ _ λ old_allowed_defers.
      bind-Any _ _ λ old_locals. then-Any _ _ (
        bind-Any _ _ λ name. then-Any functions _ (
          bind-Ensures (Ended t) h λ res. restored-Ended _ t res λ b u. record {
            block = u.block;
            is_current = u.is_current;
            terminates = u.terminates;
          }))

  pub finish_do-Ended :
      (t : Bool) (name : Option Identifier)
      → Ensures (Ended t name) (finish_do host tail_ name) (Ended t)
  unfolding finish_do Values.literal
  finish_do-Ended t (some name) = pure-Ensures (some name) λ b ended. ended
  finish_do-Ended t none = bind-Ensures _ (is_terminated-Ensures (Ended t none)) λ terminated.
      branch_by terminated (pure-Ensures none λ b ended. ended.0)
        (yields-Ended t _ (bind-Any _ _ λ lifted. emit_at-Terminated _ _ _))

  -- A `do` without expressions.
  pub finish_empty_do-Ended : (t : Bool) → Ensures Any (finish_do host tail_ none) (Ended t)
  unfolding finish_do Values.literal
  finish_empty_do-Ended t = bind-Ensures _ (is_terminated-Ensures Any) λ terminated.
      Ended-or terminated t none
        (yields-Ended t _ (bind-Any _ _ λ lifted. emit_at-Terminated _ _ _))

  -- The last round of the loop of a `do`.
  pub last_do-Ended :
      (t : Bool) (e : Gen) (rest : Option Identifier → Gen)
      → Ensures Any e (Ended t)
      → ((name : Option Identifier) → Ensures (Ended t name) (rest name) (Ended t))
      → Ensures Any (next_do host e rest) (Ended t)
  unfolding next_do
  last_do-Ended t e rest h hrest = bind-Ensures (Ended t) h λ name.
      bind-Ensures _ (is_terminated-Ensures (Ended t name)) λ terminated.
        branch_by terminated (pure-Ensures name λ b ended. ended.0)
          (weaken (λ b ended. ended.0) (λ r b ended. ended) (hrest name))

  -- A round that is not the last.
  pub next_do-Ended :
      (t : Bool) (e : Gen) (rest : Option Identifier → Gen)
      → ((name : Option Identifier) → Ensures Any (rest name) (Ended t))
      → Ensures Any (next_do host e rest) (Ended t)
  unfolding next_do
  next_do-Ended t e rest h = bind-Any e _ λ name.
      bind-Ensures _ (is_terminated-Ensures Any)
        λ terminated. Ended-or terminated t name (weaken (λ b p. p.0) (λ r b ended. ended) (h name))
