-- ===== src/Ir/Builder/Terminated.antt =====
-- When the builder's current block has a terminator: the `has_terminator` of
-- compiler+runtime/src/cpp/jank/ir/processor.cpp and the operations of
-- compiler+runtime/src/cpp/jank/ir/builder.cpp.
use mathlib.Core.Path.{subst}
use mathlib.Core.Option.{some-injective}
use mathlib.Core.List.{reverse-append}
use jank.Prelude.{
  codes, Bytes, zero, suc, if◌then◌else◌, ◌≡◌, refl, ap, sym, ◌∙◌, ℕ, Bool, true, false, List, [],
  ◌∷◌, ◌++◌, Option, none, some, get_elem?, set,
}
use jank.Ir.Instruction.{Instruction, Identifier, Handle, Op, is_terminator, is_scope_close}
use jank.Ir.Function.{Block, has_terminator, terminator_from_end}
use jank.Ir.Builder.{Builder, next_value, next_ident, emplace_back, current_block}
use jank.Ir.Builder.Emit.{emit, ret, return_tail, emit_at}
use jank.Analyze.Expr.{tail_}
use jank.Ir.Builder.Emit.{Host}
use jank.Ir.Builder.Control.{jump_to, cpp_scope_close}
use jank.Ir.Builder.Fresh.{next_ident-fresh}
use jank.Ir.Builder.Ensures.{
  Ensures, bind-Any, bind-Ensures, then-Ensures, pure-Ensures, gets-Ensures,
}

-- The current block exists, and has a terminator.
pub record Terminated (b : Builder) : Type 0 where
  pub block : Block
  pub is_current : current_block b ≡ some block
  pub terminates : has_terminator block ≡ true

pub get-set_same :
    (bs : List Block) (k : ℕ) (old new : Block)
    → get_elem? bs k ≡ some old
    → get_elem? (set bs k new) k ≡ some new
get-set_same [] k old new h = cc
get-set_same (b ∷ bs) zero old new h = refl
get-set_same (b ∷ bs) (suc k) old new h = get-set_same bs k old new h

abbrev appended : Block → Instruction → Block
appended blk i = record blk { instructions = blk.instructions ++ (i ∷ []) }

has_terminator-appended :
    (blk : Block) (i : Instruction)
    → has_terminator (appended blk i)
      ≡ (if is_scope_close i.op then has_terminator blk else is_terminator i.op)
unfolding has_terminator terminator_from_end
has_terminator-appended blk i = rw (reverse-append blk.instructions (i ∷ []))

-- The builder with `i` appended to its current block.
abbrev emplaced : Builder → Block → Instruction → Builder
emplaced b blk i = record b { blocks = set b.blocks b.block_index (appended blk i) }

at_block :
    (b : Builder) (i : Instruction) (Q : Builder → Type 0) (o : Option Block)
    → ((blk : Block) → o ≡ some blk → Q (emplaced b blk i))
    → (r : Unit {0}) (b' : Builder)
    → elim o as (λ _. Option (Unit {0} × Builder)) [
      | none ↦ none
      | some blk ↦ some (tt, emplaced b blk i)
    ]
      ≡ some (r, b')
    → Q b'
at_block b i Q none holds r b' e = cc
at_block b i Q (some blk) holds r b' e = subst (λ t. Q t.1) (some-injective _ _ e) (holds blk refl)

emplace-Ensures :
    (i : Instruction) {P Q : Builder → Type 0}
    → ((b : Builder) (blk : Block) → P b → current_block b ≡ some blk → Q (emplaced b blk i))
    → Ensures P (emplace_back i) (λ _ b. Q b)
unfolding emplace_back current_block
emplace-Ensures i {P} {Q} holds = record {
  at_return = λ b p r b' e.
      at_block b i Q (get_elem? b.blocks b.block_index) (λ blk found. holds b blk p found) r b' e;
}

emplace-Terminated :
    (i : Instruction) {P : Builder → Type 0}
    → is_scope_close i.op ≡ false
    → is_terminator i.op ≡ true
    → Ensures P (emplace_back i) (λ _ b. Terminated b)
unfolding current_block
emplace-Terminated i opens ends = emplace-Ensures i λ b blk p e. record {
  block = appended blk i;
  is_current = get-set_same b.blocks b.block_index blk (appended blk i) e;
  terminates = has_terminator-appended blk i ∙ rw (opens, ends) refl;
}

emplace_close-Terminated :
    (i : Instruction)
    → is_scope_close i.op ≡ true
    → Ensures Terminated (emplace_back i) (λ _ b. Terminated b)
unfolding current_block
emplace_close-Terminated i closes = emplace-Ensures i λ b blk t e. record {
  block = appended blk i;
  is_current = get-set_same b.blocks b.block_index blk (appended blk i) e;
  terminates =
      has_terminator-appended blk i
      ∙ rw closes (ap has_terminator (some-injective _ _ (sym e ∙ t.is_current)) ∙ t.terminates);
}

-- Naming a new instruction leaves the current block as it is.
next_ident-Terminated :
    (prefix : Bytes) → Ensures Terminated (next_ident prefix) (λ _ b. Terminated b)
unfolding current_block
next_ident-Terminated prefix = record {
  at_return = λ b t r b' e.
      let (n, named, _, _) = next_ident-fresh prefix b in
      subst (λ u. Terminated u.1) (some-injective _ _ (sym named ∙ e))
        (record { block = t.block; is_current = t.is_current; terminates = t.terminates });
}

next_value-Terminated : Ensures Terminated next_value (λ _ b. Terminated b)
unfolding next_value
next_value-Terminated = next_ident-Terminated (codes "v")

pub ret-Terminated :
    (value : Identifier) (type : Handle) {P : Builder → Type 0}
    → Ensures P (ret value type) (λ _ b. Terminated b)
unfolding ret emit is_terminator is_scope_close
ret-Terminated value type = bind-Any _ _ λ name. bind-Any _ _ λ location.
    then-Ensures (λ b. Terminated b) (emplace-Terminated _ refl refl) (pure-Ensures name λ b t. t)

pub return_tail-Terminated :
    (name : Identifier) (type : Handle) {P : Builder → Type 0}
    → Ensures P (return_tail tail_ name type) (λ _ b. Terminated b)
unfolding return_tail
return_tail-Terminated name type = ret-Terminated name type

pub emit_at-Terminated :
    (op : Op) (type ret_type : Handle) {P : Builder → Type 0}
    → Ensures P (emit_at tail_ op type ret_type) (λ _ b. Terminated b)
unfolding emit_at
emit_at-Terminated op type ret_type = bind-Any _ _ λ name. return_tail-Terminated name ret_type

-- An instruction that ends a block.
pub emit-Terminated :
    (op : Op) (type : Handle) {P : Builder → Type 0}
    → is_scope_close op ≡ false
    → is_terminator op ≡ true
    → Ensures P (emit op type) (λ _ b. Terminated b)
unfolding emit
emit-Terminated op type opens ends = bind-Any _ _ λ name. bind-Any _ _ λ location.
    then-Ensures (λ b. Terminated b) (emplace-Terminated _ opens ends) (pure-Ensures name λ b t. t)

module _ (host : Host) where
  pub jump_to-Terminated :
      (index : ℕ) (is_loop : Bool) {P : Builder → Type 0}
      → Ensures P (jump_to host index is_loop) (λ _ b. Terminated b)
  unfolding jump_to is_terminator is_scope_close
  jump_to-Terminated index is_loop = bind-Any _ _ λ name. bind-Any _ _ λ target.
      bind-Any _ _ λ location.
        then-Ensures (λ b. Terminated b) (emplace-Terminated _ refl refl)
          (pure-Ensures name λ b t. t)

  -- The end of a scope behind a terminator hides it not.
  pub cpp_scope_close-Terminated :
      (scope : Identifier) → Ensures Terminated (cpp_scope_close host scope) (λ _ b. Terminated b)
  unfolding cpp_scope_close emit is_scope_close
  cpp_scope_close-Terminated scope =
      bind-Ensures (λ _ b. Terminated b) (next_value-Terminated)
        λ name.
          bind-Ensures (λ _ b. Terminated b) (gets-Ensures _ λ b t. t)
            λ location.
              then-Ensures (λ b. Terminated b) (emplace_close-Terminated _ refl)
                (pure-Ensures name λ b t. t)
