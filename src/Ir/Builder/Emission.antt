-- ===== src/Ir/Builder/Emission.antt =====
-- What the operations of the builder append to the current block:
-- compiler+runtime/src/cpp/jank/ir/builder.cpp.
use mathlib.Core.List.{append_assoc}
use jank.Prelude.{
  ℕ, zero, suc, ◌+◌, ◌≤◌, ◌≡◌, refl, ap, ◌∙◌, false, List, [], ◌∷◌, ◌++◌, Option, none, some, set,
  codes, contains,
}
use jank.Runtime.UniqueString.{decimal}
use jank.Analyze.Expr.{Position, value_, call_, statement_, tail_, type_}
use jank.Ir.Instruction.{Identifier, Handle, Instruction, Op}
use jank.Ir.Function.{Block}
use jank.Ir.Builder.{Builder, M, pure, ◌>>=◌, ◌>>◌, gets, next_value, current_block, emplace_back}
use jank.Ir.Builder.Emit.{emit, ret, return_tail, emit_at}
use jank.Ir.Builder.Fresh.{next_ident-fresh}
use jank.Ir.Builder.Terminated.{get-set_same}

-- The name of a value with its number.
abbrev pub value_name : ℕ → Identifier
value_name n = codes "v" ++ decimal n

-- The current block with more instructions behind its own.
abbrev pub with_instructions : Builder → Block → List Instruction → List Block
with_instructions b blk is =
    set b.blocks b.block_index (record blk { instructions = blk.instructions ++ is })

abbrev pub new_instruction : Builder → ℕ → Op → Handle → Instruction
new_instruction b n op type = record {
  name = value_name n;
  type = type;
  location = b.location;
  op = op;
}

abbrev emitted : Builder → Block → ℕ → Op → Handle → Builder
emitted b blk n op type = record b {
  blocks = with_instructions b blk (new_instruction b n op type ∷ []);
  ident_count = n + 1;
  used_identifiers = value_name n ∷ b.used_identifiers;
}

pub bind-step :
    {A B : Type 0} (m : M A) (f : A → M B) (b : Builder) {a : A} {c : Builder}
    → m b ≡ some (a, c)
    → (m >>= f) b ≡ f a c
unfolding ◌>>=◌
bind-step {A} {B} m f b e =
    ap (λ o. elim o as (λ _. Option (B × Builder)) [ none ↦ none | some (a, c) ↦ f a c ]) e

emplace_back-step :
    (i : Instruction) (b : Builder) (blk : Block)
    → current_block b ≡ some blk
    → emplace_back i b ≡ some (tt, record b { blocks = with_instructions b blk (i ∷ []) })
unfolding emplace_back current_block
emplace_back-step i b blk current =
    ap
      (λ o. elim o as (λ _. Option (Unit {0} × Builder)) [
        | none ↦ none
        | some found ↦ some (tt, record b { blocks = with_instructions b found (i ∷ []) })
      ])
      current

-- The parts of `emit` behind the name.
abbrev placed : Op → Handle → Identifier → Handle → M Identifier
placed op type name location =
    emplace_back (record { name = name; type = type; location = location; op = op }) >> pure name

abbrev located : Op → Handle → Identifier → M Identifier
located op type name = gets (λ c. c.location) >>= placed op type name

emit-emitted :
    (op : Op) (type : Handle) (b : Builder) (blk : Block)
    → current_block b ≡ some blk
    → (n : ℕ) × (emit op type b ≡ some (value_name n, emitted b blk n op type))
      × (b.ident_count ≤ n)
      × (contains b.used_identifiers (value_name n) ≡ false)
unfolding emit next_value gets ◌>>◌ pure current_block
emit-emitted op type b blk current =
    let (n, named, after, fresh) = next_ident-fresh (codes "v") b in
    let named_b : Builder = record b {
      ident_count = n + 1;
      used_identifiers = value_name n ∷ b.used_identifiers;
    } in
    (
      n,
      bind-step next_value (located op type) b named
          ∙ bind-step (gets λ c. c.location) (placed op type (value_name n)) named_b refl
          ∙ bind-step (emplace_back (new_instruction b n op type)) (λ _. pure (value_name n))
              named_b (emplace_back-step (new_instruction b n op type) named_b blk current),
      after,
      fresh,
    )

set-set : (bs : List Block) (k : ℕ) (x y : Block) → set (set bs k x) k y ≡ set bs k y
set-set [] k x y = refl
set-set (b ∷ bs) zero x y = refl
set-set (b ∷ bs) (suc k) x y = ap (λ cs. b ∷ cs) (set-set bs k x y)

abbrev emitted_block : Builder → Block → ℕ → Op → Handle → Block
emitted_block b blk n op type = record blk {
  instructions = blk.instructions ++ (new_instruction b n op type ∷ []);
}

current_emitted :
    (b : Builder) (blk : Block) (n : ℕ) (op : Op) (type : Handle)
    → current_block b ≡ some blk
    → current_block (emitted b blk n op type) ≡ some (emitted_block b blk n op type)
unfolding current_block
current_emitted b blk n op type current = get-set_same b.blocks b.block_index blk _ current

-- What stands behind the new instruction: the return in tail position.
abbrev pub returned : Position → Builder → ℕ → ℕ → Handle → List Instruction
returned tail_ b n m type = new_instruction b m (Op.ret (value_name n)) type ∷ []
returned _ b n m type = []

abbrev pub result_name : Position → ℕ → ℕ → Identifier
result_name tail_ n m = value_name m
result_name _ n m = value_name n

-- An operation ran: it returned `result`, the current block has `is` behind its instructions, and
-- the other blocks are as they were.
pub record Appended (b : Builder) (blk : Block) (is : List Instruction) (result : Identifier)
    (run : Option (Identifier × Builder)) : Type 0 where
  pub after : Builder
  pub returns : run ≡ some (result, after)
  pub blocks : after.blocks ≡ with_instructions b blk is
  pub block_index : after.block_index ≡ b.block_index

untailed :
    (op : Op) (type : Handle) (b : Builder) (blk : Block) (n : ℕ)
    → emit op type b ≡ some (value_name n, emitted b blk n op type)
    → Appended b blk
        (new_instruction b n op type ∷ [])
        (value_name n)
        ((emit op type >>= λ name. pure name) b)
unfolding pure
untailed op type b blk n ran = record {
  after = emitted b blk n op type;
  returns = bind-step (emit op type) (λ name. pure name) b ran;
  blocks = refl;
  block_index = refl;
}

in_position :
    (pos : Position) (op : Op) (type ret_type : Handle) (b : Builder) (blk : Block) (n m : ℕ)
    → emit op type b ≡ some (value_name n, emitted b blk n op type)
    → emit (Op.ret (value_name n)) ret_type (emitted b blk n op type)
      ≡ some (
        value_name m,
        emitted
            (emitted b blk n op type)
            (emitted_block b blk n op type)
            m
            (Op.ret (value_name n))
            ret_type,
      )
    → Appended b blk
        (new_instruction b n op type ∷ returned pos b n m ret_type)
        (result_name pos n m)
        (emit_at pos op type ret_type b)
unfolding emit_at return_tail ret
in_position value_ op type ret_type b blk n m ran ran' = untailed op type b blk n ran
in_position call_ op type ret_type b blk n m ran ran' = untailed op type b blk n ran
in_position statement_ op type ret_type b blk n m ran ran' = untailed op type b blk n ran
in_position type_ op type ret_type b blk n m ran ran' = untailed op type b blk n ran
in_position tail_ op type ret_type b blk n m ran ran' = record {
  after =
      emitted (emitted b blk n op type) (emitted_block b blk n op type) m (Op.ret (value_name n))
        ret_type;
  returns = bind-step (emit op type) (λ name. return_tail tail_ name ret_type) b ran ∙ ran';
  blocks =
      set-set b.blocks b.block_index _ _
      ∙ ap (λ is. set b.blocks b.block_index (record blk { instructions = is }))
          (append_assoc blk.instructions _ _);
  block_index = refl;
}

-- An operation that emits an instruction and, in tail position, the return of its value, runs
-- wherever there is a current block: it appends those instructions to the block, and changes no
-- other. Their names are new, also among themselves, and the name of the last one is the result.
pub emit_at-Appended :
    (pos : Position) (op : Op) (type ret_type : Handle) (b : Builder) (blk : Block)
    → current_block b ≡ some blk
    → (n m : ℕ) × Appended b blk
        (new_instruction b n op type ∷ returned pos b n m ret_type)
        (result_name pos n m)
        (emit_at pos op type ret_type b)
      × (contains b.used_identifiers (value_name n) ≡ false)
      × (contains (value_name n ∷ b.used_identifiers) (value_name m) ≡ false)
unfolding emit_at return_tail pure
emit_at-Appended pos op type ret_type b blk current =
    let (n, ran, after, fresh) = emit-emitted op type b blk current in
    let (m, ran', after', fresh') =
      emit-emitted (Op.ret (value_name n)) ret_type (emitted b blk n op type)
        (emitted_block b blk n op type) (current_emitted b blk n op type current) in
    (n, m, in_position pos op type ret_type b blk n m ran ran', fresh, fresh')
