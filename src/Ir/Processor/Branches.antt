-- ===== src/Ir/Processor/Branches.antt =====
-- Expressions with bodies, around the generation of their parts, which are arguments here:
-- compiler+runtime/src/cpp/jank/ir/processor.cpp.
use jank.Prelude.{ℕ, true, false, List, ◌∷◌, Option, none, some, Bytes, codes}
use jank.Runtime.Munge.{munge}
use jank.Analyze.Expr.{Position, Node, LoopKind, loop_with_recur}
use jank.Ir.Instruction.{Identifier, Handle}
use jank.Ir.Builder.{M, pure, ◌>>=◌, ◌>>◌, gets, modify, block_name, enter_block}
use jank.Ir.Builder.Emit.{Host}
use jank.Ir.Builder.Values
use jank.Ir.Builder.Control
use jank.Ir.Processor.{
  is_terminated, current_index, new_block, bind_local, restore_locals, put_number,
  jump_unless_terminated, finish_merge,
}
use jank.Ir.Processor.Loops.{open_loop, close_loop}
use jank.Ir.Processor.Steps.{open_if}

-- The result of a generated expression.
abbrev pub Gen : Type 0
Gen = M (Option Identifier)

module _ (host : Host) where
  -- The body of a `let` or a loop, and the end of its scope.
  unfoldable pub let_body :
      LoopKind → Position → Handle → List (Bytes × Node) → Identifier → Gen → Gen
  unfolding open_loop close_loop
  let_body loop_with_recur pos type pairs scope body = do
    blocks ← open_loop host pos type pairs
    body_res ← body
    close_loop host pos blocks scope body_res
  let_body _ pos type pairs scope body = do
    ret ← body
    _ ← Control.cpp_scope_close host scope
    pure ret

  unfoldable pub gen_let :
      LoopKind → Position → Handle → List (Bytes × Node) → M (Unit {0}) → Gen → Gen
  unfolding let_body restore_locals
  gen_let kind pos type pairs bindings body = do
    old_locals ← gets λ b. b.locals
    scope ← Control.cpp_scope_open host
    bindings
    res ← let_body kind pos type pairs scope body
    restore_locals old_locals
    pure res

  unfoldable pub gen_letfn : List Bytes → M (Unit {0}) → Gen → Gen
  gen_letfn names functions body = do
    old_allowed_defers ← gets λ b. b.allowed_defers
    old_locals ← gets λ b. b.locals
    modify λ b. record b { allowed_defers = names }
    _ ← Values.letfn host names
    functions
    res ← body
    modify λ b. record b { allowed_defers = old_allowed_defers; locals = old_locals }
    pure res

  -- A round of the loop of a `do`.
  unfoldable pub next_do : Gen → (Option Identifier → Gen) → Gen
  unfolding is_terminated
  next_do e rest = do
    name ← e
    terminated ← is_terminated
    elim terminated [ true ↦ pure name | false ↦ rest name ]

  -- The blocks of an `if`, behind its condition.
  unfoldable pub if_blocks : Position → Handle → Handle → Identifier → Gen → Gen → Gen
  unfolding new_block open_if enter_block jump_unless_terminated finish_merge
  if_blocks pos type condition_type condition_name then_ else_ = do
    then_blk ← new_block (codes "if")
    else_blk ← new_block (codes "else")
    merge_blk ← new_block (codes "if-merge")
    loc ← Values.local host type
    open_if host condition_type condition_name then_blk else_blk merge_blk
    enter_block then_blk
    then_name ← then_
    jump_unless_terminated host loc then_name merge_blk
    enter_block else_blk
    else_name ← else_
    jump_unless_terminated host loc else_name merge_blk
    enter_block merge_blk
    finish_merge host pos loc

  -- Nothing where the part before has ended the block.
  unfoldable pub unless_terminated : Gen → Gen
  unfolding is_terminated
  unless_terminated rest = do
    terminated ← is_terminated
    elim terminated [ true ↦ pure none | false ↦ rest ]

  unfoldable pub gen_if : Position → Handle → Handle → M Identifier → Gen → Gen → Gen
  unfolding unless_terminated if_blocks
  gen_if pos type condition_type condition then_ else_ = do
    condition_name ← condition
    unless_terminated (if_blocks pos type condition_type condition_name then_ else_)

  -- The end of a `finally` body.
  unfoldable pub gen_finally : ℕ → Gen → M (ℕ × Option Identifier)
  unfolding new_block block_name enter_block is_terminated
  gen_finally merge_blk body = do
    blk ← new_block (codes "finally")
    finally_name ← block_name blk
    enter_block blk
    merge_name ← block_name merge_blk
    _ ← Control.finally host merge_name
    _ ← body
    terminated ← is_terminated
    elim terminated [ true ↦ pure tt | false ↦ (do _ ← Control.jump host merge_blk; pure tt) ]
    pure (blk, some finally_name)

  -- A catch body, and those behind it.
  unfoldable pub gen_catch :
      ℕ
      → ℕ
      → Identifier
      → Option Identifier
      → Bytes
      → Handle
      → Gen
      → M (List (Handle × Identifier))
      → M (List (Handle × Identifier))
  unfolding new_block block_name enter_block bind_local restore_locals jump_unless_terminated
  gen_catch jump_blk merge_blk loc finally_blk sym type body rest = do
    catch_blk ← new_block (codes "catch")
    enter_block catch_blk
    old_locals ← gets λ b. b.locals
    merge_name ← block_name merge_blk
    exception ← Control.catch_ host type (some merge_name) (some loc) finally_blk
    bind_local (munge sym) exception
    catch_res ← body
    catch_name ← block_name catch_blk
    jump_unless_terminated host loc catch_res jump_blk
    restore_locals old_locals
    catch_blocks ← rest
    pure ((type, catch_name) ∷ catch_blocks)

  unfoldable pub gen_try :
      Position
      → Handle
      → (ℕ → M (ℕ × Option Identifier))
      → (ℕ → ℕ → Identifier → Option Identifier → M (List (Handle × Identifier)))
      → Gen
      → Gen
  unfolding new_block block_name enter_block jump_unless_terminated finish_merge
  gen_try pos type finally_body catches body = do
    loc ← Values.local host type
    try_blk ← new_block (codes "try")
    _ ← Control.jump host try_blk
    merge_blk ← new_block (codes "try-merge")
    (jump_blk, finally_blk) ← finally_body merge_blk
    catch_blocks ← catches jump_blk merge_blk loc finally_blk
    enter_block try_blk
    merge_name ← block_name merge_blk
    _ ← Control.try_ host catch_blocks merge_name loc finally_blk
    try_res ← body
    jump_unless_terminated host loc try_res jump_blk
    enter_block merge_blk
    finish_merge host pos loc

  -- The block of a case, and those behind it.
  unfoldable pub gen_case_block :
      ℕ
      → Identifier
      → List (Handle × Identifier)
      → Handle
      → Gen
      → (List (Handle × Identifier) → M (List (Handle × Identifier)))
      → M (List (Handle × Identifier))
  unfolding new_block block_name enter_block jump_unless_terminated put_number
  gen_case_block merge_blk loc blocks key body rest = do
    blk ← new_block (codes "case")
    name ← block_name blk
    enter_block blk
    case_res ← body
    jump_unless_terminated host loc case_res merge_blk
    rest (put_number blocks key name)

  -- The blocks of a `case`, behind its value.
  unfoldable pub case_blocks :
      Position
      → Handle
      → Handle
      → Handle
      → Identifier
      → (ℕ → Identifier → M (List (Handle × Identifier)))
      → Gen
      → Gen
  unfolding new_block block_name enter_block current_index jump_unless_terminated finish_merge
  case_blocks pos type shift mask value_ident cases default_ = do
    starting_block ← current_index
    loc ← Values.local host type
    merge_blk ← new_block (codes "case-merge")
    blocks ← cases merge_blk loc
    default_block ← new_block (codes "default")
    enter_block default_block
    default_res ← default_
    jump_unless_terminated host loc default_res merge_blk
    enter_block starting_block
    default_name ← block_name default_block
    merge_name ← block_name merge_blk
    _ ← Control.case_ host shift mask value_ident blocks default_name merge_name
    enter_block merge_blk
    finish_merge host pos loc

  unfoldable pub gen_case :
      Position
      → Handle
      → Handle
      → Handle
      → M Identifier
      → (ℕ → Identifier → M (List (Handle × Identifier)))
      → Gen
      → Gen
  unfolding unless_terminated case_blocks
  gen_case pos type shift mask value cases default_ = do
    value_ident ← value
    unless_terminated (case_blocks pos type shift mask value_ident cases default_)
