-- ===== src/Ir/Builder/Control.antt =====
-- Emission of calls and control flow: compiler+runtime/src/cpp/jank/ir/builder.cpp, from
-- `dynamic_call` to `cpp_scope_close`.
use jank.Prelude.{ℕ, Bool, false, List, Option, Bytes, codes}
use jank.Ir.Instruction.{Identifier, Handle, Op, TypedIdentifier, BindingShadow}
use jank.Analyze.Expr.{Position}
use jank.Ir.Builder.{M, pure, ◌>>=◌, ◌>>◌, gets, next_ident, next_value, emplace_back, block_name}
use jank.Ir.Builder.Emit.{Host, emit, emit_at}

module _ (host : Host) where
  unfoldable pub dynamic_call : Position → Identifier → List Identifier → M Identifier
  unfolding emit_at
  dynamic_call pos fn args =
      let type = host.untyped_object_ref_type in emit_at pos (Op.dynamic_call fn args) type type

  unfoldable pub named_recursion :
      Position → Identifier → Bytes → List Identifier → Bool → M Identifier
  unfolding emit_at
  named_recursion pos fn fn_base_name args needs_dynamic_call =
      let type = host.untyped_object_ref_type in
      emit_at pos (Op.named_recursion fn fn_base_name args needs_dynamic_call) type type

  unfoldable pub recursion_reference : Position → M Identifier
  unfolding emit_at
  recursion_reference pos =
      let type = host.untyped_object_ref_type in emit_at pos Op.recursion_reference type type

  unfoldable pub truthy : Identifier → M Identifier
  unfolding emit
  truthy value = emit (Op.truthy value) host.bool_type

  -- `jump(index, is_loop)`: the name of the jump, then the name of the block.
  unfoldable pub jump_to : ℕ → Bool → M Identifier
  jump_to index is_loop = do
    name ← next_value
    target ← block_name index
    location ← gets λ b. b.location
    emplace_back (record {
      name = name;
      type = host.void_type;
      location = location;
      op = Op.jump target is_loop;
    })
    pure name

  -- `jump(index)`
  unfoldable pub jump : ℕ → M Identifier
  unfolding jump_to
  jump index = jump_to index false

  unfoldable pub branch_set : Identifier → Identifier → M Identifier
  unfolding emit
  branch_set shadow value = emit (Op.branch_set shadow value) host.void_type

  -- The shadow gives the instruction its name.
  unfoldable pub branch_get : Identifier → Handle → M Identifier
  branch_get name type = do
    location ← gets λ b. b.location
    emplace_back (record { name = name; type = type; location = location; op = Op.branch_get })
    pure name

  unfoldable pub branch : Identifier → Identifier → Identifier → Identifier → M Identifier
  unfolding emit
  branch condition then_blk else_blk merge_blk =
      emit (Op.branch condition then_blk else_blk merge_blk) host.void_type

  unfoldable pub loop :
      Identifier → Option Identifier → Option TypedIdentifier → List BindingShadow → M Identifier
  unfolding emit
  loop loop_blk merge_blk shadow shadows =
      emit (Op.loop loop_blk merge_blk shadow shadows) host.void_type

  unfoldable pub case_ :
      Handle
      → Handle
      → Identifier
      → List (Handle × Identifier)
      → Identifier
      → Identifier
      → M Identifier
  unfolding emit
  case_ shift mask value cases default_block merge_block =
      emit (Op.case_ shift mask value cases default_block merge_block) host.void_type

  unfoldable pub try_ :
      List (Handle × Identifier) → Identifier → Identifier → Option Identifier → M Identifier
  unfolding emit
  try_ catches merge_block shadow finally_block =
      emit (Op.try_ catches merge_block shadow finally_block) host.void_type

  unfoldable pub catch_ :
      Handle → Option Identifier → Option Identifier → Option Identifier → M Identifier
  unfolding emit
  catch_ type merge_block shadow finally_block =
      emit (Op.catch_ merge_block shadow finally_block) type

  unfoldable pub finally : Identifier → M Identifier
  unfolding emit
  finally merge_block = emit (Op.finally merge_block) host.void_type

  -- `throw_()` and `throw_(value, type)`
  unfoldable pub throw_ : Option TypedIdentifier → M Identifier
  unfolding emit
  throw_ value = emit (Op.throw_ value) host.void_type

  unfoldable pub cpp_scope_open : M Identifier
  cpp_scope_open = do
    name ← next_ident (codes "s")
    location ← gets λ b. b.location
    emplace_back
        (record { name = name; type = host.void_type; location = location; op = Op.cpp_scope_open })
    pure name

  unfoldable pub cpp_scope_close : Identifier → M Identifier
  unfolding emit
  cpp_scope_close scope = emit (Op.cpp_scope_close scope) host.void_type
