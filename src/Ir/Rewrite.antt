-- ===== src/Ir/Rewrite.antt =====
-- Renaming of operands: src/cpp/jank/ir/rewrite.cpp and `uses_name` of src/cpp/jank/ir/util.cpp,
-- below compiler+runtime. An instruction is updated in place there; here the new one is returned,
-- together with the flag that the C++ functions return.
mod Parts
pub mod Removes
use jank.Prelude.{
  Bool, true, false, ◌||◌, List, [], ◌∷◌, Option, none, some, if◌then◌else◌, eq_bytes, Bytes,
}
use jank.Ir.Instruction.{
  Identifier, Handle, TypedIdentifier, Instruction, Op, persistent_list, persistent_vector,
  persistent_array_map, persistent_hash_map, persistent_hash_set, closure, set_local, def,
  type_erase, dynamic_call, named_recursion, truthy, jump, branch_set, branch, loop, case_, try_,
  catch_, finally, throw_, ret, cpp_into_object, cpp_from_object, cpp_unsafe_cast, cpp_call,
  cpp_constructor_call, cpp_member_call, cpp_member_access, cpp_builtin_operator_call, cpp_box,
  cpp_unbox, cpp_new, cpp_delete,
}
use jank.Ir.Function.{Block}

-- A value after rewriting, and whether anything was rewritten in it.
pub record Rewritten {ℓ} (A : Type ℓ) : Type ℓ where
  pub value : A
  pub rewritten : Bool

abbrev pub untouched {ℓ} : {A : Type ℓ} → A → Rewritten A
untouched a = record { value = a; rewritten = false }

-- `rewritten |= ...` for each step.
infixl 5 ◌>>=◌
abbrev pub ◌>>=◌ {ℓ κ} : {A : Type ℓ} {B : Type κ} → Rewritten A → (A → Rewritten B) → Rewritten B
m >>= f = record { value = (f m.value).value; rewritten = m.rewritten || (f m.value).rewritten }

-- A loop over a vector or map.
unfoldable pub rewrite_each {ℓ} : {A : Type ℓ} → (A → Rewritten A) → List A → Rewritten (List A)
rewrite_each f [] = untouched []
rewrite_each f (x ∷ xs) = do y ← f x; ys ← rewrite_each f xs; untouched (y ∷ ys)

module _ (old_name new_name : Identifier) where
  unfoldable pub rewrite : Identifier → Rewritten Identifier
  rewrite name =
      if eq_bytes name old_name
      then record { value = new_name; rewritten = true }
      else untouched name

  unfoldable pub rewrite_option : Option Identifier → Rewritten (Option Identifier)
  unfolding rewrite
  rewrite_option none = untouched none
  rewrite_option (some name) = do name' ← rewrite name; untouched (some name')

  -- `rewrite(v.first)`, `rewrite(v.second)`
  unfoldable pub rewrite_entry : Identifier × Identifier → Rewritten (Identifier × Identifier)
  rewrite_entry (k, v) = do k' ← rewrite k; v' ← rewrite v; untouched (k', v')

  unfoldable pub rewrite_typed : TypedIdentifier → Rewritten TypedIdentifier
  rewrite_typed t = do name' ← rewrite t.name; untouched (record t { name = name' })

  -- `rewrite(c.second.name)`
  unfoldable pub rewrite_capture : Bytes × TypedIdentifier → Rewritten (Bytes × TypedIdentifier)
  unfolding rewrite_typed
  rewrite_capture (k, t) = do t' ← rewrite_typed t; untouched (k, t')

  unfoldable pub rewrite_optional_typed :
      Option TypedIdentifier → Rewritten (Option TypedIdentifier)
  unfolding rewrite_typed
  rewrite_optional_typed none = untouched none
  rewrite_optional_typed (some t) = do t' ← rewrite_typed t; untouched (some t')

  -- `rewrite(b.second)`, of a case or a catch
  unfoldable pub rewrite_target : Handle × Identifier → Rewritten (Handle × Identifier)
  rewrite_target (k, b) = do b' ← rewrite b; untouched (k, b')

  -- The switch over the kinds.
  unfoldable pub rewrite_op : Op → Rewritten Op
  rewrite_op (set_local target value) = do
    target' ← rewrite target
    value' ← rewrite value
    untouched (set_local target' value')
  rewrite_op (persistent_list values meta) = do
    values' ← rewrite_each rewrite values
    untouched (persistent_list values' meta)
  rewrite_op (persistent_vector values meta) = do
    values' ← rewrite_each rewrite values
    untouched (persistent_vector values' meta)
  rewrite_op (persistent_array_map values meta) = do
    values' ← rewrite_each rewrite_entry values
    untouched (persistent_array_map values' meta)
  rewrite_op (persistent_hash_map values meta) = do
    values' ← rewrite_each rewrite_entry values
    untouched (persistent_hash_map values' meta)
  rewrite_op (persistent_hash_set values meta) = do
    values' ← rewrite_each rewrite values
    untouched (persistent_hash_set values' meta)
  rewrite_op (closure context arities captures flags is_variadic) = do
    captures' ← rewrite_each rewrite_capture captures
    untouched (closure context arities captures' flags is_variadic)
  rewrite_op (def qualified_var value meta is_dynamic) = do
    value' ← rewrite_option value
    untouched (def qualified_var value' meta is_dynamic)
  rewrite_op (type_erase value) = do value' ← rewrite value; untouched (type_erase value')
  rewrite_op (dynamic_call fn args) = do
    fn' ← rewrite fn
    args' ← rewrite_each rewrite args
    untouched (dynamic_call fn' args')
  rewrite_op (named_recursion fn fn_base_name args needs_dynamic_call) = do
    fn' ← rewrite fn
    args' ← rewrite_each rewrite args
    untouched (named_recursion fn' fn_base_name args' needs_dynamic_call)
  rewrite_op (truthy value) = do value' ← rewrite value; untouched (truthy value')
  rewrite_op (jump block is_loop) = do block' ← rewrite block; untouched (jump block' is_loop)
  rewrite_op (branch_set shadow value) = do
    shadow' ← rewrite shadow
    value' ← rewrite value
    untouched (branch_set shadow' value')
  rewrite_op (branch condition then_block else_block merge_block) = do
    condition' ← rewrite condition
    then_block' ← rewrite then_block
    else_block' ← rewrite else_block
    merge_block' ← rewrite merge_block
    untouched (branch condition' then_block' else_block' merge_block')
  rewrite_op (loop loop_block merge_block shadow binding_shadows) = do
    shadow' ← rewrite_optional_typed shadow
    loop_block' ← rewrite loop_block
    merge_block' ← rewrite_option merge_block
    untouched (loop loop_block' merge_block' shadow' binding_shadows)
  rewrite_op (case_ shift mask value case_blocks default_block merge_block) = do
    case_blocks' ← rewrite_each rewrite_target case_blocks
    merge_block' ← rewrite merge_block
    untouched (case_ shift mask value case_blocks' default_block merge_block')
  rewrite_op (try_ catches merge_block shadow finally_block) = do
    shadow' ← rewrite shadow
    catches' ← rewrite_each rewrite_target catches
    finally_block' ← rewrite_option finally_block
    merge_block' ← rewrite merge_block
    untouched (try_ catches' merge_block' shadow' finally_block')
  rewrite_op (catch_ merge_block shadow finally_block) = do
    shadow' ← rewrite_option shadow
    finally_block' ← rewrite_option finally_block
    merge_block' ← rewrite_option merge_block
    untouched (catch_ merge_block' shadow' finally_block')
  rewrite_op (finally merge_block) = do
    merge_block' ← rewrite merge_block
    untouched (finally merge_block')
  rewrite_op (throw_ value) = do value' ← rewrite_optional_typed value; untouched (throw_ value')
  rewrite_op (ret value) = do value' ← rewrite value; untouched (ret value')
  rewrite_op (cpp_into_object value expr) = do
    value' ← rewrite value
    untouched (cpp_into_object value' expr)
  rewrite_op (cpp_from_object value expr) = do
    value' ← rewrite value
    untouched (cpp_from_object value' expr)
  rewrite_op (cpp_unsafe_cast value expr) = do
    value' ← rewrite value
    untouched (cpp_unsafe_cast value' expr)
  rewrite_op (cpp_call value args expr) = do
    value' ← rewrite_option value
    args' ← rewrite_each rewrite args
    untouched (cpp_call value' args' expr)
  rewrite_op (cpp_constructor_call args expr) = do
    args' ← rewrite_each rewrite args
    untouched (cpp_constructor_call args' expr)
  rewrite_op (cpp_member_call args expr) = do
    args' ← rewrite_each rewrite args
    untouched (cpp_member_call args' expr)
  rewrite_op (cpp_member_access value expr) = do
    value' ← rewrite value
    untouched (cpp_member_access value' expr)
  rewrite_op (cpp_builtin_operator_call args expr) = do
    args' ← rewrite_each rewrite args
    untouched (cpp_builtin_operator_call args' expr)
  rewrite_op (cpp_box value expr) = do value' ← rewrite value; untouched (cpp_box value' expr)
  rewrite_op (cpp_unbox value meta expr) = do
    value' ← rewrite value
    meta' ← rewrite meta
    untouched (cpp_unbox value' meta' expr)
  rewrite_op (cpp_new args expr) = do
    args' ← rewrite_each rewrite args
    untouched (cpp_new args' expr)
  rewrite_op (cpp_delete value expr) = do value' ← rewrite value; untouched (cpp_delete value' expr)
  rewrite_op op = untouched op

  unfoldable pub rewrite_instruction : Instruction → Rewritten Instruction
  rewrite_instruction i = do op' ← rewrite_op i.op; untouched (record i { op = op' })

  rewrite_block : Block → Rewritten Block
  rewrite_block b = do
    instructions' ← rewrite_each rewrite_instruction b.instructions
    untouched (record b { instructions = instructions' })

  -- `rewrite_uses` of a function: every instruction of every block.
  unfoldable pub rewrite_uses : List Block → List Block
  unfolding rewrite_block
  rewrite_uses bs = (rewrite_each rewrite_block bs).value

unfoldable pub uses_name : Op → Identifier → Bool
uses_name op name = (rewrite_op name name op).rewritten
