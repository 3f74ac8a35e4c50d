-- ===== src/Ir/Builder/Emit.antt =====
-- The operations of the builder that emit instructions: compiler+runtime/src/cpp/jank/ir/builder.cpp.
-- The constructors of src/cpp/jank/ir/instruction.cpp give each instruction its type.
use jank.Prelude.{◌+◌, Bool, List, [], ◌∷◌, Option, none, some, if◌then◌else◌, Bytes}
use jank.Runtime.Munge.{munge}
use jank.Runtime.UniqueString.{unique_string_with}
use jank.Ir.Instruction.{Identifier, Handle, Op}
use jank.Analyze.Expr.{Position, tail_}
use jank.Ir.Builder.{M, pure, ◌>>=◌, ◌>>◌, gets, next_value, emplace_back}

-- What the builder asks of clang and the runtime: types and `nil` as handles, the type of a literal
-- that is boxed or not, and the equalities of the maps of lifted constants.
pub record Host : Type 0 where
  pub void_type : Handle
  pub bool_type : Handle
  pub untyped_object_ref_type : Handle
  pub var_type : Handle
  pub persistent_list_ref_type : Handle
  pub persistent_vector_ref_type : Handle
  pub persistent_array_map_ref_type : Handle
  pub persistent_hash_map_ref_type : Handle
  pub persistent_hash_set_ref_type : Handle
  pub jit_function_ref_type : Handle
  pub jit_closure_ref_type : Handle
  pub jank_nil : Handle
  pub literal_codegen_type : Handle → Bool → Handle
  pub is_void : Handle → Bool
  pub is_any_object : Handle → Bool
  pub is_typed_object : Handle → Bool
  pub mutable_type : Handle → Handle
  pub very_equal_to_with_meta : Handle → Handle → Bool
  pub very_equal_to : Handle → Handle → Bool

-- What the operations read of an analysed C++ expression: itself, where it stands, `type` and
-- `expression_type(expr)`.
pub record CppExpr : Type 0 where
  pub expr : Handle
  pub position : Position
  pub type : Handle
  pub expression_type : Handle

-- `auto name{ next_ident() }`, the new instruction at the end of the current block, and the name.
unfoldable pub emit : Op → Handle → M Identifier
emit op type = do
  name ← next_value
  location ← gets λ b. b.location
  emplace_back (record { name = name; type = type; location = location; op = op })
  pure name

unfoldable pub ret : Identifier → Handle → M Identifier
unfolding emit
ret value type = emit (Op.ret value) type

-- The end of the operations: a value in tail position is returned.
unfoldable pub return_tail : Position → Identifier → Handle → M Identifier
return_tail tail_ name type = ret name type
return_tail _ name type = pure name

-- An instruction, and the return in tail position.
unfoldable pub emit_at : Position → Op → Handle → Handle → M Identifier
unfolding emit return_tail
emit_at pos op type ret_type = do name ← emit op type; return_tail pos name ret_type

-- `find` and `emplace` of the lifted constants; the comparison is that of the map.
module _ (same : Handle → Handle → Bool) where
  unfoldable pub find_constant : List (Handle × Identifier) → Handle → Option Identifier
  find_constant [] value = none
  find_constant ((v, name) ∷ m) value = if same v value then some name else find_constant m value

-- `munge(unique_string(prefix))`, in the module of the builder.
unfoldable pub lifted_name : Bytes → M Identifier
lifted_name prefix b =
    let n = b.symbol_counter + 1 in
    some (munge (unique_string_with prefix n), record b { symbol_counter = n })
