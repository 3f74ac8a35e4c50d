-- ===== src/Ir/Builder/Cpp.antt =====
-- Emission of C++ values and operators: compiler+runtime/src/cpp/jank/ir/builder.cpp, from
-- `cpp_raw` on.
use jank.Prelude.{Bool, false, List, ◌∷◌, Option, none, some, if◌then◌else◌, codes}
use jank.Ir.Instruction.{Identifier, Handle, Op}
use jank.Analyze.Expr.{Position}
use jank.Ir.Builder.{M, pure, ◌>>=◌, ◌>>◌, gets, modify, next_value, emplace_back}
use jank.Ir.Builder.Emit.{Host, CppExpr, emit_at, return_tail, find_constant, lifted_name}
use jank.Ir.Builder.Values.{literal}

module _ (host : Host) where
  unfoldable pub cpp_raw : CppExpr → M Identifier
  unfolding emit_at
  cpp_raw e = emit_at e.position (Op.cpp_raw e.expr) host.void_type e.expression_type

  unfoldable pub cpp_value : CppExpr → M Identifier
  unfolding emit_at
  cpp_value e = emit_at e.position (Op.cpp_value e.expr) e.expression_type e.expression_type

  -- The name under which a C++ literal is lifted, as it was found or not.
  unfoldable pub lift_cpp_as : Handle → Option Identifier → M Identifier
  lift_cpp_as value none = do
    name ← lifted_name (codes "const")
    modify λ b. record b {
      mod_ = record b.mod_ { lifted_cpp_constants = (value, name) ∷ b.mod_.lifted_cpp_constants };
    }
    pure name
  lift_cpp_as value (some name) = pure name

  unfoldable pub lift_cpp_constant : Handle → M Identifier
  unfolding find_constant lift_cpp_as
  lift_cpp_constant value = do
    constants ← gets λ b. b.mod_.lifted_cpp_constants
    lift_cpp_as value (find_constant host.very_equal_to constants value)

  unfoldable pub cpp_literal : Position → Handle → M Identifier
  unfolding lift_cpp_constant emit_at
  cpp_literal pos value = do
    let type = host.literal_codegen_type value false
    lifted ← lift_cpp_constant value
    emit_at pos (Op.cpp_literal value lifted) type type

  -- The instruction of a conversion that is not of a void value.
  unfoldable pub emplace_conversion : Identifier → Op → Handle → M Identifier
  emplace_conversion name op type = do
    location ← gets λ b. b.location
    emplace_back (record { name = name; type = type; location = location; op = op })
    pure name

  -- `into_object` is `policy == conversion_policy::into_object`.
  unfoldable pub cpp_conversion : Identifier → Bool → CppExpr → M Identifier
  unfolding literal emplace_conversion return_tail
  cpp_conversion value into_object e = do
    next ← next_value
    name ←
        (if into_object
          then (if host.is_void e.type
              then literal host e.position host.jank_nil
              else emplace_conversion next (Op.cpp_into_object value e.expr) e.type)
          else emplace_conversion next (Op.cpp_from_object value e.expr) e.type)
    return_tail e.position name e.expression_type

  unfoldable pub cpp_unsafe_cast : Identifier → CppExpr → M Identifier
  unfolding emit_at
  cpp_unsafe_cast value e =
      emit_at e.position (Op.cpp_unsafe_cast value e.expr) e.expression_type e.expression_type

  unfoldable pub cpp_call : Option Identifier → List Identifier → CppExpr → M Identifier
  unfolding emit_at
  cpp_call value args e =
      emit_at e.position (Op.cpp_call value args e.expr) e.expression_type e.expression_type

  unfoldable pub cpp_constructor_call : List Identifier → CppExpr → M Identifier
  unfolding emit_at
  cpp_constructor_call args e =
      emit_at e.position (Op.cpp_constructor_call args e.expr) e.expression_type e.expression_type

  unfoldable pub cpp_member_call : List Identifier → CppExpr → M Identifier
  unfolding emit_at
  cpp_member_call args e =
      emit_at e.position (Op.cpp_member_call args e.expr) e.expression_type e.expression_type

  unfoldable pub cpp_member_access : Identifier → CppExpr → M Identifier
  unfolding emit_at
  cpp_member_access value e =
      emit_at e.position (Op.cpp_member_access value e.expr) e.expression_type e.expression_type

  unfoldable pub cpp_builtin_operator_call : List Identifier → CppExpr → M Identifier
  unfolding emit_at
  cpp_builtin_operator_call args e =
      emit_at e.position (Op.cpp_builtin_operator_call args e.expr) e.expression_type
        e.expression_type

  unfoldable pub cpp_box : Identifier → CppExpr → M Identifier
  unfolding emit_at
  cpp_box value e = emit_at e.position (Op.cpp_box value e.expr) e.expression_type e.expression_type

  unfoldable pub cpp_unbox : Identifier → Identifier → CppExpr → M Identifier
  unfolding emit_at
  cpp_unbox value meta e =
      emit_at e.position (Op.cpp_unbox value meta e.expr) e.expression_type e.expression_type

  unfoldable pub cpp_new : List Identifier → CppExpr → M Identifier
  unfolding emit_at
  cpp_new args e = emit_at e.position (Op.cpp_new args e.expr) e.expression_type e.expression_type

  unfoldable pub cpp_delete : Identifier → CppExpr → M Identifier
  unfolding emit_at
  cpp_delete value e =
      emit_at e.position (Op.cpp_delete value e.expr) e.expression_type e.expression_type
