-- ===== src/Ir/Walk.antt =====
-- The identifiers that an instruction reads: `walk_references` of
-- compiler+runtime/src/cpp/jank/ir/walk.cpp. The C++ functions call back on each of them; here
-- they are listed in the order of the calls.
pub mod Rename
pub mod Uses
use jank.Prelude.{List, [], ◌∷◌, ◌++◌, map, Option, none, some, Bytes}
use jank.Ir.Instruction.{
  Identifier, TypedIdentifier, BindingShadow, Instruction, Op, persistent_list, persistent_vector,
  persistent_array_map, persistent_hash_map, persistent_hash_set, closure, set_local, def,
  type_erase, dynamic_call, truthy, branch_set, branch_get, branch, loop, case_, throw_, ret,
  cpp_into_object, cpp_from_object, cpp_unsafe_cast, cpp_call, cpp_constructor_call,
  cpp_member_call, cpp_member_access, cpp_builtin_operator_call, cpp_box, cpp_unbox, cpp_new,
  cpp_delete,
}

-- `if(value.is_some()) f(value.unwrap())`
abbrev pub optional : Option Identifier → List Identifier
optional none = []
optional (some name) = name ∷ []

abbrev pub optional_typed : Option TypedIdentifier → List Identifier
optional_typed none = []
optional_typed (some t) = t.name ∷ []

-- `f(arg.first); f(arg.second)` for each entry
unfoldable pub entries : List (Identifier × Identifier) → List Identifier
entries [] = []
entries ((k, v) ∷ rest) = k ∷ v ∷ entries rest

unfoldable pub capture_names : List (Bytes × TypedIdentifier) → List Identifier
capture_names [] = []
capture_names ((k, t) ∷ rest) = t.name ∷ capture_names rest

unfoldable pub shadow_values : List BindingShadow → List Identifier
shadow_values [] = []
shadow_values (s ∷ rest) = s.value ∷ shadow_values rest

-- The overloads of `walk_references_typed`; the first argument is the instruction's own name.
unfoldable pub op_references : Identifier → Op → List Identifier
op_references name (def qualified_var value meta is_dynamic) = optional value
op_references name (type_erase value) = value ∷ []
op_references name (dynamic_call fn args) = fn ∷ args
op_references name (persistent_list values meta) = values
op_references name (persistent_vector values meta) = values
op_references name (persistent_array_map values meta) = entries values
op_references name (persistent_hash_map values meta) = entries values
op_references name (persistent_hash_set values meta) = values
op_references name (closure context arities captures flags is_variadic) = capture_names captures
op_references name (set_local target value) = value ∷ []
op_references name (truthy value) = value ∷ []
op_references name branch_get = name ∷ []
op_references name (branch_set shadow value) = value ∷ []
op_references name (branch condition then_block else_block merge_block) = condition ∷ []
op_references name (loop loop_block merge_block shadow binding_shadows) =
    shadow_values binding_shadows
op_references name (throw_ value) = optional_typed value
op_references name (case_ shift mask value case_blocks default_block merge_block) = value ∷ []
op_references name (ret value) = value ∷ []
op_references name (cpp_into_object value expr) = value ∷ []
op_references name (cpp_from_object value expr) = value ∷ []
op_references name (cpp_unsafe_cast value expr) = value ∷ []
op_references name (cpp_call value args expr) = optional value ++ args
op_references name (cpp_constructor_call args expr) = args
op_references name (cpp_member_call args expr) = args
op_references name (cpp_member_access value expr) = value ∷ []
op_references name (cpp_builtin_operator_call args expr) = args
op_references name (cpp_box value expr) = value ∷ []
op_references name (cpp_unbox value meta expr) = value ∷ []
op_references name (cpp_new args expr) = args
op_references name (cpp_delete value expr) = value ∷ []
op_references name _ = []

unfoldable pub references : Instruction → List Identifier
unfolding op_references
references i = op_references i.name i.op
