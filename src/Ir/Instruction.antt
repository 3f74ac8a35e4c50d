-- ===== src/Ir/Instruction.antt =====
-- Instructions of the intermediate representation: include/cpp/jank/ir/instruction.hpp and
-- src/cpp/jank/ir/instruction.cpp, below compiler+runtime.
use jank.Prelude.{ℕ, Bool, true, false, List, Option, Bytes}

-- Interned text that names instructions and blocks.
abbrev pub Identifier : Type 0
Identifier = Bytes

-- Handles that this code only copies: clang types, source positions, runtime objects, analysed
-- expressions, arity flags and the 64-bit patterns of `case*`.
abbrev pub Handle : Type 0
Handle = ℕ

pub record TypedIdentifier : Type 0 where
  pub name : Identifier
  pub type : Handle

pub record BindingShadow : Type 0 where
  pub name : Identifier
  pub value : Identifier
  pub type : Handle

-- What the subclasses of `instruction` add to it; a constructor for each instruction kind, with
-- the fields in the order of the struct.
pub data Op : Type 0 where
  nop : Op
  parameter : Op
  capture : Bytes → Op
  literal : Handle → Identifier → Op
  persistent_list : List Identifier → Handle → Op
  persistent_vector : List Identifier → Handle → Op
  persistent_array_map : List (Identifier × Identifier) → Handle → Op
  persistent_hash_map : List (Identifier × Identifier) → Handle → Op
  persistent_hash_set : List Identifier → Handle → Op
  function : List (ℕ × Bytes) → Handle → Bool → Op
  closure : Bytes → List (ℕ × Bytes) → List (Bytes × TypedIdentifier) → Handle → Bool → Op
  letfn : List Bytes → Op
  local : Op
  set_local : Identifier → Identifier → Op
  def : Bytes → Option Identifier → Handle → Bool → Op
  var_deref : Bytes → Op
  var_ref : Bytes → Op
  type_erase : Identifier → Op
  dynamic_call : Identifier → List Identifier → Op
  named_recursion : Identifier → Bytes → List Identifier → Bool → Op
  recursion_reference : Op
  truthy : Identifier → Op
  jump : Identifier → Bool → Op
  branch_set : Identifier → Identifier → Op
  branch_get : Op
  branch : Identifier → Identifier → Identifier → Identifier → Op
  loop : Identifier → Option Identifier → Option TypedIdentifier → List BindingShadow → Op
  case_ : Handle → Handle → Identifier → List (Handle × Identifier) → Identifier → Identifier → Op
  try_ : List (Handle × Identifier) → Identifier → Identifier → Option Identifier → Op
  catch_ : Option Identifier → Option Identifier → Option Identifier → Op
  finally : Identifier → Op
  throw_ : Option TypedIdentifier → Op
  ret : Identifier → Op
  cpp_scope_open : Op
  cpp_scope_close : Identifier → Op
  cpp_raw : Handle → Op
  cpp_value : Handle → Op
  cpp_literal : Handle → Identifier → Op
  cpp_into_object : Identifier → Handle → Op
  cpp_from_object : Identifier → Handle → Op
  cpp_unsafe_cast : Identifier → Handle → Op
  cpp_call : Option Identifier → List Identifier → Handle → Op
  cpp_constructor_call : List Identifier → Handle → Op
  cpp_member_call : List Identifier → Handle → Op
  cpp_member_access : Identifier → Handle → Op
  cpp_builtin_operator_call : List Identifier → Handle → Op
  cpp_box : Identifier → Handle → Op
  cpp_unbox : Identifier → Identifier → Handle → Op
  cpp_new : List Identifier → Handle → Op
  cpp_delete : Identifier → Handle → Op

pub record Instruction : Type 0 where
  pub name : Identifier
  pub type : Handle
  pub location : Handle
  pub op : Op

-- The virtual `is_terminator`.
unfoldable pub is_terminator : Op → Bool
is_terminator (jump block is_loop) = true
is_terminator (branch condition then_block else_block merge_block) = true
is_terminator (loop loop_block merge_block shadow binding_shadows) = true
is_terminator (case_ shift mask value case_blocks default_block merge_block) = true
is_terminator (throw_ value) = true
is_terminator (ret value) = true
is_terminator _ = false

-- `kind == instruction_kind::nop`
unfoldable pub is_nop : Op → Bool
is_nop nop = true
is_nop _ = false

-- `kind == instruction_kind::cpp_scope_close`
unfoldable pub is_scope_close : Op → Bool
is_scope_close (cpp_scope_close scope) = true
is_scope_close _ = false
