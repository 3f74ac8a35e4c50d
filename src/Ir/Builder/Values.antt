-- ===== src/Ir/Builder/Values.antt =====
-- Emission of values: compiler+runtime/src/cpp/jank/ir/builder.cpp, from `parameter` to
-- `type_erase`.
use jank.Prelude.{
  ℕ, Bool, true, false, List, ◌∷◌, map, Option, none, some, if◌then◌else◌, Bytes, codes, ◌==◌, at,
  put,
}
use jank.Runtime.Munge.{munge}
use jank.Ir.Instruction.{Identifier, Handle, Op, TypedIdentifier}
use jank.Analyze.Expr.{Position}
use jank.Ir.Builder.{LiftedVar, M, pure, ◌>>=◌, ◌>>◌, gets, modify, next_value, emplace_back}
use jank.Ir.Builder.Emit.{Host, emit, emit_at, return_tail, find_constant, lifted_name}

-- `lifted_vars.emplace(...)`, which keeps an entry that is there.
unfoldable pub emplace_var : Bytes → LiftedVar → M (Unit {0})
emplace_var qualified_var v = modify λ b. elim (at b.mod_.lifted_vars qualified_var) [
  | none ↦ record b {
    mod_ = record b.mod_ { lifted_vars = put b.mod_.lifted_vars qualified_var v };
  }
  | some w ↦ b
]

-- `munge_and_replace(us, "\\.", "_")`
unfoldable pub replace_dots : Bytes → Bytes
replace_dots s = map (λ c. if c == b'.' then b'_' else c) s

-- `munge_and_replace(unique_string(qualified_var), "\\.", "_")`
unfoldable pub lifted_var_name : Bytes → M Identifier
unfolding replace_dots
lifted_var_name qualified_var = do us ← lifted_name qualified_var; pure (replace_dots us)

module _ (host : Host) where
  unfoldable pub parameter : Position → Bytes → M Identifier
  unfolding return_tail
  parameter pos value = do
    let name = munge value
    let type = host.untyped_object_ref_type
    modify λ b. record b { used_identifiers = name ∷ b.used_identifiers }
    location ← gets λ b. b.location
    emplace_back (record { name = name; type = type; location = location; op = Op.parameter })
    return_tail pos name type

  unfoldable pub capture : Position → Handle → Bytes → M Identifier
  unfolding emit_at
  capture pos type value = emit_at pos (Op.capture value) type type

  -- The name under which a constant is lifted, as it was found or not.
  unfoldable pub lift_as : Handle → Option Identifier → M Identifier
  lift_as value none = do
    name ← lifted_name (codes "const")
    modify λ b. record b {
      mod_ = record b.mod_ { lifted_constants = (value, name) ∷ b.mod_.lifted_constants };
    }
    pure name
  lift_as value (some name) = pure name

  unfoldable pub lift_constant : Handle → M Identifier
  unfolding find_constant lift_as
  lift_constant value = do
    constants ← gets λ b. b.mod_.lifted_constants
    lift_as value (find_constant host.very_equal_to_with_meta constants value)

  unfoldable pub literal : Position → Handle → M Identifier
  unfolding lift_constant emit_at
  literal pos value = do
    let type = host.literal_codegen_type value true
    lifted ← lift_constant value
    emit_at pos (Op.literal value lifted) type type

  unfoldable pub persistent_list : Position → List Identifier → Handle → M Identifier
  unfolding emit_at
  persistent_list pos values meta =
      let type = host.persistent_list_ref_type in
      emit_at pos (Op.persistent_list values meta) type type

  unfoldable pub persistent_vector : Position → List Identifier → Handle → M Identifier
  unfolding emit_at
  persistent_vector pos values meta =
      let type = host.persistent_vector_ref_type in
      emit_at pos (Op.persistent_vector values meta) type type

  unfoldable pub persistent_array_map :
      Position → List (Identifier × Identifier) → Handle → M Identifier
  unfolding emit_at
  persistent_array_map pos values meta =
      let type = host.persistent_array_map_ref_type in
      emit_at pos (Op.persistent_array_map values meta) type type

  unfoldable pub persistent_hash_map :
      Position → List (Identifier × Identifier) → Handle → M Identifier
  unfolding emit_at
  persistent_hash_map pos values meta =
      let type = host.persistent_hash_map_ref_type in
      emit_at pos (Op.persistent_hash_map values meta) type type

  unfoldable pub persistent_hash_set : Position → List Identifier → Handle → M Identifier
  unfolding emit_at
  persistent_hash_set pos values meta =
      let type = host.persistent_hash_set_ref_type in
      emit_at pos (Op.persistent_hash_set values meta) type type

  unfoldable pub function : Position → List (ℕ × Bytes) → Handle → Bool → M Identifier
  unfolding emit_at
  function pos arities arity_flags is_variadic =
      let type = host.jit_function_ref_type in
      emit_at pos (Op.function arities arity_flags is_variadic) type type

  unfoldable pub closure :
      Position
      → Bytes
      → List (ℕ × Bytes)
      → List (Bytes × TypedIdentifier)
      → Handle
      → Bool
      → M Identifier
  unfolding emit_at
  closure pos context arities captures arity_flags is_variadic =
      let type = host.jit_closure_ref_type in
      emit_at pos (Op.closure context arities captures arity_flags is_variadic) type type

  unfoldable pub letfn : List Bytes → M Identifier
  unfolding emit
  letfn bindings = emit (Op.letfn bindings) host.void_type

  unfoldable pub local : Handle → M Identifier
  unfolding emit
  local type = emit Op.local type

  unfoldable pub set_local : Identifier → Identifier → M Identifier
  unfolding emit
  set_local loc value = emit (Op.set_local loc value) host.void_type

  unfoldable pub def : Position → Bytes → Option Identifier → Handle → Bool → M Identifier
  unfolding emit_at
  def pos qualified_var value meta is_dynamic =
      let type = host.var_type in emit_at pos (Op.def qualified_var value meta is_dynamic) type type

  -- The counter of generated names moves on, used or not.
  unfoldable pub var_deref : Position → Bytes → M Identifier
  unfolding lifted_var_name emplace_var return_tail
  var_deref pos qualified_var = do
    name ← next_value
    lifted ← lifted_var_name qualified_var
    emplace_var qualified_var (record { name = lifted; owned = false })
    location ← gets λ b. b.location
    let type = host.untyped_object_ref_type
    emplace_back
        (record { name = name; type = type; location = location; op = Op.var_deref qualified_var })
    return_tail pos name type

  unfoldable pub var_ref : Position → Bytes → M Identifier
  unfolding lifted_var_name emplace_var emit_at
  var_ref pos qualified_var = do
    lifted ← lifted_var_name qualified_var
    emplace_var qualified_var (record { name = lifted; owned = false })
    let type = host.var_type
    emit_at pos (Op.var_ref qualified_var) type type

  unfoldable pub type_erase : Position → Identifier → M Identifier
  unfolding emit_at
  type_erase pos value =
      let type = host.untyped_object_ref_type in emit_at pos (Op.type_erase value) type type
