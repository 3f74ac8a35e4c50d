-- ===== src/Tests/Builder.antt =====
-- The builder and the generation on small expressions.
use jank.Prelude.{
  put, ℕ, ◌≡◌, ◌↔◌, refl, true, false, [], ◌∷◌, ◌++◌, Option, none, some, codes, contains, ◌≤◌, ◌+◌,
  ◌⊎◌, ◌==◌, at, eq_bytes,
}
use jank.Runtime.UniqueString.{decimal, unique_string_with}
use jank.Runtime.Munge.{munge, munge_bytes, munge_byte}
use jank.Analyze.Expr.{
  Exprs, item, end, Position, value_, tail_, Node, Expr, expr, Kind, end, item, FunctionContext,
  FunctionInfo, ArityInfo, propagate_last, propagate_position, present,
}
use jank.Ir.Instruction.{Identifier, Handle, Op, is_terminator, is_scope_close}
use jank.Ir.Function.{Block, has_terminator, terminator_from_end, add_block}
use jank.Ir.Builder.{
  Builder, next_ident, current_block, ◌>>=◌, ◌>>◌, pure, unwrap, gets, modify, next_value,
  next_unused, block, block_name, enter_block, emplace_back,
}
use jank.Ir.Builder.Emit.{Host, emit, ret, return_tail, emit_at, find_constant, lifted_name}
use jank.Ir.Builder.Control
use jank.Ir.Builder.Values
use jank.Ir.Builder.Values.{lift_constant}
use jank.Ir.Builder.Fresh.{next_ident-fresh}
use jank.Ir.Builder.Emission.{
  Appended, new_instruction, returned, result_name, value_name, emit_at-Appended,
}
use jank.Ir.Builder.Lifted.{lift_constant-lifted}
use jank.Ir.Builder.Terminated.{Terminated}
use jank.Ir.Processor.{
  bind_local, yields, is_terminated, new_block, jump_unless_terminated, finish_merge,
}
use jank.Ir.Processor.Branches.{gen_if, if_blocks, unless_terminated}
use jank.Ir.Processor.Steps.{
  gen_body, open_arity, close_arity, set_location, restore_location, required, open_if,
}
use jank.Ir.Processor.Functions.{gen_recursion_reference}
use jank.Ir.Processor.Recursion.{gen_recursion_reference-unbound}
use jank.Ir.Processor.Gen.{gen, gen_each}
use jank.Analyze.Expr.Ends.{EndsAt, propagate_position-EndsAt}
use jank.Ir.Processor.Tail.{Unresolved, ends_in_local, loops_return}
use jank.Ir.Processor.Tail.Functions.{EndsUnresolved, gen_body-Terminated}
use jank.Ir.Processor.Functions.{gen_params, gen_captures}
use jank.Ir.Processor.Tail.Returns.{gen-Terminated}

-- Handles are numbered, and compared by number.
abbrev host : Host
host = record {
  void_type = 1;
  bool_type = 2;
  untyped_object_ref_type = 3;
  var_type = 4;
  persistent_list_ref_type = 5;
  persistent_vector_ref_type = 6;
  persistent_array_map_ref_type = 7;
  persistent_hash_map_ref_type = 8;
  persistent_hash_set_ref_type = 9;
  jit_function_ref_type = 10;
  jit_closure_ref_type = 11;
  jank_nil = 12;
  literal_codegen_type = λ v boxed. 3;
  is_void = λ t. t == 1;
  is_any_object = λ t. t == 3;
  is_typed_object = λ t. false;
  mutable_type = λ t. t;
  very_equal_to_with_meta = λ v w. v == w;
  very_equal_to = λ v w. v == w;
}

abbrev entry : Block
entry = record { index = 0; name = codes "entry"; instructions = [] }

abbrev start : Builder
start = record {
  mod_ = record {
    functions = [];
    lifted_constants = [];
    lifted_cpp_constants = [];
    lifted_vars = [];
  };
  fn_index = 0;
  params = [];
  fn_ctx = 20;
  blocks = entry ∷ [];
  block_index = 0;
  ident_count = 0;
  locals = [];
  local_to_loop_shadow = [];
  allowed_defers = [];
  used_identifiers = codes "v0" ∷ [];
  loop_recur_target = none;
  fn_recur_target = none;
  location = 30;
  symbol_counter = 0;
}

abbrev node : Position → Node
node pos = record { self = 40; position = pos; location = 31; type = 3; expression_type = 3 }

-- The expression `(if nil 7 [8])`
abbrev seven : Expr
seven = expr (node value_) (Kind.primitive_literal 7)

abbrev branching : Expr
branching = expr (node value_) (
    Kind.if_ (expr (node value_) (Kind.primitive_literal 12)) seven (
      present (
        expr (node value_)
          (Kind.vector (item (expr (node value_) (Kind.primitive_literal 8)) end) 0))))

next_ident-fresh_example :
    (n : ℕ) × (next_ident (codes "v") start
      ≡ some (
        codes "v" ++ decimal n,
        record start {
          ident_count = n + 1;
          used_identifiers = (codes "v" ++ decimal n) ∷ start.used_identifiers;
        },
      ))
    × (0 ≤ n)
    × (contains start.used_identifiers (codes "v" ++ decimal n) ≡ false)
next_ident-fresh_example = next_ident-fresh (codes "v") start

-- The name `v0` is used.
skips_used :
    next_ident (codes "v") start
    ≡ some (
      codes "v1",
      record start { ident_count = 2; used_identifiers = codes "v1" ∷ codes "v0" ∷ [] },
    )
unfolding next_ident contains eq_bytes decimal
skips_used = refl

emit_at-Appended_example :
    (n m : ℕ) × Appended start entry
      (new_instruction start n (Op.type_erase (codes "x")) 3 ∷ returned tail_ start n m 3)
      (result_name tail_ n m)
      (emit_at tail_ (Op.type_erase (codes "x")) 3 3 start)
    × (contains start.used_identifiers (value_name n) ≡ false)
    × (contains (value_name n ∷ start.used_identifiers) (value_name m) ≡ false)
emit_at-Appended_example =
    emit_at-Appended tail_ (Op.type_erase (codes "x")) 3 3 start entry
      (unfold current_block in refl)

lift_constant-lifted_example :
    (name : Identifier) × (b' : Builder) × (lift_constant host 7 start ≡ some (name, b'))
    × (lift_constant host 7 b' ≡ some (name, b'))
    × ((w : Handle)
        → (7 == w) ≡ false
        → find_constant host.very_equal_to_with_meta b'.mod_.lifted_constants w
          ≡ find_constant host.very_equal_to_with_meta start.mod_.lifted_constants w)
lift_constant-lifted_example = lift_constant-lifted host 7 start refl

propagate_position-EndsAt_example :
    EndsAt tail_ (propagate_position tail_ branching)
    × (EndsAt tail_ branching ↔ (propagate_position tail_ branching ≡ branching))
propagate_position-EndsAt_example = propagate_position-EndsAt tail_ branching

-- What the generation of the expression leaves, and its name.
abbrev final : Builder
final = elim (gen host 30 (some tail_) branching start) [ none ↦ start | some (r, b) ↦ b ]

abbrev final_name : Option Identifier
final_name = elim (gen host 30 (some tail_) branching start) [ none ↦ none | some (r, b) ↦ r ]

generates : gen host 30 (some tail_) branching start ≡ some (final_name, final)
unfolding gen gen_if if_blocks unless_terminated is_terminated has_terminator terminator_from_end
    is_terminator is_scope_close ◌>>=◌ ◌>>◌ pure unwrap gets modify next_ident next_value
    next_unused current_block block block_name enter_block emplace_back emit ret return_tail emit_at
    find_constant lifted_name Values.local Values.set_local Values.literal Values.lift_constant
    Values.lift_as Values.persistent_vector Control.jump Control.jump_to Control.branch
    Control.truthy yields new_block jump_unless_terminated finish_merge set_location
    restore_location required open_if contains eq_bytes decimal munge unique_string_with add_block
generates = refl

final_name_lem : final_name ≡ some (codes "v15")
unfolding gen gen_if if_blocks unless_terminated is_terminated has_terminator terminator_from_end
    is_terminator is_scope_close ◌>>=◌ ◌>>◌ pure unwrap gets modify next_ident next_value
    next_unused current_block block block_name enter_block emplace_back emit ret return_tail emit_at
    find_constant lifted_name Values.local Values.set_local Values.literal Values.lift_constant
    Values.lift_as Values.persistent_vector Control.jump Control.jump_to Control.branch
    Control.truthy yields new_block jump_unless_terminated finish_merge set_location
    restore_location required open_if contains eq_bytes decimal munge unique_string_with add_block
final_name_lem = refl

gen-Terminated_example :
    Terminated final ⊎ ((ends_in_local branching ≡ true) × Unresolved final_name)
gen-Terminated_example =
    gen-Terminated host 30 branching start final_name final (unfold loops_return in refl) generates

-- A function `f-g`, whose name is munged to `f_g`.
abbrev context : FunctionContext
context = record {
  id = 21;
  name = codes "f-g";
  fn_unique_name = codes "f-g-1";
  fn_is_variadic = false;
  param_count = 0;
  is_variadic = false;
  is_recur_recursive = false;
}

gen_recursion_reference-unbound_example :
    (b' b'' : Builder) × (bind_local (munge (codes "f-g")) (codes "v5") start ≡ some (tt, b'))
    × (at b'.locals (munge (codes "f-g")) ≡ some (codes "v5"))
    × (gen_recursion_reference host value_ 3 context b' ≡ some (some [], b''))
gen_recursion_reference-unbound_example =
    gen_recursion_reference-unbound host 3 context (codes "v5") start refl (unfold at in refl)
      (unfold munge munge_bytes munge_byte eq_bytes contains in refl)

-- A function whose body is the expression.
abbrev info : FunctionInfo
info = record { name = codes "f"; unique_name = codes "f-1"; is_variadic = false }

abbrev no_params : ArityInfo
no_params = record { params = []; captures = []; fn_ctx = context }

abbrev values : Exprs
values = item branching end

abbrev body : Builder → Option (Unit {0} × Builder)
body =
    gen_body host info no_params (propagate_last tail_ values)
      (gen_each host 30 none (propagate_last tail_ values))

abbrev body_final : Builder
body_final = elim (body start) [ none ↦ start | some (r, b) ↦ b ]

body_generates : body start ≡ some (tt, body_final)
unfolding propagate_position gen_body open_arity close_arity gen_params gen_captures bind_local put
    Control.cpp_scope_open Control.cpp_scope_close Values.parameter munge_bytes munge_byte gen
    gen_if if_blocks unless_terminated is_terminated has_terminator terminator_from_end
    is_terminator is_scope_close ◌>>=◌ ◌>>◌ pure unwrap gets modify next_ident next_value
    next_unused current_block block block_name enter_block emplace_back emit ret return_tail emit_at
    find_constant lifted_name Values.local Values.set_local Values.literal Values.lift_constant
    Values.lift_as Values.persistent_vector Control.jump Control.jump_to Control.branch
    Control.truthy yields new_block jump_unless_terminated finish_merge set_location
    restore_location required open_if contains eq_bytes decimal munge unique_string_with add_block
body_generates = refl

gen_body-Terminated_example :
    Terminated body_final ⊎ EndsUnresolved host 30 info no_params values start
gen_body-Terminated_example =
    gen_body-Terminated host 30 info no_params values start body_final refl
      (unfold loops_return in refl) body_generates
