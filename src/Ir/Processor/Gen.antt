-- ===== src/Ir/Processor/Gen.antt =====
-- The generation of instructions for analysed expressions:
-- compiler+runtime/src/cpp/jank/ir/processor.cpp, `gen` and the loop of `create`. `gen` sets the
-- location of the instructions, `gen_typed` is an overload for one kind of expression. `at` is the
-- position that the expression around propagates to this one before its instructions are
-- generated, if it does. The arguments of a call in C++ are evaluated from the left, as clang does.
use jank.Prelude.{ℕ, ◌%◌, Bool, true, false, List, [], ◌∷◌, Option, none, some, length, Bytes, leb}
use jank.Runtime.Munge.{munge}
use jank.Analyze.Expr.{
  Position, value_, Node, FunctionInfo, Expr, expr, Kind, OptionalExpr, absent, present, Exprs, end,
  item, ExprPairs, no_pairs, pair, Bindings, no_bindings, bind, Catches, no_catches, Cases,
  no_cases, Arities, no_arities, arity,
}
use jank.Ir.Instruction.{Identifier, Handle}
use jank.Ir.Builder.{M, pure, ◌>>=◌, ◌>>◌, unwrap}
use jank.Ir.Builder.Emit.{Host}
use jank.Ir.Builder.Values
use jank.Ir.Builder.Control
use jank.Ir.Builder.Cpp
use jank.Ir.Processor.{
  expression_type_of, type_of, arity_flags, position_at, cpp_expr, yields, bind_local,
  binding_nodes, contexts, captures_of, put_number, gen_local_reference,
}
use jank.Ir.Processor.Steps.{
  set_location, restore_location, is_loop, is_cpp_value, last_at, count_pairs, max_map, defer_names,
  required, gen_arity, finish_do, gen_map, gen_callable,
}
use jank.Ir.Processor.Branches.{
  gen_let, gen_letfn, next_do, gen_if, gen_finally, gen_catch, gen_try, gen_case_block, gen_case,
}
use jank.Ir.Processor.Loops.{erase_binding, recur_with}
use jank.Ir.Processor.Functions.{gen_recursion_reference, gen_named_recursion}

-- `unknown` is the location of a new builder.
module _ (host : Host) (unknown : Handle) where
  unfoldable mutual
    unfolding yields bind_local set_location restore_location erase_binding recur_with finish_do
        required gen_arity gen_let gen_letfn next_do gen_if gen_finally gen_catch gen_try
        gen_case_block gen_case

    pub gen : Option Position → Expr → M (Option Identifier)
    gen at (expr n k) = do
      prev_location ← set_location n.location
      name ← gen_kind at n k
      restore_location prev_location
      pure name

    -- An overload of `gen` for a kind of expression.
    pub gen_typed : Option Position → Expr → M (Option Identifier)
    gen_typed at (expr n k) = gen_kind at n k

    pub gen_kind : Option Position → Node → Kind → M (Option Identifier)
    gen_kind at n (Kind.def name value meta is_dynamic) = do
      value_ident ← gen_optional value
      yields (Values.def host (position_at at n) name value_ident meta is_dynamic)
    gen_kind at n (Kind.var_deref name) = yields (Values.var_deref host (position_at at n) name)
    gen_kind at n (Kind.var_ref name) = yields (Values.var_ref host (position_at at n) name)
    gen_kind at n (Kind.call source args) = do
      arg_idents ← gen_values args
      fn_ident ← required (gen none source)
      yields (Control.dynamic_call host (position_at at n) fn_ident arg_idents)
    gen_kind at n (Kind.primitive_literal data_) =
        yields (Values.literal host (position_at at n) data_)
    gen_kind at n (Kind.list exprs meta) = do
      values ← gen_values exprs
      yields (Values.persistent_list host (position_at at n) values meta)
    gen_kind at n (Kind.vector exprs meta) = do
      values ← gen_values exprs
      yields (Values.persistent_vector host (position_at at n) values meta)
    gen_kind at n (Kind.map pairs meta) = do
      values ← gen_pairs pairs
      gen_map host (position_at at n) (leb (count_pairs pairs) max_map) values meta
    gen_kind at n (Kind.set exprs meta) = do
      values ← gen_values exprs
      yields (Values.persistent_hash_set host (position_at at n) values meta)
    gen_kind at n (Kind.local_reference name) =
        gen_local_reference (position_at at n) n.expression_type name
    gen_kind at n (Kind.function info arities) = do
      flags ← unwrap (arity_flags (contexts arities))
      names ← gen_arities info [] arities
      gen_callable host (position_at at n) info (captures_of [] arities) names flags
    gen_kind at n (Kind.recur target args) = do
      arg_idents ← gen_values args
      recur_with host target arg_idents
    gen_kind at n (Kind.recursion_reference ctx) =
        gen_recursion_reference host (position_at at n) n.expression_type ctx
    gen_kind at n (Kind.named_recursion ctx args) = do
      arg_idents ← gen_values args
      gen_named_recursion host (position_at at n) ctx arg_idents
    gen_kind at n (Kind.let_ kind pairs body) =
        gen_let host kind (position_at at n) n.type (binding_nodes pairs)
          (gen_bindings (is_loop kind) pairs) (gen at body)
    gen_kind at n (Kind.letfn pairs body) =
        gen_letfn host (defer_names pairs) (gen_functions pairs) (gen at body)
    gen_kind at n (Kind.do_ values) = gen_do at (position_at at n) none values
    gen_kind at n (Kind.if_ condition then_ else_) =
        gen_if host (position_at at n) n.type (expression_type_of condition)
          (required (gen none condition)) (gen (some value_) then_) (gen_else else_)
    gen_kind at n (Kind.throw_ absent) = yields (Control.throw_ host none)
    gen_kind at n (Kind.throw_ (present value)) = do
      name ← required (gen none value)
      yields (Control.throw_ host (some (record { name = name; type = type_of value })))
    gen_kind at n (Kind.try_ body catches finally_body) =
        gen_try host (position_at at n) n.type
          (λ merge_blk. gen_finally_body merge_blk finally_body)
          (λ jump_blk merge_blk loc finally_blk.
            gen_catches jump_blk merge_blk loc finally_blk catches)
          (gen_typed (some value_) body)
    gen_kind at n (Kind.case_ shift mask value default_expr cases) =
        gen_case host (position_at at n) n.type shift mask (required (gen none value))
          (λ merge_blk loc. gen_cases merge_blk loc [] cases) (gen (some value_) default_expr)
    gen_kind at n Kind.cpp_raw = yields (Cpp.cpp_raw host (cpp_expr at n))
    -- The exception.
    gen_kind at n Kind.cpp_type = unwrap none
    gen_kind at n Kind.cpp_value = yields (Cpp.cpp_value host (cpp_expr at n))
    gen_kind at n (Kind.cpp_literal data_) = yields (Cpp.cpp_literal host (position_at at n) data_)
    gen_kind at n (Kind.cpp_conversion into_object type value) = do
      name ← required (gen none value)
      yields (Cpp.cpp_conversion host name into_object (record (cpp_expr at n) { type = type }))
    gen_kind at n (Kind.cpp_unsafe_cast value) = do
      name ← required (gen none value)
      yields (Cpp.cpp_unsafe_cast host name (cpp_expr at n))
    gen_kind at n (Kind.cpp_call source args) = do
      names ← gen_values args
      value ← elim (is_cpp_value source) [
        | true ↦ pure none
        | false ↦ yields (required (gen none source))
      ]
      yields (Cpp.cpp_call host value names (cpp_expr at n))
    gen_kind at n (Kind.cpp_constructor_call args) = do
      names ← gen_values args
      yields (Cpp.cpp_constructor_call host names (cpp_expr at n))
    gen_kind at n (Kind.cpp_member_call args) = do
      names ← gen_values args
      yields (Cpp.cpp_member_call host names (cpp_expr at n))
    gen_kind at n (Kind.cpp_member_access obj) = do
      name ← required (gen none obj)
      yields (Cpp.cpp_member_access host name (cpp_expr at n))
    gen_kind at n (Kind.cpp_builtin_operator_call args) = do
      names ← gen_values args
      yields (Cpp.cpp_builtin_operator_call host names (cpp_expr at n))
    gen_kind at n (Kind.cpp_box value) = do
      name ← required (gen none value)
      yields (Cpp.cpp_box host name (cpp_expr at n))
    gen_kind at n (Kind.cpp_unbox meta value) = do
      name ← required (gen none value)
      meta_name ← Values.literal host value_ meta
      yields (Cpp.cpp_unbox host name meta_name (cpp_expr at n))
    gen_kind at n (Kind.cpp_new args) = do
      names ← gen_values args
      yields (Cpp.cpp_new host names (cpp_expr at n))
    gen_kind at n (Kind.cpp_delete value) = do
      name ← required (gen none value)
      yields (Cpp.cpp_delete host name (cpp_expr at n))

    pub gen_values : Exprs → M (List Identifier)
    gen_values end = pure []
    gen_values (item e es) = do
      name ← required (gen none e)
      names ← gen_values es
      pure (name ∷ names)

    pub gen_pairs : ExprPairs → M (List (Identifier × Identifier))
    gen_pairs no_pairs = pure []
    gen_pairs (pair k v ps) = do
      key ← required (gen none k)
      value ← required (gen none v)
      names ← gen_pairs ps
      pure ((key, value) ∷ names)

    -- The value of a `def`.
    pub gen_optional : OptionalExpr → M (Option Identifier)
    gen_optional absent = pure none
    gen_optional (present e) = gen none e

    pub gen_else : OptionalExpr → M (Option Identifier)
    gen_else absent = yields (Values.literal host value_ host.jank_nil)
    gen_else (present e) = gen (some value_) e

    pub gen_bindings : Bool → Bindings → M (Unit {0})
    gen_bindings erased no_bindings = pure tt
    gen_bindings erased (bind symbol e pairs) = do
      value ← required (gen none e)
      bind_local (munge symbol) value
      erase_binding host erased (munge symbol) (type_of e)
      gen_bindings erased pairs

    pub gen_functions : Bindings → M (Unit {0})
    gen_functions no_bindings = pure tt
    gen_functions (bind symbol e pairs) = do
      res ← gen_typed none e
      value ← unwrap res
      bind_local (munge symbol) value
      gen_functions pairs

    -- The loop of a `do`, with the name so far.
    pub gen_do : Option Position → Position → Option Identifier → Exprs → M (Option Identifier)
    gen_do at pos name end = finish_do host pos name
    gen_do at pos name (item e es) =
        next_do host (gen (last_at at es) e) (λ name'. gen_do at pos name' es)

    -- The block to jump to behind the bodies, and the name of the `finally` block.
    pub gen_finally_body : ℕ → OptionalExpr → M (ℕ × Option Identifier)
    gen_finally_body merge_blk absent = pure (merge_blk, none)
    gen_finally_body merge_blk (present body) = gen_finally host merge_blk (gen_typed none body)

    pub gen_catches :
        ℕ → ℕ → Identifier → Option Identifier → Catches → M (List (Handle × Identifier))
    gen_catches jump_blk merge_blk loc finally_blk no_catches = pure []
    gen_catches jump_blk merge_blk loc finally_blk (Catches.catch_ sym type body rest) =
        gen_catch host jump_blk merge_blk loc finally_blk sym type (gen_typed (some value_) body)
          (gen_catches jump_blk merge_blk loc finally_blk rest)

    pub gen_cases :
        ℕ → Identifier → List (Handle × Identifier) → Cases → M (List (Handle × Identifier))
    gen_cases merge_blk loc blocks no_cases = pure blocks
    gen_cases merge_blk loc blocks (Cases.case_expr key e rest) =
        gen_case_block host merge_blk loc blocks key (gen (some value_) e)
          (λ blocks'. gen_cases merge_blk loc blocks' rest)

    -- The arities of a function, by the number of parameters as an 8-bit number.
    pub gen_arities : FunctionInfo → List (ℕ × Bytes) → Arities → M (List (ℕ × Bytes))
    gen_arities info names no_arities = pure names
    gen_arities info names (arity a values rest) = do
      name ← gen_arity host unknown info a values (gen_each none values)
      gen_arities info (put_number names (length a.params % 256) name) rest

    -- The loop over a body's expressions, with the result so far.
    pub gen_each : Option Identifier → Exprs → M (Option Identifier)
    gen_each res end = pure res
    gen_each res (item e es) = do res' ← gen none e; gen_each res' es
