-- ===== src/Ir/Processor/Tail/Returns.antt =====
-- Expressions in tail position: compiler+runtime/src/cpp/jank/ir/processor.cpp.
use jank.Prelude.{
  ◌⊎◌, Bytes, ◌≡◌, refl, Bool, true, false, not, Option, none, some, and_left, and_right, not-true,
  inl, inr,
}
use jank.Analyze.Expr.{
  tail_, Node, normal, loop_with_recur, loop_without_recur, Expr, expr, Kind, absent, present,
  Exprs, end, item,
}
use jank.Ir.Instruction.{Identifier, Handle, is_terminator, is_scope_close}
use jank.Ir.Builder.{Builder, unwrap, current_block}
use jank.Ir.Builder.Emit.{Host, CppExpr}
use jank.Ir.Builder.Values
use jank.Ir.Builder.Control
use jank.Ir.Builder.Cpp
use jank.Ir.Builder.Ensures.{
  Ensures, Any, bind-Any, bind-Ensures, then-Any, then-Ensures, pure-Ensures, modify-Ensures,
}
use jank.Ir.Builder.Terminated.{
  Terminated, return_tail-Terminated, emit_at-Terminated, emit-Terminated,
}
use jank.Ir.Processor.{binding_nodes}
use jank.Ir.Processor.Steps.{restore_location}
use jank.Ir.Processor.Gen.{gen, gen_kind, gen_do}
use jank.Ir.Processor.Tail.{
  Unresolved, Ended, ends_in_local, kind_ends_in_local, last_ends_in_local, loops_return,
  kind_loops_return, last_loops_return,
}
use jank.Ir.Processor.Tail.Parts.{
  keeps-Ended, yields-Ended, gen_let-Ended, gen_letfn-Ended, finish_do-Ended, finish_empty_do-Ended,
  last_do-Ended, next_do-Ended,
}
use jank.Ir.Processor.Tail.Branches.{
  gen_if-Ended, gen_try-Ended, gen_case-Ended, gen_local_reference-Ended, gen_map-Ended,
  gen_callable-Ended, recur_with-Ended, gen_recursion_reference-Ended, gen_named_recursion-Ended,
}

module _ (host : Host) where
  var_deref-Terminated :
      (name : Bytes) {P : Builder → Type 0}
      → Ensures P (Values.var_deref host tail_ name) (λ _ b. Terminated b)
  unfolding Values.var_deref
  var_deref-Terminated name = bind-Any _ _ λ ident. bind-Any _ _ λ lifted.
      then-Any _ _ (bind-Any _ _ λ location. then-Any _ _ (return_tail-Terminated ident _))

  var_ref-Terminated :
      (name : Bytes) {P : Builder → Type 0}
      → Ensures P (Values.var_ref host tail_ name) (λ _ b. Terminated b)
  unfolding Values.var_ref
  var_ref-Terminated name = bind-Any _ _ λ lifted. then-Any _ _ (emit_at-Terminated _ _ _)

  literal-Terminated :
      (v : Handle) {P : Builder → Type 0}
      → Ensures P (Values.literal host tail_ v) (λ _ b. Terminated b)
  unfolding Values.literal
  literal-Terminated v = bind-Any _ _ λ lifted. emit_at-Terminated _ _ _

  cpp_conversion-Terminated :
      (value : Identifier) (into_object : Bool) (e : CppExpr) {P : Builder → Type 0}
      → e.position ≡ tail_
      → Ensures P (Cpp.cpp_conversion host value into_object e) (λ _ b. Terminated b)
  unfolding Cpp.cpp_conversion
  cpp_conversion-Terminated value into_object e at_tail =
      bind-Any _ _
        λ next. bind-Any _ _ λ name. rw at_tail (return_tail-Terminated name e.expression_type)

-- Nothing is asked where an expression follows.
abbrev From : Option Identifier → Exprs → Builder → Type 0
From name end = Ended false name
From name (item e es) = Any

module _ (host : Host) (unknown : Handle) where
  mutual
    unfolding gen ends_in_local loops_return restore_location current_block Values.def
        Values.persistent_list Values.persistent_vector Values.persistent_hash_set
        Control.dynamic_call Control.throw_ is_terminator is_scope_close Cpp.cpp_raw Cpp.cpp_value
        Cpp.cpp_literal Cpp.cpp_unsafe_cast Cpp.cpp_call Cpp.cpp_constructor_call
        Cpp.cpp_member_call Cpp.cpp_member_access Cpp.cpp_builtin_operator_call Cpp.cpp_box
        Cpp.cpp_unbox Cpp.cpp_new Cpp.cpp_delete unwrap

    pub expr-Ended :
        (e : Expr)
        → loops_return e ≡ true
        → Ensures Any (gen host unknown (some tail_) e) (Ended (ends_in_local e))
    expr-Ended (expr n k) loops = bind-Any _ _ λ prev_location.
        bind-Ensures (Ended (kind_ends_in_local k)) (kind-Ended n k loops) λ name.
          then-Ensures (λ b. Ended (kind_ends_in_local k) name b)
            (keeps-Ended (kind_ends_in_local k) name _ (
              modify-Ensures _ λ b t. record {
                block = t.block;
                is_current = t.is_current;
                terminates = t.terminates;
              }))
            (pure-Ensures name λ b ended. ended)

    kind-Ended :
        (n : Node) (k : Kind)
        → kind_loops_return k ≡ true
        → Ensures Any (gen_kind host unknown (some tail_) n k) (Ended (kind_ends_in_local k))
    kind-Ended n (Kind.def name value meta is_dynamic) loops =
        bind-Any _ _ λ value_ident. yields-Ended false _ (emit_at-Terminated _ _ _)
    kind-Ended n (Kind.var_deref name) loops = yields-Ended false _ (var_deref-Terminated host name)
    kind-Ended n (Kind.var_ref name) loops = yields-Ended false _ (var_ref-Terminated host name)
    kind-Ended n (Kind.call source args) loops =
        bind-Any _ _ λ args. bind-Any _ _ λ fn. yields-Ended false _ (emit_at-Terminated _ _ _)
    kind-Ended n (Kind.primitive_literal data_) loops =
        yields-Ended false _ (literal-Terminated host data_)
    kind-Ended n (Kind.list exprs meta) loops =
        bind-Any _ _ λ values. yields-Ended false _ (emit_at-Terminated _ _ _)
    kind-Ended n (Kind.vector exprs meta) loops =
        bind-Any _ _ λ values. yields-Ended false _ (emit_at-Terminated _ _ _)
    kind-Ended n (Kind.set exprs meta) loops =
        bind-Any _ _ λ values. yields-Ended false _ (emit_at-Terminated _ _ _)
    kind-Ended n (Kind.map pairs meta) loops =
        bind-Any _ _ λ values. gen_map-Ended host _ values meta false
    kind-Ended n (Kind.local_reference name) loops =
        gen_local_reference-Ended host n.expression_type name
    kind-Ended n (Kind.function info fns) loops =
        bind-Any _ _ λ flags. bind-Any _ _ λ names. gen_callable-Ended host info _ names flags false
    kind-Ended n (Kind.recur target args) loops =
        bind-Any _ _ λ args. recur_with-Ended host target args false
    kind-Ended n (Kind.recursion_reference ctx) loops =
        gen_recursion_reference-Ended host n.expression_type ctx false
    kind-Ended n (Kind.named_recursion ctx args) loops =
        bind-Any _ _ λ args. gen_named_recursion-Ended host ctx args false
    kind-Ended n (Kind.let_ normal pairs body) loops =
        gen_let-Ended host normal n.type (binding_nodes pairs) _ (ends_in_local body) _
          (expr-Ended body loops) λ e. cc
    kind-Ended n (Kind.let_ loop_without_recur pairs body) loops =
        gen_let-Ended host loop_without_recur n.type (binding_nodes pairs) _ (ends_in_local body) _
          (expr-Ended body loops) λ e. cc
    kind-Ended n (Kind.let_ loop_with_recur pairs body) loops =
        let no_local = not-true (and_left (not (ends_in_local body)) (loops_return body) loops) in
        gen_let-Ended host loop_with_recur n.type (binding_nodes pairs) _ false _
          (rw no_local at
            (expr-Ended body (and_right (not (ends_in_local body)) (loops_return body) loops)))
          λ e. refl
    kind-Ended n (Kind.letfn pairs body) loops =
        gen_letfn-Ended host _ _ (ends_in_local body) _ (expr-Ended body loops)
    kind-Ended n (Kind.do_ end) loops = finish_empty_do-Ended host false
    kind-Ended n (Kind.do_ (item e es)) loops = do-Ended none (item e es) loops
    kind-Ended n (Kind.if_ condition then_ else_) loops = gen_if-Ended host n.type _ _ _ _ false
    kind-Ended n (Kind.throw_ absent) loops = yields-Ended false _ (emit-Terminated _ _ refl refl)
    kind-Ended n (Kind.throw_ (present value)) loops =
        bind-Any _ _ λ name. yields-Ended false _ (emit-Terminated _ _ refl refl)
    kind-Ended n (Kind.try_ body handlers finally_body) loops =
        gen_try-Ended host n.type _ _ _ false
    kind-Ended n (Kind.case_ shift mask value default_expr cases) loops =
        gen_case-Ended host n.type shift mask _ _ _ false
    kind-Ended n Kind.cpp_raw loops = yields-Ended false _ (emit_at-Terminated _ _ _)
    kind-Ended n Kind.cpp_value loops = yields-Ended false _ (emit_at-Terminated _ _ _)
    kind-Ended n Kind.cpp_type loops = record { at_return = λ b p r b' e. cc e }
    kind-Ended n (Kind.cpp_literal data_) loops =
        yields-Ended false _ (bind-Any _ _ λ lifted. emit_at-Terminated _ _ _)
    kind-Ended n (Kind.cpp_conversion into_object type value) loops =
        bind-Any _ _ λ name. yields-Ended false _ (cpp_conversion-Terminated host _ _ _ refl)
    kind-Ended n (Kind.cpp_unsafe_cast value) loops =
        bind-Any _ _ λ x. yields-Ended false _ (emit_at-Terminated _ _ _)
    kind-Ended n (Kind.cpp_constructor_call args) loops =
        bind-Any _ _ λ x. yields-Ended false _ (emit_at-Terminated _ _ _)
    kind-Ended n (Kind.cpp_member_call args) loops =
        bind-Any _ _ λ x. yields-Ended false _ (emit_at-Terminated _ _ _)
    kind-Ended n (Kind.cpp_member_access obj) loops =
        bind-Any _ _ λ x. yields-Ended false _ (emit_at-Terminated _ _ _)
    kind-Ended n (Kind.cpp_builtin_operator_call args) loops =
        bind-Any _ _ λ x. yields-Ended false _ (emit_at-Terminated _ _ _)
    kind-Ended n (Kind.cpp_box value) loops =
        bind-Any _ _ λ x. yields-Ended false _ (emit_at-Terminated _ _ _)
    kind-Ended n (Kind.cpp_new args) loops =
        bind-Any _ _ λ x. yields-Ended false _ (emit_at-Terminated _ _ _)
    kind-Ended n (Kind.cpp_delete value) loops =
        bind-Any _ _ λ x. yields-Ended false _ (emit_at-Terminated _ _ _)
    kind-Ended n (Kind.cpp_call source args) loops =
        bind-Any _ _ λ args. bind-Any _ _ λ value. yields-Ended false _ (emit_at-Terminated _ _ _)
    kind-Ended n (Kind.cpp_unbox meta value) loops =
        bind-Any _ _
          λ name. bind-Any _ _ λ meta_name. yields-Ended false _ (emit_at-Terminated _ _ _)

    do-Ended :
        (name : Option Identifier) (values : Exprs)
        → last_loops_return values ≡ true
        → Ensures
            (From name values)
            (gen_do host unknown (some tail_) tail_ name values)
            (Ended (last_ends_in_local values))
    do-Ended name end loops = finish_do-Ended host false name
    do-Ended name (item e end) loops =
        last_do-Ended host (ends_in_local e) _ _ (expr-Ended e loops)
          λ name'. finish_do-Ended host (ends_in_local e) name'
    do-Ended name (item e (item e' es)) loops =
        next_do-Ended host (last_ends_in_local (item e' es)) _ _
          λ name'. do-Ended name' (item e' es) loops

  -- Code that is generated for an expression in tail position and returns leaves the current block
  -- with a terminator, where no loop in tail position that `recur` targets has a reference to a
  -- local as the value of its body; unless the value of the expression itself is a reference to a
  -- local that is deferred, or not there.
  pub gen-Terminated :
      (e : Expr) (b : Builder) (r : Option Identifier) (b' : Builder)
      → loops_return e ≡ true
      → gen host unknown (some tail_) e b ≡ some (r, b')
      → Terminated b' ⊎ ((ends_in_local e ≡ true) × Unresolved r)
  unfolding Ended
  gen-Terminated e b r b' loops returns =
      how (ends_in_local e) refl ((expr-Ended e loops).at_return b tt r b' returns)
    where
      how :
          (t : Bool)
          → ends_in_local e ≡ t
          → Ended t r b'
          → Terminated b' ⊎ ((ends_in_local e ≡ true) × Unresolved r)
      how false is_local ended = inl ended
      how true is_local (inl ended) = inl ended
      how true is_local (inr unresolved) = inr (is_local, unresolved)
