-- ===== src/Ir/Processor/Tail/Functions.antt =====
-- The bodies of functions, which stand in tail position:
-- compiler+runtime/src/cpp/jank/ir/processor.cpp.
use mathlib.Core.Path.{subst}
use jank.Ir.Processor.Functions.{open_recur, close_recur}
use jank.Prelude.{◌≡◌, refl, sym, Bool, true, false, Option, none, some, ◌⊎◌, inl, inr}
use jank.Analyze.Expr.{
  tail_, Expr, Exprs, end, item, FunctionInfo, ArityInfo, propagate_position, propagate_last,
}
use jank.Ir.Instruction.{Identifier, Handle}
use jank.Ir.Builder.{Builder, M, pure, ◌>>=◌, ◌>>◌}
use jank.Ir.Builder.Emit.{Host}
use jank.Ir.Builder.Values
use jank.Ir.Builder.Control
use jank.Ir.Builder.Ensures.{
  Ensures, Any, bind-Any, bind-Ensures, then-Any, then-Ensures, pure-Ensures, weaken,
}
use jank.Ir.Builder.Terminated.{Terminated, cpp_scope_close-Terminated, emit_at-Terminated}
use jank.Ir.Processor.Steps.{gen_body, open_arity, close_arity}
use jank.Ir.Processor.Gen.{gen, gen_each}
use jank.Ir.Processor.Positions.{gen-propagate_position}
use jank.Ir.Processor.Tail.{
  Unresolved, Ended, loops_return, ends_in_local, last_ends_in_local, last_loops_return,
}
use jank.Ir.Processor.Tail.Returns.{expr-Ended}

module _ (host : Host) (unknown : Handle) where
  -- The last expression of a body, to which the position was propagated.
  last-Ended :
      (e : Expr) (es : Exprs) (res : Option Identifier)
      → last_loops_return (item e es) ≡ true
      → Ensures Any
          (gen_each host unknown res (propagate_last tail_ (item e es)))
          (Ended (last_ends_in_local (item e es)))
  unfolding gen propagate_position loops_return ends_in_local
  last-Ended e end res loops =
      bind-Ensures (Ended (last_ends_in_local (item e end)))
        (subst (λ m. Ensures Any m (Ended (last_ends_in_local (item e end))))
          (sym (gen-propagate_position host unknown tail_ e)) (expr-Ended host unknown e loops))
        λ res'. pure-Ensures res' λ b ended. ended
  last-Ended e (item e' end) res loops = bind-Any _ _ λ res'. last-Ended e' end res' loops
  last-Ended e (item e' (item e'' es)) res loops =
      bind-Any _ _ λ res'. last-Ended e' (item e'' es) res' loops

  module _ (info : FunctionInfo) (a : ArityInfo) (values : Exprs) (b : Builder) where
    abbrev body : M (Option Identifier)
    body = gen_each host unknown none (propagate_last tail_ values)

    -- The parameters and captures are bound: `c` is where the body begins.
    abbrev Opened : Identifier → Builder → Type 0
    Opened scope c = open_arity host info a b ≡ some (scope, c)

    -- The body ends in a reference to a local that is deferred, or not there, although the
    -- parameters and captures are bound.
    pub record EndsUnresolved : Type 0 where
      pub ends_in_local : last_ends_in_local values ≡ true
      pub scope : Identifier
      pub opened : Builder
      pub opens : Opened scope opened
      pub result : Option Identifier
      pub generated : Builder
      pub generates : body opened ≡ some (result, generated)
      pub unresolved : Unresolved result

    abbrev Closed : Builder → Type 0
    Closed c = Terminated c ⊎ EndsUnresolved

    Ended-Closed :
        (t : Bool) (scope : Identifier) (c : Builder) (r : Option Identifier) (c' : Builder)
        → last_ends_in_local values ≡ t
        → Ended t r c'
        → Opened scope c
        → body c ≡ some (r, c')
        → Closed c'
    unfolding Ended
    Ended-Closed false scope c r c' e ended opens generates = inl ended
    Ended-Closed true scope c r c' e (inl ended) opens generates = inl ended
    Ended-Closed true scope c r c' e (inr unresolved) opens generates = inr record {
      ends_in_local = e;
      scope = scope;
      opened = c;
      opens = opens;
      result = r;
      generated = c';
      generates = generates;
      unresolved = unresolved;
    }

    body-Closed :
        (scope : Identifier)
        → Ensures Any body (Ended (last_ends_in_local values))
        → Ensures (Opened scope) body (λ _ c. Closed c)
    body-Closed scope h = record {
      at_return = λ c opens r c' e.
          Ended-Closed (last_ends_in_local values) scope c r c' refl (h.at_return c tt r c' e) opens
            e;
    }

    scope_close-Closed :
        (scope : Identifier) → Ensures Closed (Control.cpp_scope_close host scope) (λ _ c. Closed c)
    scope_close-Closed scope = record {
      at_return = λ c closed r c' e. elim closed [
        | inl t ↦ inl ((cpp_scope_close-Terminated host scope).at_return c t r c' e)
        | inr unresolved ↦ inr unresolved
      ];
    }

    closing :
        (scope : Identifier)
        → Ensures Any body (Ended (last_ends_in_local values))
        → Ensures
            (Opened scope)
            ((body >>= λ _. pure tt) >> (Control.cpp_scope_close host scope >>= λ _. pure tt))
            (λ _ c. Closed c)
    closing scope h =
        then-Ensures Closed
          (bind-Ensures (λ _ c. Closed c) (body-Closed scope h) λ res. pure-Ensures tt λ c t. t)
          (bind-Ensures (λ _ c. Closed c) (scope_close-Closed scope)
            λ close. pure-Ensures tt λ c t. t)

  -- A function without a body returns `nil`.
  empty-Terminated :
      (scope : Identifier)
      → Ensures Any
          ((gen_each host unknown none (propagate_last tail_ end) >>= λ _. pure tt)
            >> close_arity host (propagate_last tail_ end) scope)
          (λ _ b. Terminated b)
  unfolding gen propagate_position close_arity Values.literal
  empty-Terminated scope = then-Any _ _ (
      bind-Ensures (λ _ b. Terminated b) (bind-Any _ _ λ lifted. emit_at-Terminated _ _ _)
        λ name.
          bind-Ensures (λ _ b. Terminated b) (cpp_scope_close-Terminated host scope)
            λ close. pure-Ensures tt λ b t. t)

  -- The body and its end, once the scope is open.
  body_and_close-Closed :
      (info : FunctionInfo) (a : ArityInfo) (values : Exprs) (b : Builder) (scope : Identifier)
      → last_loops_return values ≡ true
      → Ensures
          (Opened info a values b scope)
          ((gen_each host unknown none (propagate_last tail_ values) >>= λ _. pure tt)
            >> close_arity host (propagate_last tail_ values) scope)
          (λ _ c. Closed info a values b c)
  unfolding propagate_position close_arity
  body_and_close-Closed info a end b scope loops =
      weaken (λ _ _. tt) (λ _ _ t. inl t) (empty-Terminated scope)
  body_and_close-Closed info a (item e end) b scope loops =
      closing info a (item e end) b scope (last-Ended e end none loops)
  body_and_close-Closed info a (item e (item e' es)) b scope loops =
      closing info a (item e (item e' es)) b scope (last-Ended e (item e' es) none loops)

  -- What `gen_body` does behind the scope, where `recurs` tells whether a `recur` targets it.
  abbrev body_and_end : ArityInfo → Exprs → Bool → Identifier → M (Unit {0})
  body_and_end a values recurs scope =
      let body = gen_each host unknown none (propagate_last tail_ values) in
      elim recurs [
        | true ↦ (do
          blocks ← open_recur host a.params
          body_res ← body
          close_recur host a.params blocks body_res)
        | false ↦ (do _ ← body; pure tt)
      ]
      >> close_arity host (propagate_last tail_ values) scope

  body_and_end-Closed :
      (info : FunctionInfo) (a : ArityInfo) (values : Exprs) (b : Builder) (scope : Identifier)
      → a.fn_ctx.is_recur_recursive ≡ false
      → last_loops_return values ≡ true
      → Ensures
          (Opened info a values b scope)
          (body_and_end a values a.fn_ctx.is_recur_recursive scope)
          (λ _ c. Closed info a values b c)
  body_and_end-Closed info a values b scope no_recur loops =
      subst
        (λ recurs.
          Ensures (Opened info a values b scope) (body_and_end a values recurs scope)
            (λ _ c. Closed info a values b c))
        (sym no_recur) (body_and_close-Closed info a values b scope loops)

  open_arity-Opened :
      (info : FunctionInfo) (a : ArityInfo) (values : Exprs) (b : Builder)
      → Ensures (λ c. c ≡ b) (open_arity host info a) (Opened info a values b)
  open_arity-Opened info a values b = record {
    at_return = λ c same r c' e. subst (λ t. open_arity host info a t ≡ some (r, c')) same e;
  }

  -- The code of a function that no `recur` targets, whose body stands in tail position and has no
  -- loop in tail position that ends in a reference to a local, if the generation returns, leaves
  -- the current block with a terminator, whatever its parameters and captures, and if its body is
  -- empty too; unless the body ends in a reference to a local that is deferred, or not there, where
  -- the parameters and captures are bound.
  pub gen_body-Terminated :
      (info : FunctionInfo) (a : ArityInfo) (values : Exprs) (b b' : Builder)
      → a.fn_ctx.is_recur_recursive ≡ false
      → last_loops_return values ≡ true
      → gen_body host info a
          (propagate_last tail_ values)
          (gen_each host unknown none (propagate_last tail_ values))
          b
        ≡ some (tt, b')
      → Terminated b' ⊎ EndsUnresolved info a values b
  unfolding gen_body
  gen_body-Terminated info a values b b' no_recur loops returns =
      let ended : Ensures (λ c. c ≡ b)
          (gen_body host info a (propagate_last tail_ values)
            (gen_each host unknown none (propagate_last tail_ values)))
          (λ _ c. Closed info a values b c) =
        bind-Ensures (Opened info a values b) (open_arity-Opened info a values b)
          λ scope. body_and_end-Closed info a values b scope no_recur loops in
      ended.at_return b refl tt b' returns
