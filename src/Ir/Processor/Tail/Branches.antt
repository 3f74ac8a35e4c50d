-- ===== src/Ir/Processor/Tail/Branches.antt =====
-- Branches in tail position, and the end of the current block:
-- compiler+runtime/src/cpp/jank/ir/processor.cpp.
use jank.Prelude.{
  ℕ, refl, Bool, true, false, List, [], ◌∷◌, Option, none, some, Bytes, codes, ◌==◌, inl, inr,
  if◌then◌else◌,
}
use jank.Analyze.Expr.{tail_, FunctionContext, FunctionInfo}
use jank.Ir.Instruction.{Identifier, Handle}
use jank.Ir.Builder.{Builder, M, pure}
use jank.Ir.Builder.Emit.{Host, return_tail}
use jank.Ir.Builder.Values
use jank.Ir.Builder.Control
use jank.Ir.Builder.Ensures.{Ensures, Any, bind-Any, bind-Ensures, then-Any, pure-Ensures}
use jank.Ir.Builder.Terminated.{return_tail-Terminated, emit_at-Terminated, jump_to-Terminated}
use jank.Ir.Processor.{yields, gen_local_reference}
use jank.Ir.Processor.Loops.{recur_with}
use jank.Ir.Processor.Functions.{gen_recursion_reference, gen_named_recursion}
use jank.Ir.Processor.Steps.{gen_map, gen_callable}
use jank.Ir.Processor.Branches.{
  Gen, unless_terminated, gen_if, gen_try, gen_case, if_blocks, case_blocks,
}
use jank.Ir.Processor.Tail.{Ended}
use jank.Ir.Processor.Tail.Parts.{
  yields-Ended, finish_merge-Ended, is_terminated-Ensures, Ended-or, branch_by,
}

module _ (host : Host) where
  unless_terminated-Ended :
      (t : Bool) (rest : Gen)
      → ((P : Builder → Type 0) → Ensures P rest (Ended t))
      → Ensures Any (unless_terminated host rest) (Ended t)
  unfolding unless_terminated
  unless_terminated-Ended t rest h =
      bind-Ensures _ (is_terminated-Ensures Any) λ terminated. Ended-or terminated t none (h _)

  pub gen_if-Ended :
      (type condition_type : Handle) (condition : M Identifier) (then_ else_ : Gen) (t : Bool)
      → Ensures Any (gen_if host tail_ type condition_type condition then_ else_) (Ended t)
  unfolding gen_if if_blocks
  gen_if-Ended type condition_type condition then_ else_ t = bind-Any condition _ λ name.
      unless_terminated-Ended t _ (λ P. bind-Any _ _ λ then_blk. bind-Any _ _ λ else_blk.
        bind-Any _ _ λ merge_blk. bind-Any _ _ λ loc. then-Any _ _ (
          then-Any _ _ (
            bind-Any then_ _ λ then_name. then-Any _ _ (
              then-Any _ _ (
                bind-Any else_ _
                  λ else_name. then-Any _ _ (then-Any _ _ (finish_merge-Ended host t loc)))))))

  pub gen_try-Ended :
      (type : Handle) (finally_body : ℕ → M (ℕ × Option Identifier))
      (catches : ℕ → ℕ → Identifier → Option Identifier → M (List (Handle × Identifier)))
      (body : Gen) (t : Bool)
      → Ensures Any (gen_try host tail_ type finally_body catches body) (Ended t)
  unfolding gen_try
  gen_try-Ended type finally_body catches body t = bind-Any _ _ λ loc. bind-Any _ _ λ try_blk.
      bind-Any _ _ λ jumped. bind-Any _ _ λ merge_blk. bind-Any (finally_body merge_blk) _ λ target.
        bind-Any _ _ λ catch_blocks. then-Any _ _ (
          bind-Any _ _ λ merge_name. bind-Any _ _ λ tried.
            bind-Any body _ λ try_res. then-Any _ _ (then-Any _ _ (finish_merge-Ended host t loc)))

  pub gen_case-Ended :
      (type shift mask : Handle) (value : M Identifier)
      (cases : ℕ → Identifier → M (List (Handle × Identifier))) (default_ : Gen) (t : Bool)
      → Ensures Any (gen_case host tail_ type shift mask value cases default_) (Ended t)
  unfolding gen_case case_blocks
  gen_case-Ended type shift mask value cases default_ t = bind-Any value _ λ name.
      unless_terminated-Ended t _ (λ P. bind-Any _ _ λ starting_block. bind-Any _ _ λ loc.
        bind-Any _ _ λ merge_blk. bind-Any (cases merge_blk loc) _ λ blocks.
          bind-Any _ _ λ default_block. then-Any _ _ (
            bind-Any default_ _ λ default_res. then-Any _ _ (
              then-Any _ _ (
                bind-Any _ _ λ default_name. bind-Any _ _ λ merge_name.
                  bind-Any _ _ λ cased. then-Any _ _ (finish_merge-Ended host t loc)))))

  found_or :
      (type : Handle) (o : Option Identifier) (deferred : Bool) {P : Builder → Type 0}
      → Ensures P
          (elim o as (λ _. Gen) [
            | some value ↦ yields (return_tail tail_ value type)
            | none ↦ if deferred then pure (some (codes ":defer")) else pure none
          ])
          (Ended true)
  unfolding Ended
  found_or type (some value) deferred = yields-Ended true _ (return_tail-Terminated value type)
  found_or type none true = pure-Ensures _ λ b p. inr (inr refl)
  found_or type none false = pure-Ensures _ λ b p. inr (inl refl)

  pub gen_local_reference-Ended :
      (type : Handle) (name : Bytes)
      → Ensures Any (gen_local_reference tail_ type name) (Ended true)
  unfolding gen_local_reference
  gen_local_reference-Ended type name =
      bind-Any _ _ λ locals. bind-Any _ _ λ defers. found_or type _ _

  pub gen_map-Ended :
      (small : Bool) (values : List (Identifier × Identifier)) (meta : Handle) (t : Bool)
      → {P : Builder → Type 0} → Ensures P (gen_map host tail_ small values meta) (Ended t)
  unfolding gen_map Values.persistent_array_map Values.persistent_hash_map
  gen_map-Ended true values meta t = yields-Ended t _ (emit_at-Terminated _ _ _)
  gen_map-Ended false values meta t = yields-Ended t _ (emit_at-Terminated _ _ _)

  pub gen_callable-Ended :
      (info : FunctionInfo) (captures : List (Bytes × Handle)) (arities : List (ℕ × Bytes))
      (flags : Handle) (t : Bool)
      → {P : Builder → Type 0}
      → Ensures P (gen_callable host tail_ info captures arities flags) (Ended t)
  unfolding gen_callable Values.function Values.closure
  gen_callable-Ended info [] arities flags t = yields-Ended t _ (emit_at-Terminated _ _ _)
  gen_callable-Ended info (c ∷ cs) arities flags t =
      bind-Any _ _ λ captured. yields-Ended t _ (emit_at-Terminated _ _ _)

  pub recur_with-Ended :
      (target : Option (List Bytes)) (arg_idents : List Identifier) (t : Bool)
      → {P : Builder → Type 0} → Ensures P (recur_with host target arg_idents) (Ended t)
  unfolding recur_with
  recur_with-Ended (some names) arg_idents t = then-Any _ _ (
      bind-Any _ _ λ loop_target.
        bind-Any _ _ λ target. yields-Ended t _ (jump_to-Terminated host target true))
  recur_with-Ended none arg_idents t = bind-Any _ _ λ params. then-Any _ _ (
      bind-Any _ _
        λ fn_target. bind-Any _ _ λ target. yields-Ended t _ (jump_to-Terminated host target true))

  pub gen_recursion_reference-Ended :
      (type : Handle) (ctx : FunctionContext) (t : Bool)
      → Ensures Any (gen_recursion_reference host tail_ type ctx) (Ended t)
  unfolding gen_recursion_reference Control.recursion_reference
  gen_recursion_reference-Ended type ctx t = bind-Any _ _ λ fn_ctx.
      branch_by (ctx.id == fn_ctx) (yields-Ended t _ (emit_at-Terminated _ _ _))
        (bind-Any _ _ λ name. yields-Ended t _ (return_tail-Terminated name type))

  pub gen_named_recursion-Ended :
      (ctx : FunctionContext) (args : List Identifier) (t : Bool)
      → {P : Builder → Type 0} → Ensures P (gen_named_recursion host tail_ ctx args) (Ended t)
  unfolding gen_named_recursion Control.named_recursion
  gen_named_recursion-Ended ctx args t =
      bind-Any _ _ λ fn_ctx. bind-Any _ _ λ fn. yields-Ended t _ (emit_at-Terminated _ _ _)
