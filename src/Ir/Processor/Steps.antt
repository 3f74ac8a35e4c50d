-- ===== src/Ir/Processor/Steps.antt =====
-- The steps of the generation that do not call it: compiler+runtime/src/cpp/jank/ir/processor.cpp.
use jank.Prelude.{
  ℕ, ◌+◌, Bool, true, false, List, [], ◌∷◌, ◌++◌, Option, none, some, if◌then◌else◌, Bytes, codes,
}
use jank.Runtime.Munge.{munge}
use jank.Analyze.Expr.{
  Position, value_, tail_, ArityInfo, FunctionInfo, LoopKind, normal, Expr, expr, Kind, Exprs, end,
  item, ExprPairs, no_pairs, pair, Bindings, no_bindings, bind,
}
use jank.Ir.Instruction.{Identifier, Handle}
use jank.Ir.Builder.{M, pure, ◌>>=◌, ◌>>◌, unwrap, modify, block_name}
use jank.Ir.Builder.Emit.{Host}
use jank.Ir.Builder.Values
use jank.Ir.Builder.Control
use jank.Ir.Processor.{yields, is_terminated, bind_local}
use jank.Ir.Processor.Functions.{
  arity_name, start_arity, finish_arity, gen_params, gen_captures, open_recur, close_recur,
  capture_locals,
}

unfoldable pub set_location : Handle → M Handle
set_location location b = some (b.location, record b { location = location })

unfoldable pub restore_location : Handle → M (Unit {0})
restore_location location = modify λ b. record b { location = location }

-- `gen(expr, b).unwrap()`
unfoldable pub required : M (Option Identifier) → M Identifier
required m = do res ← m; unwrap res

abbrev pub is_loop : LoopKind → Bool
is_loop normal = false
is_loop _ = true

-- `expr->source_expr->kind == expression_kind::cpp_value`
abbrev pub is_cpp_value : Expr → Bool
is_cpp_value (expr n Kind.cpp_value) = true
is_cpp_value _ = false

-- `propagate_position` of a `do` reaches its last expression only.
abbrev pub last_at : Option Position → Exprs → Option Position
last_at at end = at
last_at at (item e es) = none

abbrev pub count_pairs : ExprPairs → ℕ
count_pairs no_pairs = 0
count_pairs (pair k v ps) = 1 + count_pairs ps

-- `persistent_array_map::max_size`
abbrev pub max_map : ℕ
max_map = 8

unfoldable pub defer_names : Bindings → List Bytes
defer_names no_bindings = []
defer_names (bind name e pairs) = munge name ∷ defer_names pairs

module _ (host : Host) where
  -- `do_`, behind its loop.
  unfoldable pub finish_do : Position → Option Identifier → M (Option Identifier)
  unfolding yields is_terminated
  finish_do pos (some name) = pure (some name)
  finish_do pos none = do
    terminated ← is_terminated
    elim terminated [ true ↦ pure none | false ↦ yields (Values.literal host pos host.jank_nil) ]

  unfoldable pub gen_map :
      Position → Bool → List (Identifier × Identifier) → Handle → M (Option Identifier)
  unfolding yields
  gen_map pos is_small values meta =
      if is_small
      then yields (Values.persistent_array_map host pos values meta)
      else yields (Values.persistent_hash_map host pos values meta)

  -- The function or the closure, behind its arities.
  unfoldable pub gen_callable :
      Position
      → FunctionInfo
      → List (Bytes × Handle)
      → List (ℕ × Bytes)
      → Handle
      → M (Option Identifier)
  unfolding yields capture_locals
  gen_callable pos info [] arities flags =
      yields (Values.function host pos arities flags info.is_variadic)
  gen_callable pos info (c ∷ cs) arities flags = do
    captured ← capture_locals host [] (c ∷ cs)
    yields (
        Values.closure host pos (munge (info.unique_name ++ codes "_ctx")) arities captured flags
          info.is_variadic)

  -- The condition as a `bool`, and the branch.
  unfoldable pub open_if : Handle → Identifier → ℕ → ℕ → ℕ → M (Unit {0})
  unfolding block_name
  open_if condition_type condition_name then_blk else_blk merge_blk = do
    bool_condition ←
        (if host.is_any_object condition_type
          then Control.truthy host condition_name
          else pure condition_name)
    then_name ← block_name then_blk
    else_name ← block_name else_blk
    merge_name ← block_name merge_blk
    _ ← Control.branch host bool_condition then_name else_name merge_name
    pure tt

  -- The parameters and the captures of a function, behind its scope.
  unfoldable pub open_arity : FunctionInfo → ArityInfo → M Identifier
  unfolding gen_params gen_captures bind_local
  open_arity info a = do
    fn_scope ← Control.cpp_scope_open host
    self ← Values.parameter host value_ (munge info.name)
    bind_local (munge info.name) self
    gen_params host a.params
    gen_captures host a.captures
    pure fn_scope

  -- An empty body returns `nil`.
  unfoldable pub close_arity : Exprs → Identifier → M (Unit {0})
  close_arity end fn_scope = do
    _ ← Values.literal host tail_ host.jank_nil
    _ ← Control.cpp_scope_close host fn_scope
    pure tt
  close_arity (item e es) fn_scope = do _ ← Control.cpp_scope_close host fn_scope; pure tt

  -- The blocks of a function; `body` generates the expressions of its body.
  unfoldable pub gen_body : FunctionInfo → ArityInfo → Exprs → M (Option Identifier) → M (Unit {0})
  unfolding open_arity open_recur close_recur close_arity
  gen_body info a values body = do
    fn_scope ← open_arity info a
    elim a.fn_ctx.is_recur_recursive [
      | true ↦ (do
        blocks ← open_recur host a.params
        body_res ← body
        close_recur host a.params blocks body_res)
      | false ↦ (do _ ← body; pure tt)
    ]
    close_arity values fn_scope

  -- `unknown` is the location of a new builder.
  unfoldable pub gen_arity :
      Handle → FunctionInfo → ArityInfo → Exprs → M (Option Identifier) → M Identifier
  unfolding gen_body start_arity finish_arity
  gen_arity unknown info a values body b =
      let name = arity_name info.unique_name a in
      elim (gen_body info a values body (start_arity unknown name a b)) [
        | none ↦ none
        | some (_, c) ↦ some (name, finish_arity b c)
      ]
