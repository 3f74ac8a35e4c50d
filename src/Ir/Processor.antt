-- ===== src/Ir/Processor.antt =====
-- What the generation of instructions does besides recursion:
-- compiler+runtime/src/cpp/jank/ir/processor.cpp.
pub mod Loops
pub mod Functions
pub mod Steps
pub mod Branches
pub mod Gen
pub mod Positions
pub mod Tail
pub mod Recursion
pub mod HighestArity
use jank.Prelude.{
  ℕ, ◌+◌, ◌-◌, ◌/◌, ◌%◌, ◌^◌, Bool, true, false, List, [], ◌∷◌, ◌++◌, map, Option, none, some,
  if◌then◌else◌, Bytes, codes, ◌==◌, ltb, at, put, contains, eq_bytes, get_elem?,
}
use jank.Runtime.Munge.{munge}
use jank.Runtime.ArityFlags.{build_arity_flags}
use jank.Analyze.Expr.{
  Position, value_, tail_, Node, FunctionContext, Expr, expr, Kind, Bindings, no_bindings, bind,
  Arities, no_arities, arity,
}
use jank.Ir.Instruction.{Identifier, Handle, Instruction, Op, TypedIdentifier, BindingShadow}
use jank.Ir.Function.{Block, has_terminator}
use jank.Ir.Builder.{
  Builder, M, pure, ◌>>=◌, ◌>>◌, unwrap, gets, modify, next_ident, next_shadow, current_block,
  block, block_name, discard_block, enter_block,
}
use jank.Ir.Builder.Emit.{Host, CppExpr, return_tail}
use jank.Ir.Builder.Values.{local, set_local}
use jank.Ir.Builder.Control.{jump, jump_to, branch_set, branch_get, loop, cpp_scope_close}

-- The loop's variables: `variadic_arity` and `highest_fixed_arity`.
abbrev pub Highest : Type 0
Highest = Option FunctionContext × Option FunctionContext

unfoldable pub scan_arity : FunctionContext → Highest → Highest
scan_arity c (v, h) = if c.is_variadic then (some c, h) else elim h [
  | none ↦ (v, some c)
  | some f ↦ if ltb f.param_count c.param_count then (v, some c) else (v, some f)
]

unfoldable pub scan_arities : List FunctionContext → Highest → Highest
unfolding scan_arity
scan_arities [] s = s
scan_arities (c ∷ cs) s = scan_arities cs (scan_arity c s)

-- `param_count - 1` is a difference of 64-bit numbers, of which the flags take 8 bits; `none` is
-- the assertion.
unfoldable pub arity_flags : List FunctionContext → Option Handle
unfolding scan_arities build_arity_flags
arity_flags cs =
    let (variadic, highest) = scan_arities cs (none, none) in
    elim variadic [
      | none ↦ elim highest [
        | none ↦ none
        | some f ↦ some (build_arity_flags f.param_count false false)
      ]
      | some v ↦
          (let ambiguous : Bool = elim highest [
            | none ↦ false
            | some f ↦ f.param_count == (v.param_count + (2 ^ 64 - 1)) % 2 ^ 64
          ] in
            some (build_arity_flags (v.param_count + 255) true ambiguous))
    ]

-- The position of an expression on which `propagate_position` was called, or not.
abbrev pub position_at : Option Position → Node → Position
position_at none n = n.position
position_at (some pos) n = pos

abbrev pub cpp_expr : Option Position → Node → CppExpr
cpp_expr at n = record {
  expr = n.self;
  position = position_at at n;
  type = n.type;
  expression_type = n.expression_type;
}

unfoldable pub yields : M Identifier → M (Option Identifier)
yields m = do name ← m; pure (some name)

-- `b.current_block()->has_terminator()`
unfoldable pub is_terminated : M Bool
unfolding current_block has_terminator
is_terminated b = elim (current_block b) [ none ↦ none | some blk ↦ some (has_terminator blk, b) ]

-- `b.current_block()->index`
unfoldable pub current_index : M ℕ
unfolding current_block
current_index b = elim (current_block b) [ none ↦ none | some blk ↦ some (blk.index, b) ]

-- `b.block(b.next_ident(prefix))`
unfoldable pub new_block : Bytes → M ℕ
unfolding next_ident block
new_block prefix = do name ← next_ident prefix; block name

-- `b.locals[name] = value`
unfoldable pub bind_local : Bytes → Identifier → M (Unit {0})
bind_local name value = modify λ b. record b { locals = put b.locals name value }

-- `b.locals[name]`, which enters the empty name where there is none.
unfoldable pub local_at : Bytes → M Identifier
local_at name b = elim (at b.locals name) [
  | none ↦ some ([], record b { locals = put b.locals name [] })
  | some value ↦ some (value, b)
]

-- `b.local_to_loop_shadow[name]`, likewise.
unfoldable pub shadow_at : Bytes → M Identifier
shadow_at name b = elim (at b.local_to_loop_shadow name) [
  | none ↦ some ([], record b { local_to_loop_shadow = put b.local_to_loop_shadow name [] })
  | some value ↦ some (value, b)
]

unfoldable pub bind_shadow : Bytes → Identifier → M (Unit {0})
bind_shadow name shadow =
    modify λ b. record b { local_to_loop_shadow = put b.local_to_loop_shadow name shadow }

unfoldable pub restore_locals : List (Bytes × Identifier) → M (Unit {0})
restore_locals old_locals = modify λ b. record b { locals = old_locals }

-- `expression_type(e)` and `e->get_type()`
abbrev pub expression_type_of : Expr → Handle
expression_type_of (expr n k) = n.expression_type

abbrev pub type_of : Expr → Handle
type_of (expr n k) = n.type

-- The names that a `let`, a `loop` or a `letfn` binds, with their values' nodes.
unfoldable pub binding_nodes : Bindings → List (Bytes × Node)
binding_nodes no_bindings = []
binding_nodes (bind name (expr n k) pairs) = (name, n) ∷ binding_nodes pairs

unfoldable pub contexts : Arities → List FunctionContext
contexts no_arities = []
contexts (arity a values rest) = a.fn_ctx ∷ contexts rest

-- `ret.emplace(...)` for each capture.
abbrev add_captures : List (Bytes × Handle) → List (Bytes × Handle) → List (Bytes × Handle)
add_captures captured [] = captured
add_captures captured ((name, type) ∷ cs) = elim (at captured name) [
  | none ↦ add_captures (captured ++ ((name, type) ∷ [])) cs
  | some t ↦ add_captures captured cs
]

-- `function::captures`
unfoldable pub captures_of : List (Bytes × Handle) → Arities → List (Bytes × Handle)
captures_of captured no_arities = captured
captures_of captured (arity a values rest) = captures_of (add_captures captured a.captures) rest

-- `map[k] = v` with a number as the key.
unfoldable pub put_number : List (ℕ × Bytes) → ℕ → Bytes → List (ℕ × Bytes)
put_number [] k v = (k, v) ∷ []
put_number ((j, w) ∷ m) k v =
    let rest = put_number m k v in if j == k then (k, v) ∷ m else (j, w) ∷ rest

unfoldable pub gen_local_reference : Position → Handle → Bytes → M (Option Identifier)
unfolding return_tail yields
gen_local_reference pos type name = do
  let local_name = munge name
  locals ← gets λ b. b.locals
  defers ← gets λ b. b.allowed_defers
  elim (at locals local_name) [
    | some value ↦ yields (return_tail pos value type)
    | none ↦ if contains defers local_name then pure (some (codes ":defer")) else pure none
  ]

module _ (host : Host) where
  -- The end of a branch that leads to a merge block.
  unfoldable pub jump_unless_terminated : Identifier → Option Identifier → ℕ → M (Unit {0})
  unfolding is_terminated set_local jump
  jump_unless_terminated loc res target = do
    terminated ← is_terminated
    elim terminated [
      | true ↦ pure tt
      | false ↦ (do value ← unwrap res; _ ← set_local host loc value; _ ← jump host target; pure tt)
    ]

  -- The end of `if`, `try` and `case`, in the merge block.
  unfoldable pub finish_merge : Position → Identifier → M (Option Identifier)
  unfolding return_tail yields
  finish_merge pos loc = yields (return_tail pos loc host.untyped_object_ref_type)
