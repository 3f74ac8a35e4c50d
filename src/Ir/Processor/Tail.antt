-- ===== src/Ir/Processor/Tail.antt =====
-- The end of the code that is generated for an expression in tail position:
-- compiler+runtime/src/cpp/jank/ir/processor.cpp.
pub mod Parts
pub mod Branches
pub mod Returns
pub mod Functions
use jank.Prelude.{◌≡◌, Bool, true, false, not, ◌&&◌, Option, none, some, codes, ◌⊎◌, inl, inr}
use jank.Analyze.Expr.{
  Position, Node, LoopKind, normal, loop_with_recur, loop_without_recur, Expr, expr, Kind, Exprs,
  end, item,
}
use jank.Ir.Instruction.{Identifier}
use jank.Ir.Builder.{Builder}
use jank.Ir.Builder.Terminated.{Terminated}

-- The result of a reference to a local that is deferred, or not there.
abbrev pub Unresolved : Option Identifier → Type 0
Unresolved r = (r ≡ none) ⊎ (r ≡ some (codes ":defer"))

-- The current block is terminated, or, where `is_local`, the result is such a reference.
unfoldable pub Ended : Bool → Option Identifier → Builder → Type 0
Ended false r b = Terminated b
Ended true r b = Terminated b ⊎ Unresolved r

unfoldable mutual
  -- Whether the value of an expression may be that of a reference to a local.
  pub ends_in_local : Expr → Bool
  ends_in_local (expr n k) = kind_ends_in_local k

  pub kind_ends_in_local : Kind → Bool
  kind_ends_in_local (Kind.local_reference name) = true
  kind_ends_in_local (Kind.let_ loop_with_recur pairs body) = false
  kind_ends_in_local (Kind.let_ _ pairs body) = ends_in_local body
  kind_ends_in_local (Kind.letfn pairs body) = ends_in_local body
  kind_ends_in_local (Kind.do_ values) = last_ends_in_local values
  kind_ends_in_local k = false

  pub last_ends_in_local : Exprs → Bool
  last_ends_in_local end = false
  last_ends_in_local (item e end) = ends_in_local e
  last_ends_in_local (item e (item e' es)) = last_ends_in_local (item e' es)

unfoldable mutual
  unfolding ends_in_local

  -- Whether no loop that `recur` targets, in tail position, has a reference to a local as the
  -- value of its body.
  pub loops_return : Expr → Bool
  loops_return (expr n k) = kind_loops_return k

  pub kind_loops_return : Kind → Bool
  kind_loops_return (Kind.let_ loop_with_recur pairs body) =
      not (ends_in_local body) && loops_return body
  kind_loops_return (Kind.let_ _ pairs body) = loops_return body
  kind_loops_return (Kind.letfn pairs body) = loops_return body
  kind_loops_return (Kind.do_ values) = last_loops_return values
  kind_loops_return k = true

  pub last_loops_return : Exprs → Bool
  last_loops_return end = true
  last_loops_return (item e end) = loops_return e
  last_loops_return (item e (item e' es)) = last_loops_return (item e' es)
