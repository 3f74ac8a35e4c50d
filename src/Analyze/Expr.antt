-- ===== src/Analyze/Expr.antt =====
-- Analysed expressions: include/cpp/jank/analyze/expression.hpp, the structs under
-- include/cpp/jank/analyze/expr and their `propagate_position` under src/cpp/jank/analyze, below
-- compiler+runtime. Positions and handles are those of Ir/Instruction.
pub mod Ends
use jank.Prelude.{ℕ, Bool, Option, List, Bytes}
use jank.Ir.Instruction.{Handle}

-- `expression_position`
pub data Position : Type 0 where
  value_ call_ statement_ tail_ type_ : Position

-- What every expression has: where it stands, the source of its form, `get_type()` and
-- `expression_type(expr)`. `self` is the expression as the C++ instructions keep it.
pub record Node : Type 0 where
  pub self : Handle
  pub position : Position
  pub location : Handle
  pub type : Handle
  pub expression_type : Handle

-- `function_context`, with the `unique_name` and `is_variadic` of its function.
pub record FunctionContext : Type 0 where
  pub id : Handle
  pub name : Bytes
  pub fn_unique_name : Bytes
  pub fn_is_variadic : Bool
  pub param_count : ℕ
  pub is_variadic : Bool
  pub is_recur_recursive : Bool

-- `function_arity` without its body; a capture is a name with the type of its binding.
pub record ArityInfo : Type 0 where
  pub params : List Bytes
  pub captures : List (Bytes × Handle)
  pub fn_ctx : FunctionContext

pub record FunctionInfo : Type 0 where
  pub name : Bytes
  pub unique_name : Bytes
  pub is_variadic : Bool

pub data LoopKind : Type 0 where
  normal loop_with_recur loop_without_recur : LoopKind

mutual
  pub data Expr : Type 0 where
    expr : Node → Kind → Expr

  -- A constructor for each struct. Names of vars are qualified, and a `recur` to a loop has the
  -- names of the loop's bindings.
  pub data Kind : Type 0 where
    def : Bytes → OptionalExpr → Handle → Bool → Kind
    var_deref : Bytes → Kind
    var_ref : Bytes → Kind
    call : Expr → Exprs → Kind
    primitive_literal : Handle → Kind
    list : Exprs → Handle → Kind
    vector : Exprs → Handle → Kind
    map : ExprPairs → Handle → Kind
    set : Exprs → Handle → Kind
    local_reference : Bytes → Kind
    function : FunctionInfo → Arities → Kind
    recur : Option (List Bytes) → Exprs → Kind
    recursion_reference : FunctionContext → Kind
    named_recursion : FunctionContext → Exprs → Kind
    let_ : LoopKind → Bindings → Expr → Kind
    letfn : Bindings → Expr → Kind
    do_ : Exprs → Kind
    if_ : Expr → Expr → OptionalExpr → Kind
    throw_ : OptionalExpr → Kind
    try_ : Expr → Catches → OptionalExpr → Kind
    case_ : Handle → Handle → Expr → Expr → Cases → Kind
    cpp_raw : Kind
    cpp_type : Kind
    cpp_value : Kind
    cpp_literal : Handle → Kind
    cpp_conversion : Bool → Handle → Expr → Kind
    cpp_unsafe_cast : Expr → Kind
    cpp_call : Expr → Exprs → Kind
    cpp_constructor_call : Exprs → Kind
    cpp_member_call : Exprs → Kind
    cpp_member_access : Expr → Kind
    cpp_builtin_operator_call : Exprs → Kind
    cpp_box : Expr → Kind
    cpp_unbox : Handle → Expr → Kind
    cpp_new : Exprs → Kind
    cpp_delete : Expr → Kind

  pub data OptionalExpr : Type 0 where
    absent : OptionalExpr
    present : Expr → OptionalExpr

  pub data Exprs : Type 0 where
    end : Exprs
    item : Expr → Exprs → Exprs

  pub data ExprPairs : Type 0 where
    no_pairs : ExprPairs
    pair : Expr → Expr → ExprPairs → ExprPairs

  pub data Bindings : Type 0 where
    no_bindings : Bindings
    bind : Bytes → Expr → Bindings → Bindings

  pub data Catches : Type 0 where
    no_catches : Catches
    catch_ : Bytes → Handle → Expr → Catches → Catches

  pub data Cases : Type 0 where
    no_cases : Cases
    case_expr : Handle → Expr → Cases → Cases

  pub data Arities : Type 0 where
    no_arities : Arities
    arity : ArityInfo → Exprs → Arities → Arities

unfoldable mutual
  pub propagate_position : Position → Expr → Expr
  propagate_position pos (expr n k) = expr (record n { position = pos }) (propagate_kind pos k)

  -- The virtual `propagate_position`, less the expression's own position.
  pub propagate_kind : Position → Kind → Kind
  propagate_kind pos (let_ k pairs body) = let_ k pairs (propagate_position pos body)
  propagate_kind pos (letfn pairs body) = letfn pairs (propagate_position pos body)
  propagate_kind pos (do_ values) = do_ (propagate_last pos values)
  propagate_kind pos (if_ condition then_ else_) =
      if_ condition (propagate_position pos then_) (propagate_optional pos else_)
  propagate_kind pos (try_ body catches finally_body) =
      try_ (propagate_position pos body) (propagate_catches pos catches) finally_body
  propagate_kind pos (case_ shift mask value default_expr cases) =
      case_ shift mask value (propagate_position pos default_expr) (propagate_cases pos cases)
  propagate_kind pos k = k

  pub propagate_optional : Position → OptionalExpr → OptionalExpr
  propagate_optional pos absent = absent
  propagate_optional pos (present e) = present (propagate_position pos e)

  pub propagate_last : Position → Exprs → Exprs
  propagate_last pos end = end
  propagate_last pos (item e end) = item (propagate_position pos e) end
  propagate_last pos (item e (item e' es)) = item e (propagate_last pos (item e' es))

  pub propagate_catches : Position → Catches → Catches
  propagate_catches pos no_catches = no_catches
  propagate_catches pos (catch_ sym type body rest) =
      catch_ sym type (propagate_position pos body) (propagate_catches pos rest)

  pub propagate_cases : Position → Cases → Cases
  propagate_cases pos no_cases = no_cases
  propagate_cases pos (case_expr key e rest) =
      case_expr key (propagate_position pos e) (propagate_cases pos rest)
