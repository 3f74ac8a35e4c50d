-- ===== src/Analyze/Expr/Ends.antt =====
-- The expressions that `propagate_position` reaches: include/cpp/jank/analyze/expression.hpp and
-- src/cpp/jank/analyze/expr/, below compiler+runtime.
use jank.Prelude.{◌≡◌, refl, ◌↔◌, ap}
use mathlib.Core.Path.{subst}
use jank.Analyze.Expr.{
  Position, Expr, expr, Kind, Exprs, end, item, OptionalExpr, absent, present, Catches, no_catches,
  catch_, Cases, no_cases, case_expr, propagate_position, propagate_kind, propagate_last,
  propagate_optional, propagate_catches, propagate_cases,
}

unfoldable mutual
  -- The expression has the position, and so has each one in it whose value is that of the
  -- expression: the last one of a body, and what follows a branch, a case or a catch.
  pub EndsAt : Position → Expr → Type 0
  EndsAt pos (expr n k) = (n.position ≡ pos) × KindEndsAt pos k

  pub KindEndsAt : Position → Kind → Type 0
  KindEndsAt pos (Kind.let_ k pairs body) = EndsAt pos body
  KindEndsAt pos (Kind.letfn pairs body) = EndsAt pos body
  KindEndsAt pos (Kind.do_ values) = LastEndsAt pos values
  KindEndsAt pos (Kind.if_ condition then_ else_) = EndsAt pos then_ × OptionalEndsAt pos else_
  KindEndsAt pos (Kind.try_ body catches finally_body) = EndsAt pos body × CatchesEndAt pos catches
  KindEndsAt pos (Kind.case_ shift mask value default_expr cases) =
      EndsAt pos default_expr × CasesEndAt pos cases
  KindEndsAt pos k = Unit

  pub OptionalEndsAt : Position → OptionalExpr → Type 0
  OptionalEndsAt pos absent = Unit
  OptionalEndsAt pos (present e) = EndsAt pos e

  pub LastEndsAt : Position → Exprs → Type 0
  LastEndsAt pos end = Unit
  LastEndsAt pos (item e end) = EndsAt pos e
  LastEndsAt pos (item e (item e' es)) = LastEndsAt pos (item e' es)

  pub CatchesEndAt : Position → Catches → Type 0
  CatchesEndAt pos no_catches = Unit
  CatchesEndAt pos (catch_ sym type body rest) = EndsAt pos body × CatchesEndAt pos rest

  pub CasesEndAt : Position → Cases → Type 0
  CasesEndAt pos no_cases = Unit
  CasesEndAt pos (case_expr key e rest) = EndsAt pos e × CasesEndAt pos rest

mutual
  unfolding EndsAt propagate_position

  propagate-EndsAt : (pos : Position) (e : Expr) → EndsAt pos (propagate_position pos e)
  propagate-EndsAt pos (expr n k) = (refl, propagate-KindEndsAt pos k)

  propagate-KindEndsAt : (pos : Position) (k : Kind) → KindEndsAt pos (propagate_kind pos k)
  propagate-KindEndsAt pos (Kind.let_ k pairs body) = propagate-EndsAt pos body
  propagate-KindEndsAt pos (Kind.letfn pairs body) = propagate-EndsAt pos body
  propagate-KindEndsAt pos (Kind.do_ values) = propagate-LastEndsAt pos values
  propagate-KindEndsAt pos (Kind.if_ condition then_ else_) =
      (propagate-EndsAt pos then_, propagate-OptionalEndsAt pos else_)
  propagate-KindEndsAt pos (Kind.try_ body catches finally_body) =
      (propagate-EndsAt pos body, propagate-CatchesEndAt pos catches)
  propagate-KindEndsAt pos (Kind.case_ shift mask value default_expr cases) =
      (propagate-EndsAt pos default_expr, propagate-CasesEndAt pos cases)
  propagate-KindEndsAt pos _ = tt

  propagate-OptionalEndsAt :
      (pos : Position) (e : OptionalExpr) → OptionalEndsAt pos (propagate_optional pos e)
  propagate-OptionalEndsAt pos absent = tt
  propagate-OptionalEndsAt pos (present e) = propagate-EndsAt pos e

  propagate-LastEndsAt : (pos : Position) (es : Exprs) → LastEndsAt pos (propagate_last pos es)
  propagate-LastEndsAt pos end = tt
  propagate-LastEndsAt pos (item e end) = propagate-EndsAt pos e
  propagate-LastEndsAt pos (item e (item e' end)) = propagate-EndsAt pos e'
  propagate-LastEndsAt pos (item e (item e' (item e'' es))) =
      propagate-LastEndsAt pos (item e' (item e'' es))

  propagate-CatchesEndAt :
      (pos : Position) (catches : Catches) → CatchesEndAt pos (propagate_catches pos catches)
  propagate-CatchesEndAt pos no_catches = tt
  propagate-CatchesEndAt pos (catch_ sym type body rest) =
      (propagate-EndsAt pos body, propagate-CatchesEndAt pos rest)

  propagate-CasesEndAt :
      (pos : Position) (cases : Cases) → CasesEndAt pos (propagate_cases pos cases)
  propagate-CasesEndAt pos no_cases = tt
  propagate-CasesEndAt pos (case_expr key e rest) =
      (propagate-EndsAt pos e, propagate-CasesEndAt pos rest)

mutual
  unfolding EndsAt propagate_position

  EndsAt-kept : (pos : Position) (e : Expr) → EndsAt pos e → propagate_position pos e ≡ e
  EndsAt-kept pos (expr n k) (at, ends) =
      let kept = KindEndsAt-kept pos k ends in
      let node : record n { position = pos } ≡ n = rw (← at) refl in cc

  KindEndsAt-kept : (pos : Position) (k : Kind) → KindEndsAt pos k → propagate_kind pos k ≡ k
  KindEndsAt-kept pos (Kind.let_ k pairs body) ends =
      ap (Kind.let_ k pairs) (EndsAt-kept pos body ends)
  KindEndsAt-kept pos (Kind.letfn pairs body) ends =
      ap (Kind.letfn pairs) (EndsAt-kept pos body ends)
  KindEndsAt-kept pos (Kind.do_ values) ends = ap Kind.do_ (LastEndsAt-kept pos values ends)
  KindEndsAt-kept pos (Kind.if_ condition then_ else_) (ends, ends') =
      let p = EndsAt-kept pos then_ ends in let q = OptionalEndsAt-kept pos else_ ends' in cc
  KindEndsAt-kept pos (Kind.try_ body catches finally_body) (ends, ends') =
      let p = EndsAt-kept pos body ends in let q = CatchesEndAt-kept pos catches ends' in cc
  KindEndsAt-kept pos (Kind.case_ shift mask value default_expr cases) (ends, ends') =
      let p = EndsAt-kept pos default_expr ends in let q = CasesEndAt-kept pos cases ends' in cc
  KindEndsAt-kept pos _ ends = refl

  OptionalEndsAt-kept :
      (pos : Position) (e : OptionalExpr) → OptionalEndsAt pos e → propagate_optional pos e ≡ e
  OptionalEndsAt-kept pos absent ends = refl
  OptionalEndsAt-kept pos (present e) ends = ap present (EndsAt-kept pos e ends)

  LastEndsAt-kept : (pos : Position) (es : Exprs) → LastEndsAt pos es → propagate_last pos es ≡ es
  LastEndsAt-kept pos end ends = refl
  LastEndsAt-kept pos (item e end) ends = ap (λ x. item x end) (EndsAt-kept pos e ends)
  LastEndsAt-kept pos (item e (item e' es)) ends =
      ap (item e) (LastEndsAt-kept pos (item e' es) ends)

  CatchesEndAt-kept :
      (pos : Position) (catches : Catches)
      → CatchesEndAt pos catches
      → propagate_catches pos catches ≡ catches
  CatchesEndAt-kept pos no_catches ends = refl
  CatchesEndAt-kept pos (catch_ sym type body rest) (ends, ends') =
      let p = EndsAt-kept pos body ends in let q = CatchesEndAt-kept pos rest ends' in cc

  CasesEndAt-kept :
      (pos : Position) (cases : Cases) → CasesEndAt pos cases → propagate_cases pos cases ≡ cases
  CasesEndAt-kept pos no_cases ends = refl
  CasesEndAt-kept pos (case_expr key e rest) (ends, ends') =
      let p = EndsAt-kept pos e ends in let q = CasesEndAt-kept pos rest ends' in cc

-- After a position was propagated, the expression has it, and so has each one in it whose value is
-- that of the expression; and propagation changes nothing exactly where they all have the position.
pub propagate_position-EndsAt :
    (pos : Position) (e : Expr)
    → EndsAt pos (propagate_position pos e) × (EndsAt pos e ↔ (propagate_position pos e ≡ e))
propagate_position-EndsAt pos e = (
  propagate-EndsAt pos e,
  (EndsAt-kept pos e, λ same. subst (EndsAt pos) same (propagate-EndsAt pos e)),
)
