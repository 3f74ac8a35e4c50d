-- ===== src/Ir/Processor/Positions.antt =====
-- Positions that are propagated before or during the generation:
-- compiler+runtime/src/cpp/jank/ir/processor.cpp and the `propagate_position` of the expressions.
use jank.Prelude.{ℕ, List, [], ◌≡◌, refl, ap, Option, none, some}
use jank.Analyze.Expr.{
  Position, Node, Expr, expr, Kind, Exprs, end, item, OptionalExpr, absent, present, value_,
  Catches, Cases, no_catches, no_cases, propagate_position, propagate_kind, propagate_last,
  propagate_optional, propagate_catches, propagate_cases,
}
use jank.Ir.Instruction.{Handle, Identifier}
use jank.Ir.Builder.{M}
use jank.Ir.Builder.Emit.{Host}
use jank.Ir.Processor.Branches.{Gen, gen_if, gen_try, gen_case, gen_case_block, next_do}
use mathlib.Core.Path.{fun_ext}
use jank.Ir.Processor.Gen.{gen, gen_kind, gen_do, gen_typed, gen_else, gen_catches, gen_cases}

-- Where a second propagation reaches the expression, it is the one that counts.
abbrev over : Position → Option Position → Option Position
over pos none = some pos
over pos (some later) = some later

module _ (host : Host) where
  gen_if-congr :
      (pos : Position) (type condition_type : Handle) (condition : M Identifier) {t t' e e' : Gen}
      → t ≡ t'
      → e ≡ e'
      → gen_if host pos type condition_type condition t e
        ≡ gen_if host pos type condition_type condition t' e'
  gen_if-congr pos type condition_type condition p q = cc

  gen_try-congr :
      (pos : Position) (type : Handle) (finally_body : ℕ → M (ℕ × Option Identifier))
      {cs cs' : ℕ → ℕ → Identifier → Option Identifier → M (List (Handle × Identifier))}
      {t t' : Gen}
      → ((j m : ℕ) (l : Identifier) (f : Option Identifier) → cs j m l f ≡ cs' j m l f)
      → t ≡ t'
      → gen_try host pos type finally_body cs t ≡ gen_try host pos type finally_body cs' t'
  gen_try-congr pos type finally_body p q =
      let same = fun_ext λ j. fun_ext λ m. fun_ext λ l. fun_ext λ f. p j m l f in cc

  gen_case-congr :
      (pos : Position) (type shift mask : Handle) (value : M Identifier)
      {cs cs' : ℕ → Identifier → M (List (Handle × Identifier))} {d d' : Gen}
      → ((m : ℕ) (l : Identifier) → cs m l ≡ cs' m l)
      → d ≡ d'
      → gen_case host pos type shift mask value cs d
        ≡ gen_case host pos type shift mask value cs' d'
  gen_case-congr pos type shift mask value p q = let same = fun_ext λ m. fun_ext λ l. p m l in cc

  gen_case_block-congr :
      (merge_blk : ℕ) (loc : Identifier) (blocks : List (Handle × Identifier)) (key : Handle)
      {e e' : Gen} {cs cs' : List (Handle × Identifier) → M (List (Handle × Identifier))}
      → e ≡ e'
      → ((bs : List (Handle × Identifier)) → cs bs ≡ cs' bs)
      → gen_case_block host merge_blk loc blocks key e cs
        ≡ gen_case_block host merge_blk loc blocks key e' cs'
  gen_case_block-congr merge_blk loc blocks key p q = let same = fun_ext λ bs. q bs in cc

module _ (host : Host) (unknown : Handle) where
  mutual
    unfolding gen propagate_position

    propagated :
        (pos : Position) (at : Option Position) (e : Expr)
        → gen host unknown at (propagate_position pos e) ≡ gen host unknown (over pos at) e
    propagated pos at (expr n k) = rw (propagated_kind pos at n k)

    propagated_typed :
        (pos : Position) (at : Option Position) (e : Expr)
        → gen_typed host unknown at (propagate_position pos e)
          ≡ gen_typed host unknown (over pos at) e
    propagated_typed pos at (expr n k) = propagated_kind pos at n k

    propagated_kind :
        (pos : Position) (at : Option Position) (n : Node) (k : Kind)
        → gen_kind host unknown at (record n { position = pos }) (propagate_kind pos k)
          ≡ gen_kind host unknown (over pos at) n k
    propagated_kind pos none n (Kind.let_ kind pairs body) = rw (propagated pos none body)
    propagated_kind pos (some q) n (Kind.let_ kind pairs body) = rw (propagated pos (some q) body)
    propagated_kind pos at n (Kind.letfn pairs body) = rw (propagated pos at body)
    propagated_kind pos none n (Kind.do_ values) = propagated_last pos none pos none values
    propagated_kind pos (some q) n (Kind.do_ values) = propagated_last pos (some q) q none values
    propagated_kind pos none n (Kind.if_ condition then_ else_) =
        gen_if-congr host pos n.type _ _ (propagated pos (some value_) then_)
          (propagated_else pos else_)
    propagated_kind pos (some q) n (Kind.if_ condition then_ else_) =
        gen_if-congr host q n.type _ _ (propagated pos (some value_) then_)
          (propagated_else pos else_)
    propagated_kind pos none n (Kind.try_ body catches finally_body) =
        gen_try-congr host pos n.type _ (propagated_catches pos catches)
          (propagated_typed pos (some value_) body)
    propagated_kind pos (some q) n (Kind.try_ body catches finally_body) =
        gen_try-congr host q n.type _ (propagated_catches pos catches)
          (propagated_typed pos (some value_) body)
    propagated_kind pos none n (Kind.case_ shift mask value default_expr cases) =
        gen_case-congr host pos n.type shift mask _
          (λ merge_blk loc. propagated_cases pos merge_blk loc [] cases)
          (propagated pos (some value_) default_expr)
    propagated_kind pos (some q) n (Kind.case_ shift mask value default_expr cases) =
        gen_case-congr host q n.type shift mask _
          (λ merge_blk loc. propagated_cases pos merge_blk loc [] cases)
          (propagated pos (some value_) default_expr)
    propagated_kind pos at n (Kind.throw_ absent) = refl
    propagated_kind pos at n (Kind.throw_ (present value)) = refl
    propagated_kind pos none n _ = refl
    propagated_kind pos (some q) n _ = refl

    propagated_else :
        (pos : Position) (e : OptionalExpr)
        → gen_else host unknown (propagate_optional pos e) ≡ gen_else host unknown e
    propagated_else pos absent = refl
    propagated_else pos (present e) = propagated pos (some value_) e

    propagated_last :
        (pos : Position) (at : Option Position) (p : Position) (name : Option Identifier)
        (es : Exprs)
        → gen_do host unknown at p name (propagate_last pos es)
          ≡ gen_do host unknown (over pos at) p name es
    propagated_last pos at p name end = refl
    propagated_last pos at p name (item e end) = rw (propagated pos at e)
    propagated_last pos none p name (item e (item e' end)) =
        ap (next_do host (gen host unknown none e))
          (fun_ext λ name'. propagated_last pos none p name' (item e' end))
    propagated_last pos (some q) p name (item e (item e' end)) =
        ap (next_do host (gen host unknown none e))
          (fun_ext λ name'. propagated_last pos (some q) p name' (item e' end))
    propagated_last pos none p name (item e (item e' (item e'' es))) =
        ap (next_do host (gen host unknown none e))
          (fun_ext λ name'. propagated_last pos none p name' (item e' (item e'' es)))
    propagated_last pos (some q) p name (item e (item e' (item e'' es))) =
        ap (next_do host (gen host unknown none e))
          (fun_ext λ name'. propagated_last pos (some q) p name' (item e' (item e'' es)))

    propagated_catches :
        (pos : Position) (catches : Catches) (jump_blk merge_blk : ℕ) (loc : Identifier)
        (finally_blk : Option Identifier)
        → gen_catches host unknown jump_blk merge_blk loc finally_blk
            (propagate_catches pos catches)
          ≡ gen_catches host unknown jump_blk merge_blk loc finally_blk catches
    propagated_catches pos no_catches jump_blk merge_blk loc finally_blk = refl
    propagated_catches pos (Catches.catch_ sym type body rest) jump_blk merge_blk loc finally_blk =
        rw (propagated_typed pos (some value_) body)
          (rw (propagated_catches pos rest jump_blk merge_blk loc finally_blk))

    propagated_cases :
        (pos : Position) (merge_blk : ℕ) (loc : Identifier) (blocks : List (Handle × Identifier))
        (cases : Cases)
        → gen_cases host unknown merge_blk loc blocks (propagate_cases pos cases)
          ≡ gen_cases host unknown merge_blk loc blocks cases
    propagated_cases pos merge_blk loc blocks no_cases = refl
    propagated_cases pos merge_blk loc blocks (Cases.case_expr key e rest) =
        gen_case_block-congr host merge_blk loc blocks key (propagated pos (some value_) e)
          (λ blocks'. propagated_cases pos merge_blk loc blocks' rest)

  -- To propagate a position before an expression is generated is to generate it with that position.
  pub gen-propagate_position :
      (pos : Position) (e : Expr)
      → gen host unknown none (propagate_position pos e) ≡ gen host unknown (some pos) e
  gen-propagate_position pos e = propagated pos none e
