-- ===== src/Ir/Walk/Uses.antt =====
-- The references of an instruction among the operands that `uses_name` looks at.
use jank.Prelude.{
  true, List, [], ◌∷◌, Option, none, some, ◌≡◌, refl, arith, Bytes, eq_bytes, eq_bytes_iff,
  contains, contains-append,
}
use jank.Ir.Instruction.{Identifier, TypedIdentifier, Instruction, Op, cpp_call}
use jank.Ir.Rewrite.{
  rewrite_each, rewrite, rewrite_option, rewrite_entry, rewrite_typed, rewrite_capture,
  rewrite_optional_typed, rewrite_op, uses_name,
}
use jank.Ir.Walk.{optional, optional_typed, entries, capture_names, op_references, references}
use jank.Ir.Walk.Rename.{IsRewritten}

module _ (a : Identifier) where
  uses-name : (n : Identifier) → (rewrite a a n).rewritten ≡ eq_bytes a n
  unfolding rewrite
  uses-name n = ground (arith, eq_bytes_iff n a, eq_bytes_iff a n)

  uses-names : (xs : List Identifier) → (rewrite_each (rewrite a a) xs).rewritten ≡ contains xs a
  unfolding rewrite_each contains
  uses-names [] = refl
  uses-names (x ∷ xs) = ground (arith, uses-name x, uses-names xs)

  uses-entries :
      (xs : List (Identifier × Identifier))
      → (rewrite_each (rewrite_entry a a) xs).rewritten ≡ contains (entries xs) a
  unfolding rewrite_each rewrite_entry entries contains
  uses-entries [] = refl
  uses-entries ((k, v) ∷ xs) = ground (arith, uses-name k, uses-name v, uses-entries xs)

  uses-captures :
      (xs : List (Bytes × TypedIdentifier))
      → (rewrite_each (rewrite_capture a a) xs).rewritten ≡ contains (capture_names xs) a
  unfolding rewrite_each rewrite_capture rewrite_typed capture_names contains
  uses-captures [] = refl
  uses-captures ((k, t) ∷ xs) = ground (arith, uses-name t.name, uses-captures xs)

  uses-option : (o : Option Identifier) → (rewrite_option a a o).rewritten ≡ contains (optional o) a
  unfolding rewrite_option contains
  uses-option none = refl
  uses-option (some n) = ground (arith, uses-name n)

  uses-optional_typed :
      (o : Option TypedIdentifier)
      → (rewrite_optional_typed a a o).rewritten ≡ contains (optional_typed o) a
  unfolding rewrite_optional_typed rewrite_typed contains
  uses-optional_typed none = refl
  uses-optional_typed (some t) = ground (arith, uses-name t.name)

  uses-op_references :
      (name : Identifier) (op : Op)
      → IsRewritten op
      → contains (op_references name op) a ≡ true
      → uses_name op a ≡ true
  unfolding op_references rewrite_op uses_name contains
  uses-op_references name (cpp_call value args expr) r h =
      grind (arith, uses-option value, uses-names args, contains-append (optional value) args a)
  uses-op_references name _ r h =
      grind (
        arith, uses-name, uses-names, uses-entries, uses-captures, uses-option, uses-optional_typed,
      )

  -- Every identifier that `walk_references` reports of an instruction is one that `uses_name`
  -- finds, except for the references of `case*` and `loop` and the one that a `branch_get` makes to
  -- itself.
  pub references-uses_name :
      (i : Instruction)
      → IsRewritten i.op
      → contains (references i) a ≡ true
      → uses_name i.op a ≡ true
  unfolding references
  references-uses_name i r h = uses-op_references i.name i.op r h
