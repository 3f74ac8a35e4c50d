-- ===== src/Ir/Walk/Rename.antt =====
-- What a rewriting does to the references of an instruction.
use mathlib.Core.List.{map-append}
use jank.Prelude.{
  sym, true, List, [], ◌∷◌, map, Option, none, some, ◌≡◌, refl, ap, arith, Bytes, if◌then◌else◌,
  eq_bytes, eq_bytes_iff, contains,
}
use jank.Ir.Instruction.{
  Identifier, TypedIdentifier, Instruction, Op, loop, case_, branch_get, cpp_call,
}
use jank.Ir.Rewrite.{
  rewrite_each, rewrite, rewrite_option, rewrite_entry, rewrite_capture, rewrite_optional_typed,
  rewrite_op, rewrite_instruction,
}
use jank.Ir.Walk.{
  optional, optional_typed, entries, capture_names, shadow_values, op_references, references,
}

-- The kinds whose references `rewrite_uses` skips: the value of a case and the initial values of
-- a loop. The reference of a `branch_get` is its own name, which is no operand.
abbrev pub IsRewritten : Op → Type 0
IsRewritten (loop loop_block merge_block shadow binding_shadows) = ⊥
IsRewritten (case_ shift mask value case_blocks default_block merge_block) = ⊥
IsRewritten branch_get = ⊥
IsRewritten _ = Unit

abbrev pub rename : Identifier → Identifier → Identifier → Identifier
rename a b n = if eq_bytes n a then b else n

cons_path :
    {x y : Identifier} {xs ys : List Identifier}
    → x ≡ y
    → xs ≡ ys
    → ◌≡◌ {A = List Identifier} (x ∷ xs) (y ∷ ys)
cons_path p q = cc

module _ (a b : Identifier) where
  rename-name : (n : Identifier) → (rewrite a b n).value ≡ rename a b n
  unfolding rewrite
  rename-name n = ground arith

  rename-names :
      (xs : List Identifier) → (rewrite_each (rewrite a b) xs).value ≡ map (rename a b) xs
  unfolding rewrite_each
  rename-names [] = refl
  rename-names (x ∷ xs) = rw (rename-name x, rename-names xs)

  rename-optional :
      (o : Option Identifier)
      → optional (rewrite_option a b o).value ≡ map (rename a b) (optional o)
  unfolding rewrite_option
  rename-optional none = refl
  rename-optional (some n) = rw (rename-name n)

  rename-optional_typed :
      (o : Option TypedIdentifier)
      → optional_typed (rewrite_optional_typed a b o).value ≡ map (rename a b) (optional_typed o)
  unfolding rewrite_optional_typed
  rename-optional_typed none = refl
  rename-optional_typed (some t) = rw (rename-name t.name)

  rename-entries :
      (xs : List (Identifier × Identifier))
      → entries (rewrite_each (rewrite_entry a b) xs).value ≡ map (rename a b) (entries xs)
  unfolding rewrite_each rewrite_entry entries
  rename-entries [] = refl
  rename-entries ((k, v) ∷ xs) = rw (rename-name k, rename-name v, rename-entries xs)

  rename-captures :
      (xs : List (Bytes × TypedIdentifier))
      → capture_names (rewrite_each (rewrite_capture a b) xs).value
        ≡ map (rename a b) (capture_names xs)
  unfolding rewrite_each rewrite_capture capture_names
  rename-captures [] = refl
  rename-captures ((k, t) ∷ xs) = rw (rename-name t.name, rename-captures xs)

  rename-op_references :
      (name : Identifier) (op : Op)
      → IsRewritten op
      → op_references name (rewrite_op a b op).value ≡ map (rename a b) (op_references name op)
  unfolding op_references rewrite_op
  rename-op_references name (case_ s m v cs d mb) h = elim h [ ]
  rename-op_references name (loop l m s bs) h = elim h [ ]
  rename-op_references name branch_get h = elim h [ ]
  rename-op_references name (cpp_call value args expr) h =
      rw (rename-optional value, rename-names args) (sym (map-append _ _ _))
  rename-op_references name _ h = search (
    refl,
    ap (λ (n : Identifier). n ∷ []),
    rename-name,
    rename-names,
    rename-optional,
    rename-optional_typed,
    rename-entries,
    rename-captures,
    cons_path,
  )

-- Rewriting `a` to `b` renames every reference of an instruction, except for the references of
-- `case*` and `loop` and the one that a `branch_get` makes to itself.
pub references-rewrite_instruction :
    (a b : Identifier) (i : Instruction)
    → IsRewritten i.op
    → references (rewrite_instruction a b i).value ≡ map (rename a b) (references i)
unfolding references rewrite_instruction
references-rewrite_instruction a b i h = rename-op_references a b i.name i.op h

-- The kinds that read a value which `rewrite_uses` leaves alone.
abbrev pub ReadsUnrewritten : Identifier → Op → Type 0
ReadsUnrewritten a (case_ s m value cases d merge) = value ≡ a
ReadsUnrewritten a (loop block merge shadow bindings) = contains (shadow_values bindings) a ≡ true
ReadsUnrewritten a _ = ⊥

misses :
    (a b name : Identifier) (op : Op)
    → ReadsUnrewritten a op
    → contains (op_references name (rewrite_op a b op).value) a ≡ true
unfolding op_references rewrite_op contains
misses a b name (case_ s m value cases d merge) h = ground (arith, eq_bytes_iff a value)
misses a b name (loop block merge shadow bindings) h = h
misses a b name _ h = elim h [ ]

-- A `case*` on the value `a`, and a loop with the initial value `a`, still read `a` after `a` was
-- rewritten to `b`, whatever `b` is.
pub rewrite_instruction_misses :
    (a b : Identifier) (i : Instruction)
    → ReadsUnrewritten a i.op
    → contains (references (rewrite_instruction a b i).value) a ≡ true
unfolding references rewrite_instruction
rewrite_instruction_misses a b i h = misses a b i.name i.op h
