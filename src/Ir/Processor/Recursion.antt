-- ===== src/Ir/Processor/Recursion.antt =====
-- References to enclosing functions: compiler+runtime/src/cpp/jank/ir/processor.cpp.
use jank.Prelude.{
  ◌≡◌, refl, ap, ◌∙◌, Bool, true, false, [], Option, none, some, Bytes, at, put, at-put, eq_bytes,
  eq_bytes_refl, ◌==◌,
}
use jank.Runtime.Munge.{munge}
use jank.Analyze.Expr.{value_, FunctionContext}
use jank.Ir.Instruction.{Identifier, Handle}
use jank.Ir.Builder.{Builder, M, pure, ◌>>=◌, gets, modify}
use jank.Ir.Builder.Emit.{Host, return_tail}
use jank.Ir.Builder.Control.{recursion_reference}
use jank.Ir.Builder.Emission.{bind-step}
use jank.Ir.Processor.{local_at, bind_local, yields}
use jank.Ir.Processor.Functions.{gen_recursion_reference}

module _ (host : Host) where
  -- The value of a local that is not there is the empty name.
  local_at-missing :
      (name : Bytes) (b : Builder)
      → at b.locals name ≡ none
      → local_at name b ≡ some ([], record b { locals = put b.locals name [] })
  unfolding local_at
  local_at-missing name b missing =
      ap
        (λ o. elim o as (λ _. Option (Identifier × Builder)) [
          | none ↦ some ([], record b { locals = put b.locals name [] })
          | some v ↦ some (v, b)
        ])
        missing

  -- The parts of the reference behind the context of the current function.
  abbrev chosen : Handle → FunctionContext → Bool → M (Option Identifier)
  chosen type ctx t = elim t [
    | true ↦ yields (recursion_reference host value_)
    | false ↦ (local_at ctx.name >>= λ name. yields (return_tail value_ name type))
  ]

  abbrev referred : Handle → FunctionContext → Handle → M (Option Identifier)
  referred type ctx fn_ctx = chosen type ctx (ctx.id == fn_ctx)

  -- Where the name of an enclosing function is not a local and changes when it is munged, and the
  -- local for the function is bound under the munged name, as its parameters and captures are, a
  -- reference to the function in value position yields the empty name, not the local's.
  pub gen_recursion_reference-unbound :
      (type : Handle) (ctx : FunctionContext) (value : Identifier) (b : Builder)
      → (ctx.id == b.fn_ctx) ≡ false
      → at b.locals ctx.name ≡ none
      → eq_bytes (munge ctx.name) ctx.name ≡ false
      → (b' b'' : Builder) × (bind_local (munge ctx.name) value b ≡ some (tt, b'))
        × (at b'.locals (munge ctx.name) ≡ some value)
        × (gen_recursion_reference host value_ type ctx b' ≡ some (some [], b''))
  unfolding bind_local modify gen_recursion_reference yields return_tail gets pure ◌>>=◌
  gen_recursion_reference-unbound type ctx value b other missing changed =
      let b' : Builder = record b { locals = put b.locals (munge ctx.name) value } in
      let absent : at b'.locals ctx.name ≡ none =
        at-put b.locals (munge ctx.name) ctx.name value ∙ rw changed missing in
      let bound : at b'.locals (munge ctx.name) ≡ some value =
        at-put b.locals (munge ctx.name) (munge ctx.name) value
        ∙ rw (eq_bytes_refl (munge ctx.name)) refl in
      (
        b',
        record b' { locals = put b'.locals ctx.name [] },
        refl,
        bound,
        bind-step (gets λ c. c.fn_ctx) (referred type ctx) b' refl
            ∙ ap (λ t. chosen type ctx t b') other
            ∙ bind-step (local_at ctx.name) (λ name. yields (return_tail value_ name type)) b'
                (local_at-missing ctx.name b' absent),
      )
