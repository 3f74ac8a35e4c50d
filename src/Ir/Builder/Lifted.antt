-- ===== src/Ir/Builder/Lifted.antt =====
-- The constants that the builder lifts: compiler+runtime/src/cpp/jank/ir/builder.cpp.
use jank.Prelude.{
  ◌+◌, ◌≡◌, refl, ap, Bool, true, false, ◌∷◌, none, some, codes, inl, inr, Option-cases,
}
use jank.Runtime.Munge.{munge}
use jank.Runtime.UniqueString.{unique_string_with}
use jank.Ir.Instruction.{Identifier, Handle}
use jank.Ir.Builder.{Builder, pure, ◌>>=◌, ◌>>◌, gets, modify}
use jank.Ir.Builder.Emit.{Host, find_constant, lifted_name}
use jank.Ir.Builder.Values.{lift_constant, lift_as}

abbrev lifted_at : Builder → Identifier
lifted_at b = munge (unique_string_with (codes "const") (b.symbol_counter + 1))

-- The builder with a new lifted constant.
abbrev with_constant : Handle → Builder → Builder
with_constant v b = record b {
  symbol_counter = b.symbol_counter + 1;
  mod_ = record b.mod_ { lifted_constants = (v, lifted_at b) ∷ b.mod_.lifted_constants };
}

module _ (host : Host) where
  abbrev same : Handle → Handle → Bool
  same = host.very_equal_to_with_meta

  -- The two branches.
  lift-new :
      (v : Handle) (b : Builder)
      → find_constant same b.mod_.lifted_constants v ≡ none
      → lift_constant host v b ≡ some (lifted_at b, with_constant v b)
  unfolding lift_constant lifted_name ◌>>=◌ ◌>>◌ gets modify pure
  lift-new v b missing = ap (λ o. lift_as host v o b) missing

  lift-found :
      (v : Handle) (b : Builder) (name : Identifier)
      → find_constant same b.mod_.lifted_constants v ≡ some name
      → lift_constant host v b ≡ some (name, b)
  unfolding lift_constant ◌>>=◌ gets pure
  lift-found v b name found = ap (λ o. lift_as host v o b) found

  -- A constant keeps the name under which it was lifted first: to lift it always ends; to lift it
  -- again returns the same name and changes nothing; and every constant that differs from it is
  -- found as before. The comparison finds a constant the same as itself.
  pub lift_constant-lifted :
      (v : Handle) (b : Builder)
      → same v v ≡ true
      → (name : Identifier) × (b' : Builder) × (lift_constant host v b ≡ some (name, b'))
        × (lift_constant host v b' ≡ some (name, b'))
        × ((w : Handle)
            → same v w ≡ false
            → find_constant same b'.mod_.lifted_constants w
              ≡ find_constant same b.mod_.lifted_constants w)
  unfolding find_constant
  lift_constant-lifted v b reflexive =
      elim (Option-cases (find_constant same b.mod_.lifted_constants v)) [
        | inl missing ↦ (
          lifted_at b,
          with_constant v b,
          lift-new v b missing,
          lift-found v (with_constant v b) (lifted_at b) (rw reflexive refl),
          λ w differs. rw differs refl,
        )
        | inr (name, found) ↦
            (name, b, lift-found v b name found, lift-found v b name found, λ w differs. refl)
      ]
