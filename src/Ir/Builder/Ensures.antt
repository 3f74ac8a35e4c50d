-- ===== src/Ir/Builder/Ensures.antt =====
-- Conditions that builder code establishes when it returns.
use mathlib.Core.Path.{subst}
use mathlib.Core.Option.{some-injective}
use jank.Prelude.{◌≡◌, refl, Option, none, some}
use jank.Ir.Builder.{Builder, M, pure, ◌>>=◌, ◌>>◌, gets, modify}

-- From a state with `P`, whatever `m` returns has `Q`.
pub record Ensures {A : Type 0} (P : Builder → Type 0) (m : M A) (Q : A → Builder → Type 0)
    : Type 0 where
  pub at_return : (b : Builder) → P b → (r : A) (b' : Builder) → m b ≡ some (r, b') → Q r b'

abbrev pub Any : Builder → Type 0
Any b = Unit

module _ {A B : Type 0} where
  continue_with :
      (o : Option (A × Builder)) (f : A → M B) (R : A → Builder → Type 0) (Q : B → Builder → Type 0)
      → ((a : A) (c : Builder) → o ≡ some (a, c) → R a c)
      → ((a : A) → Ensures (R a) (f a) Q)
      → (r : B) (b' : Builder)
      → elim o as (λ _. Option (B × Builder)) [ none ↦ none | some (a, c) ↦ f a c ] ≡ some (r, b')
      → Q r b'
  continue_with none f R Q first rest r b' e = cc
  continue_with (some (a, c)) f R Q first rest r b' e = (rest a).at_return c (first a c refl) r b' e

  pub bind-Ensures :
      {P : Builder → Type 0} {m : M A} {f : A → M B} (R : A → Builder → Type 0)
      {Q : B → Builder → Type 0}
      → Ensures P m R
      → ((a : A) → Ensures (R a) (f a) Q)
      → Ensures P (m >>= f) Q
  unfolding ◌>>=◌
  bind-Ensures {P} {m} {f} R {Q} first rest = record {
    at_return =
        λ b p r b' e. continue_with (m b) f R Q (λ a c. first.at_return b p a c) rest r b' e;
  }

  -- What the code behind `m` establishes from any state.
  pub bind-Any :
      (m : M A) {P : Builder → Type 0} (f : A → M B) {Q : B → Builder → Type 0}
      → ((a : A) → Ensures Any (f a) Q)
      → Ensures P (m >>= f) Q
  bind-Any m f rest = bind-Ensures (λ a b. Any b) (record { at_return = λ b p r b' e. tt }) rest

module _ {A : Type 0} where
  pub then-Ensures :
      {P : Builder → Type 0} {m : M (Unit {0})} {k : M A} (R : Builder → Type 0)
      {Q : A → Builder → Type 0}
      → Ensures P m (λ _ b. R b)
      → Ensures R k Q
      → Ensures P (m >> k) Q
  unfolding ◌>>◌
  then-Ensures R first rest = bind-Ensures (λ _ b. R b) first (λ _. rest)

  pub then-Any :
      (m : M (Unit {0})) {P : Builder → Type 0} (k : M A) {Q : A → Builder → Type 0}
      → Ensures Any k Q
      → Ensures P (m >> k) Q
  unfolding ◌>>◌
  then-Any m k rest = bind-Any m (λ _. k) (λ _. rest)

  pub pure-Ensures :
      {P : Builder → Type 0} (a : A) {Q : A → Builder → Type 0}
      → ((b : Builder) → P b → Q a b)
      → Ensures P (pure a) Q
  unfolding pure
  pure-Ensures {P} a {Q} holds = record {
    at_return = λ b p r b' e. subst (λ t. Q t.0 t.1) (some-injective _ _ e) (holds b p);
  }

  pub weaken :
      {P P' : Builder → Type 0} {m : M A} {Q Q' : A → Builder → Type 0}
      → ((b : Builder) → P' b → P b)
      → ((a : A) (b : Builder) → Q a b → Q' a b)
      → Ensures P m Q
      → Ensures P' m Q'
  weaken before after h = record {
    at_return = λ b p r b' e. after r b' (h.at_return b (before b p) r b' e);
  }

pub gets-Ensures :
    {A : Type 0} {P : Builder → Type 0} (f : Builder → A) {Q : Builder → Type 0}
    → ((b : Builder) → P b → Q b)
    → Ensures P (gets f) (λ _ b. Q b)
unfolding gets
gets-Ensures {A} {P} f {Q} holds = record {
  at_return = λ b p r b' e. subst (λ t. Q t.1) (some-injective _ _ e) (holds b p);
}

pub modify-Ensures :
    {P : Builder → Type 0} (f : Builder → Builder) {Q : Unit {0} → Builder → Type 0}
    → ((b : Builder) → P b → Q tt (f b))
    → Ensures P (modify f) Q
unfolding modify
modify-Ensures {P} f {Q} keeps = record {
  at_return = λ b p r b' e. subst (λ t. Q t.0 t.1) (some-injective _ _ e) (keeps b p);
}
