-- ===== src/Ir/Rewrite/Parts.antt =====
-- The rewriting of the parts of an instruction: one lemma for each kind of part and each law.
use jank.Prelude.{
  false, List, [], ◌∷◌, Option, none, some, ◌≡◌, ◌≢◌, refl, arith, Bytes, eq_bytes_iff,
}
use jank.Ir.Instruction.{Identifier, Handle, TypedIdentifier}
use jank.Ir.Rewrite.{
  Rewritten, rewrite_each, rewrite, rewrite_option, rewrite_entry, rewrite_typed, rewrite_capture,
  rewrite_optional_typed, rewrite_target,
}

-- The second rewriting finds nothing in what the first one returns.
abbrev pub Clears {ℓ} : {A : Type ℓ} → (A → Rewritten A) → (A → Rewritten A) → A → Type 0
Clears f g a = (g (f a).value).rewritten ≡ false

pub Clears-each {ℓ} :
    {A : Type ℓ} (f g : A → Rewritten A)
    → ((a : A) → Clears f g a)
    → (xs : List A) → Clears (rewrite_each f) (rewrite_each g) xs
unfolding rewrite_each
Clears-each f g h [] = refl
Clears-each f g h (x ∷ xs) = ground (arith, h x, Clears-each f g h xs)

module _ (a b : Identifier) (ne : a ≢ b) where
  pub Clears-name : (n : Identifier) → Clears (rewrite a b) (rewrite a a) n
  unfolding rewrite
  Clears-name n = ground (arith, eq_bytes_iff n a, eq_bytes_iff b a)

  pub Clears-option : (o : Option Identifier) → Clears (rewrite_option a b) (rewrite_option a a) o
  unfolding rewrite_option
  Clears-option none = refl
  Clears-option (some n) = ground (arith, Clears-name n)

  pub Clears-entry :
      (e : Identifier × Identifier) → Clears (rewrite_entry a b) (rewrite_entry a a) e
  unfolding rewrite_entry
  Clears-entry (k, v) = ground (arith, Clears-name k, Clears-name v)

  pub Clears-typed : (t : TypedIdentifier) → Clears (rewrite_typed a b) (rewrite_typed a a) t
  unfolding rewrite_typed
  Clears-typed t = ground (arith, Clears-name t.name)

  pub Clears-optional_typed :
      (o : Option TypedIdentifier)
      → Clears (rewrite_optional_typed a b) (rewrite_optional_typed a a) o
  unfolding rewrite_optional_typed
  Clears-optional_typed none = refl
  Clears-optional_typed (some t) = ground (arith, Clears-name t.name)

  pub Clears-capture :
      (c : Bytes × TypedIdentifier) → Clears (rewrite_capture a b) (rewrite_capture a a) c
  unfolding rewrite_capture
  Clears-capture (k, t) = ground (arith, Clears-name t.name)

  pub Clears-target : (c : Handle × Identifier) → Clears (rewrite_target a b) (rewrite_target a a) c
  unfolding rewrite_target
  Clears-target (k, n) = ground (arith, Clears-name n)

  pub Clears-names :
      (xs : List Identifier) → Clears (rewrite_each (rewrite a b)) (rewrite_each (rewrite a a)) xs
  Clears-names = Clears-each (rewrite a b) (rewrite a a) Clears-name

  pub Clears-entries :
      (xs : List (Identifier × Identifier))
      → Clears (rewrite_each (rewrite_entry a b)) (rewrite_each (rewrite_entry a a)) xs
  Clears-entries = Clears-each (rewrite_entry a b) (rewrite_entry a a) Clears-entry

  pub Clears-captures :
      (xs : List (Bytes × TypedIdentifier))
      → Clears (rewrite_each (rewrite_capture a b)) (rewrite_each (rewrite_capture a a)) xs
  Clears-captures = Clears-each (rewrite_capture a b) (rewrite_capture a a) Clears-capture

  pub Clears-targets :
      (xs : List (Handle × Identifier))
      → Clears (rewrite_each (rewrite_target a b)) (rewrite_each (rewrite_target a a)) xs
  Clears-targets = Clears-each (rewrite_target a b) (rewrite_target a a) Clears-target

-- The first rewriting adds nothing for the second one to find.
abbrev pub Stays {ℓ} : {A : Type ℓ} → (A → Rewritten A) → (A → Rewritten A) → A → Type 0
Stays f g a = (g a).rewritten ≡ false → (g (f a).value).rewritten ≡ false

pub Stays-each {ℓ} :
    {A : Type ℓ} (f g : A → Rewritten A)
    → ((a : A) → Stays f g a)
    → (xs : List A) → Stays (rewrite_each f) (rewrite_each g) xs
unfolding rewrite_each
Stays-each f g h [] u = refl
Stays-each f g h (x ∷ xs) u = ground (arith, h x, Stays-each f g h xs)

module _ (a b c : Identifier) (ne : c ≢ b) where
  pub Stays-name : (n : Identifier) → Stays (rewrite a b) (rewrite c c) n
  unfolding rewrite
  Stays-name n u = ground (arith, eq_bytes_iff b c)

  pub Stays-option : (o : Option Identifier) → Stays (rewrite_option a b) (rewrite_option c c) o
  unfolding rewrite_option
  Stays-option none u = refl
  Stays-option (some n) u = ground (arith, Stays-name n)

  pub Stays-entry : (e : Identifier × Identifier) → Stays (rewrite_entry a b) (rewrite_entry c c) e
  unfolding rewrite_entry
  Stays-entry (k, v) u = ground (arith, Stays-name k, Stays-name v)

  pub Stays-optional_typed :
      (o : Option TypedIdentifier)
      → Stays (rewrite_optional_typed a b) (rewrite_optional_typed c c) o
  unfolding rewrite_optional_typed
  Stays-optional_typed none u = refl
  Stays-optional_typed (some t) u = ground (arith, Stays-name t.name)

  pub Stays-capture :
      (e : Bytes × TypedIdentifier) → Stays (rewrite_capture a b) (rewrite_capture c c) e
  unfolding rewrite_capture
  Stays-capture (k, t) u = ground (arith, Stays-name t.name)

  pub Stays-target : (e : Handle × Identifier) → Stays (rewrite_target a b) (rewrite_target c c) e
  unfolding rewrite_target
  Stays-target (k, n) u = ground (arith, Stays-name n)

  pub Stays-names :
      (xs : List Identifier) → Stays (rewrite_each (rewrite a b)) (rewrite_each (rewrite c c)) xs
  Stays-names = Stays-each (rewrite a b) (rewrite c c) Stays-name

  pub Stays-entries :
      (xs : List (Identifier × Identifier))
      → Stays (rewrite_each (rewrite_entry a b)) (rewrite_each (rewrite_entry c c)) xs
  Stays-entries = Stays-each (rewrite_entry a b) (rewrite_entry c c) Stays-entry

  pub Stays-captures :
      (xs : List (Bytes × TypedIdentifier))
      → Stays (rewrite_each (rewrite_capture a b)) (rewrite_each (rewrite_capture c c)) xs
  Stays-captures = Stays-each (rewrite_capture a b) (rewrite_capture c c) Stays-capture

  pub Stays-targets :
      (xs : List (Handle × Identifier))
      → Stays (rewrite_each (rewrite_target a b)) (rewrite_each (rewrite_target c c)) xs
  Stays-targets = Stays-each (rewrite_target a b) (rewrite_target c c) Stays-target
