-- ===== src/Util/Escape/RoundTrip.antt =====
-- `unescape` on what `escape` wrote.
use jank.Prelude.{
  ℕ, zero, suc, ◌+◌, ◌≤◌, Bool, true, false, [], ◌∷◌, ◌++◌, Option, none, some, ◌≡◌, refl, ap, sym,
  ◌∙◌, arith, inl, inr, ◌⊎◌, ◌==◌, Option-cases, length, Bytes,
}
use mathlib.Core.List.{append_assoc}
use jank.Util.Escape.{
  advance, ok, escape_codes, unescape_codes, case_of, escape_byte, escape, escaped_step, plain_step,
  step, unescape_from, unescape,
}

-- How `escape` writes a byte: as it is, or as an escape sequence that `unescape` knows.
record Sequence (c : ℕ) : Type 0 where
  letter : ℕ
  written : escape_byte c ≡ 92 ∷ letter ∷ []
  not_unicode : (letter == b'u') ≡ false
  meant : case_of unescape_codes letter ≡ some c

record Copied (c : ℕ) : Type 0 where
  written : escape_byte c ≡ c ∷ []
  not_backslash : (c == 92) ≡ false

-- Every case of `escape` is undone by a case of `unescape`.
case_of-inverse :
    (c x : ℕ)
    → case_of escape_codes c ≡ some x
    → ((x == b'u') ≡ false) × (case_of unescape_codes x ≡ some c)
unfolding case_of
case_of-inverse c x e = ground (arith, e)

case_of-backslash : (c : ℕ) → case_of escape_codes c ≡ none → (c == 92) ≡ false
unfolding case_of
case_of-backslash c e = ground (arith, e)

Copied-or-Sequence : (c : ℕ) → Copied c ⊎ Sequence c
unfolding escape_byte
Copied-or-Sequence c = elim (Option-cases (case_of escape_codes c)) [
  | inl e ↦
      inl (record { written = rw (e, escape_byte) refl; not_backslash = case_of-backslash c e })
  | inr (x, e) ↦
      let (other, meant) = case_of-inverse c x e in
      inr (record {
        letter = x;
        written = rw (e, escape_byte) refl;
        not_unicode = other;
        meant = meant;
      })
]

module _ (wcrtomb : ℕ → Option Bytes) where
  step-plain :
      (c : ℕ) (rest : Bytes)
      → (c == 92) ≡ false
      → step wcrtomb false c rest ≡ advance (c ∷ []) false rest
  unfolding step plain_step
  step-plain c [] h = rw h
  step-plain c (d ∷ rest) h = rw h

  step-backslash :
      (x : ℕ) (rest : Bytes)
      → (x == b'u') ≡ false
      → step wcrtomb false 92 (x ∷ rest) ≡ advance [] true (x ∷ rest)
  unfolding step plain_step
  step-backslash x rest h = rw h

  step-letter :
      (x c : ℕ) (rest : Bytes)
      → case_of unescape_codes x ≡ some c
      → step wcrtomb true x rest ≡ advance (c ∷ []) false rest
  unfolding step escaped_step
  step-letter x c rest h = rw (h, escaped_step) refl

  unescape_from-step :
      (fuel : ℕ) (escape : Bool) (c : ℕ) (rest sb text : Bytes) (escape' : Bool) (rest' : Bytes)
      → step wcrtomb escape c rest ≡ advance text escape' rest'
      → unescape_from wcrtomb (suc fuel) escape (c ∷ rest) sb
        ≡ unescape_from wcrtomb fuel escape' rest' (sb ++ text)
  unfolding unescape_from
  unescape_from-step fuel escape c rest sb text escape' rest' h = rw (h, unescape_from) refl

  append_nil : (sb : Bytes) → sb ++ [] ≡ sb
  append_nil [] = refl
  append_nil (x ∷ sb) = ap (λ (xs : Bytes). x ∷ xs) (append_nil sb)

  -- The two rounds of an escape sequence.
  unescape_from-Sequence :
      (fuel c : ℕ) (s : Sequence c) (rest sb : Bytes)
      → unescape_from wcrtomb (suc (suc fuel)) false (92 ∷ s.letter ∷ rest) sb
        ≡ unescape_from wcrtomb fuel false rest (sb ++ c ∷ [])
  unescape_from-Sequence fuel c s rest sb =
      unescape_from-step (suc fuel) false 92 (s.letter ∷ rest) sb [] true (s.letter ∷ rest)
        (step-backslash s.letter rest s.not_unicode)
      ∙ ap (unescape_from wcrtomb (suc fuel) true (s.letter ∷ rest)) (append_nil sb)
      ∙ unescape_from-step fuel true s.letter rest sb (c ∷ []) false rest
          (step-letter s.letter c rest s.meant)

  -- What the rounds after the first character do.
  abbrev Recovers : Bytes → Type 0
  Recovers input =
      (fuel : ℕ) (sb : Bytes)
      → length (escape input) ≤ fuel
      → unescape_from wcrtomb fuel false (escape input) sb ≡ ok (sb ++ input)

  snoc : (sb : Bytes) (c : ℕ) (input : Bytes) → ok ((sb ++ c ∷ []) ++ input) ≡ ok (sb ++ c ∷ input)
  snoc sb c input = ap (λ (xs : Bytes). ok xs) (append_assoc sb (c ∷ []) input)

  Copied-round :
      (c : ℕ) (input : Bytes)
      → Copied c
      → Recovers input
      → (fuel : ℕ) (sb : Bytes) → length (escape input) + 1 ≤ fuel
      → unescape_from wcrtomb fuel false (c ∷ escape input) sb ≡ ok (sb ++ c ∷ input)
  Copied-round c input copied again zero sb le = absurd (omega (arith, le))
  Copied-round c input copied again (suc fuel) sb le =
      unescape_from-step fuel false c (escape input) sb (c ∷ []) false (escape input)
        (step-plain c (escape input) copied.not_backslash)
      ∙ again fuel (sb ++ c ∷ []) (omega (arith, le))
      ∙ snoc sb c input

  Sequence-round :
      (c : ℕ) (input : Bytes) (s : Sequence c)
      → Recovers input
      → (fuel : ℕ) (sb : Bytes) → length (escape input) + 2 ≤ fuel
      → unescape_from wcrtomb fuel false (92 ∷ s.letter ∷ escape input) sb ≡ ok (sb ++ c ∷ input)
  Sequence-round c input s again zero sb le = absurd (omega (arith, le))
  Sequence-round c input s again (suc zero) sb le = absurd (omega (arith, le))
  Sequence-round c input s again (suc (suc fuel)) sb le =
      unescape_from-Sequence fuel c s (escape input) sb
      ∙ again fuel (sb ++ c ∷ []) (omega (arith, le))
      ∙ snoc sb c input

  escape-cons :
      (c : ℕ) (input w : Bytes) → escape_byte c ≡ w → escape (c ∷ input) ≡ w ++ escape input
  unfolding escape
  escape-cons c input w e = rw e

  unescape_from-escape : (input : Bytes) → Recovers input
  unescape_from-escape [] fuel sb le =
      unfold escape unescape_from in ap (λ (xs : Bytes). ok xs) (sym (append_nil sb))
  unescape_from-escape (c ∷ input) fuel sb le = elim (Copied-or-Sequence c) [
    | inl copied ↦
        let e = escape-cons c input (c ∷ []) copied.written in
        ap (λ xs. unescape_from wcrtomb fuel false xs sb) e
        ∙ Copied-round c input copied (unescape_from-escape input) fuel sb
            (omega (arith, le, ap length e))
    | inr s ↦
        let e = escape-cons c input (92 ∷ s.letter ∷ []) s.written in
        ap (λ xs. unescape_from wcrtomb fuel false xs sb) e
        ∙ Sequence-round c input s (unescape_from-escape input) fuel sb
            (omega (arith, le, ap length e))
  ]

  -- Whatever is escaped, `unescape` returns it.
  pub unescape-escape : (input : Bytes) → unescape wcrtomb (escape input) ≡ ok input
  unfolding unescape
  unescape-escape input = unescape_from-escape input (length (escape input)) [] (omega arith)
