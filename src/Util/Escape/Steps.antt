-- ===== src/Util/Escape/Steps.antt =====
-- The rounds of `unescape`, and the input that each of them leaves.
use jank.Prelude.{
  ℕ, zero, suc, ◌≤◌, Bool, true, false, [], ◌∷◌, ◌++◌, Option, ◌≢◌, arith, inl, inr, ◌==◌,
  Bool-cases, Option-cases, length, take, drop, Bytes,
}
use jank.Util.Escape.{
  Step, advance, invalid, thrown, err, exception, unfinished, has_low, low_step, unicode_step,
  escaped_step, plain_step, step, unescape_from, unescape, unescape_unicode, is_surrogate_high,
  is_surrogate_low, to_char, combine_surrogate_pair, case_of, unescape_codes,
}

length-drop : (n : ℕ) (xs : Bytes) → length (drop n xs) ≤ length xs
length-drop zero xs = omega arith
length-drop (suc n) [] = omega arith
length-drop (suc n) (x ∷ xs) = omega (arith, length-drop n xs)

-- The step leaves at most `n` bytes.
abbrev Leaves : ℕ → Step → Type 0
Leaves n (advance text escape rest) = length rest ≤ n
Leaves n _ = Unit

Leaves-mono : (m n : ℕ) (s : Step) → m ≤ n → Leaves m s → Leaves n s
Leaves-mono m n (advance text escape rest) le h = omega (arith, h)
Leaves-mono m n (invalid sequence) le h = tt
Leaves-mono m n thrown le h = tt

module _ (wcrtomb : ℕ → Option Bytes) where
  low_step-Leaves : (high : ℕ) (rest : Bytes) → Leaves (length rest) (low_step wcrtomb high rest)
  unfolding low_step
  low_step-Leaves high rest = elim (Option-cases (unescape_unicode (take 4 (drop 2 rest)))) [
    | inl e ↦ rw (e, low_step) tt
    | inr (low, e) ↦
        rw (e, low_step)
          (elim (Bool-cases (is_surrogate_low low)) [
            | inl pair ↦
                rw (pair, low_step)
                  (elim (Option-cases (to_char wcrtomb (combine_surrogate_pair high low))) [
                    | inl e' ↦ rw (e', low_step) tt
                    | inr (text, e') ↦ rw (e', low_step) (length-drop 6 rest)
                  ])
            | inr single ↦ rw (single, low_step) (length-drop 6 rest)
          ])
  ]

  unicode_step-Leaves : (tail : Bytes) → Leaves (length tail) (unicode_step wcrtomb tail)
  unfolding unicode_step
  unicode_step-Leaves tail = elim (Option-cases (unescape_unicode (take 4 tail))) [
    | inl e ↦ rw (e, unicode_step) tt
    | inr (high, e) ↦
        rw (e, unicode_step)
          (elim (Bool-cases (is_surrogate_high high)) [
            | inr plain ↦ rw (plain, unicode_step) (length-drop 4 tail)
            | inl first ↦
                rw (first, unicode_step)
                  (elim (Bool-cases (has_low (drop 4 tail))) [
                    | inr alone ↦ rw (alone, unicode_step) (length-drop 4 tail)
                    | inl pair ↦
                        rw (pair, unicode_step)
                          (Leaves-mono (length (drop 4 tail)) (length tail)
                            (low_step wcrtomb high (drop 4 tail)) (length-drop 4 tail)
                            (low_step-Leaves high (drop 4 tail)))
                  ])
          ])
  ]

  escaped_step-Leaves : (c : ℕ) (rest : Bytes) → Leaves (length rest) (escaped_step wcrtomb c rest)
  unfolding escaped_step
  escaped_step-Leaves c rest = elim (Option-cases (case_of unescape_codes c)) [
    | inl e ↦ rw (e, escaped_step) tt
    | inr (x, e) ↦ rw (e, escaped_step) (omega arith)
  ]

  plain_step-Leaves : (c : ℕ) (rest : Bytes) → Leaves (length rest) (plain_step wcrtomb c rest)
  unfolding plain_step
  plain_step-Leaves c [] = elim (Bool-cases (c == 92)) [
    | inl slash ↦ rw (slash, plain_step) (omega arith)
    | inr other ↦ rw (other, plain_step) (omega arith)
  ]
  plain_step-Leaves c (d ∷ tail) = elim (Bool-cases (c == 92)) [
    | inr other ↦ rw (other, plain_step) (omega arith)
    | inl slash ↦
        rw (slash, plain_step)
          (elim (Bool-cases (d == b'u')) [
            | inl unicode ↦
                rw (unicode, plain_step)
                  (Leaves-mono (length tail) (length (d ∷ tail)) (unicode_step wcrtomb tail)
                    (omega arith) (unicode_step-Leaves tail))
            | inr simple ↦ rw (simple, plain_step) (omega arith)
          ])
  ]

  step-Leaves :
      (escape : Bool) (c : ℕ) (rest : Bytes) → Leaves (length rest) (step wcrtomb escape c rest)
  unfolding step
  step-Leaves true c rest = escaped_step-Leaves c rest
  step-Leaves false c rest = plain_step-Leaves c rest

  -- A round ends if every round after it does.
  ends_after :
      (fuel : ℕ) (sb rest : Bytes) (s : Step)
      → Leaves (length rest) s
      → length rest ≤ fuel
      → ((escape : Bool) (input sb' : Bytes)
          → length input ≤ fuel
          → unescape_from wcrtomb fuel escape input sb' ≢ unfinished)
      → (elim s [
        | advance text escape' rest' ↦ unescape_from wcrtomb fuel escape' rest' (sb ++ text)
        | invalid sequence ↦ err sequence
        | thrown ↦ exception
      ])
        ≢ unfinished
  ends_after fuel sb rest (advance text escape' rest') h le again =
      again escape' rest' (sb ++ text) (omega (arith, h, le))
  ends_after fuel sb rest (invalid sequence) h le again = λ e. cc e
  ends_after fuel sb rest thrown h le again = λ e. cc e

  unescape_from-ends :
      (fuel : ℕ) (escape : Bool) (input sb : Bytes)
      → length input ≤ fuel
      → unescape_from wcrtomb fuel escape input sb ≢ unfinished
  unfolding unescape_from
  unescape_from-ends fuel escape [] sb le = λ e. cc e
  unescape_from-ends zero escape (c ∷ rest) sb le = absurd (omega (arith, le))
  unescape_from-ends (suc fuel) escape (c ∷ rest) sb le =
      ends_after fuel sb rest (step wcrtomb escape c rest) (step-Leaves escape c rest)
        (omega (arith, le)) (unescape_from-ends fuel)

  -- `unescape` ends on every input: it returns the text, or an error, or throws.
  pub unescape-ends : (input : Bytes) → unescape wcrtomb input ≢ unfinished
  unfolding unescape
  unescape-ends input = unescape_from-ends (length input) false input [] (omega arith)
