-- ===== src/Util/Trim/Ends.antt =====
-- What `trim` of compiler+runtime/src/cpp/jank/util/string.cpp leaves, and what it erases.
use jank.Prelude.{
  ℕ, Bool, true, not, ◌&&◌, [], ◌∷◌, ◌++◌, ◌≡◌, refl, ap, ◌∙◌, arith, inl, inr, Bool-cases,
  if◌then◌else◌, all, Bytes,
}
use jank.Util.Trim.{trim_start, trim_end, trim, is_nothing}

module _ (is_space : ℕ → Bool) where
  -- No space stands at the start.
  unfoldable pub starts_bare : Bytes → Bool
  starts_bare [] = true
  starts_bare (c ∷ s) = not (is_space c)

  -- No space stands at the end.
  unfoldable pub ends_bare : Bytes → Bool
  ends_bare [] = true
  ends_bare (c ∷ s) = if is_nothing s then not (is_space c) else ends_bare s

  -- What `trim_start` does: it erases spaces only, and leaves none at the start.
  StartTrimmed : Bytes → Bytes → Type 0
  StartTrimmed s t =
      (before : Bytes) × (all is_space before ≡ true) × (s ≡ before ++ t) × (starts_bare t ≡ true)

  space_before :
      (c : ℕ) (s t : Bytes) → is_space c ≡ true → StartTrimmed s t → StartTrimmed (c ∷ s) t
  unfolding StartTrimmed all
  space_before c s t space (before, spaces, parts, starts) =
      (c ∷ before, ground arith, ap (λ r. c ∷ r) parts, starts)

  trim_start_lem : (s : Bytes) → StartTrimmed s (trim_start is_space s)
  unfolding StartTrimmed trim_start starts_bare all
  trim_start_lem [] = ([], refl, refl, refl)
  trim_start_lem (c ∷ s) = elim (Bool-cases (is_space c)) [
    | inl space ↦ rw space (space_before c s (trim_start is_space s) space (trim_start_lem s))
    | inr other ↦ rw other ([], refl, refl, rw other refl)
  ]

  -- What `trim_end` does: it erases spaces only, and leaves none at the end.
  EndTrimmed : Bytes → Bytes → Type 0
  EndTrimmed s t =
      (after : Bytes) × (all is_space after ≡ true) × (s ≡ t ++ after) × (ends_bare t ≡ true)

  trim_end_step :
      (c : ℕ) (s rest : Bytes)
      → EndTrimmed s rest
      → EndTrimmed (c ∷ s) (if is_nothing rest && is_space c then [] else c ∷ rest)
  unfolding EndTrimmed ends_bare all
  trim_end_step c s [] (after, spaces, parts, ends) = elim (Bool-cases (is_space c)) [
    | inl space ↦ rw space (c ∷ after, ground arith, ap (λ r. c ∷ r) parts, refl)
    | inr other ↦ rw other (after, spaces, ap (λ r. c ∷ r) parts, rw other refl)
  ]
  trim_end_step c s (d ∷ rest) (after, spaces, parts, ends) =
      (after, spaces, ap (λ r. c ∷ r) parts, ends)

  trim_end_lem : (s : Bytes) → EndTrimmed s (trim_end is_space s)
  unfolding EndTrimmed trim_end ends_bare all
  trim_end_lem [] = ([], refl, refl, refl)
  trim_end_lem (c ∷ s) = trim_end_step c s (trim_end is_space s) (trim_end_lem s)

  starts_bare-trim_end :
      (s : Bytes) → starts_bare s ≡ true → starts_bare (trim_end is_space s) ≡ true
  unfolding starts_bare trim_end
  starts_bare-trim_end [] bare = refl
  starts_bare-trim_end (c ∷ s) bare = ground arith

  -- `t` is `s` without the spaces around it.
  pub record Trimmed (s t : Bytes) : Type 0 where
    before : Bytes
    after : Bytes
    before_spaces : all is_space before ≡ true
    after_spaces : all is_space after ≡ true
    parts : s ≡ before ++ (t ++ after)
    starts : starts_bare t ≡ true
    ends : ends_bare t ≡ true

  -- `trim` erases spaces at the start and the end of a text, and nothing else, and leaves a text
  -- without a space at its ends.
  pub trim-Trimmed : (s : Bytes) → Trimmed s (trim is_space s)
  unfolding trim StartTrimmed EndTrimmed
  trim-Trimmed s =
      let start = trim_start is_space s in
      let (before, before_spaces, before_parts, starts) = trim_start_lem s in
      let (after, after_spaces, after_parts, ends) = trim_end_lem start in
      record {
        before = before;
        after = after;
        before_spaces = before_spaces;
        after_spaces = after_spaces;
        parts = before_parts ∙ ap (λ r. before ++ r) after_parts;
        starts = starts_bare-trim_end start starts;
        ends = ends;
      }
