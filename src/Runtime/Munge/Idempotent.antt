-- ===== src/Runtime/Munge/Idempotent.antt =====
-- A second `munge`: the callers munge parameter names twice.
use jank.Prelude.{
  ℕ, Bool, true, false, [], ◌∷◌, none, some, ◌≡◌, refl, inl, inr, Bool-cases, Option-cases,
  and_left, and_right, ap, ◌∙◌, Bytes, codes, contains, all, all-append,
}
use jank.Runtime.Munge.{munge_chars, cpp_keywords, replacement, munge_byte, munge_bytes, munge}
use jank.Runtime.Munge.Identifiers.{
  replacement-some, munge_byte-none, munge_byte-some, munge-not-keyword,
}

-- A byte that `munge` copies.
unfoldable pub is_copied : ℕ → Bool
unfolding replacement
is_copied c = elim (replacement munge_chars c) [ none ↦ true | some text ↦ false ]

copied-none : (c : ℕ) → is_copied c ≡ true → replacement munge_chars c ≡ none
unfolding is_copied
copied-none c h = elim (Option-cases (replacement munge_chars c)) [
  | inl e ↦ e
  | inr (text, e) ↦ cc (e, rw (e, is_copied) at h)
]

none-copied : (c : ℕ) → replacement munge_chars c ≡ none → is_copied c ≡ true
unfolding is_copied
none-copied c e = rw (e, is_copied)

texts_are_copied : all (λ (e : ℕ × Bytes). all is_copied e.1) munge_chars ≡ true
unfolding all is_copied
texts_are_copied = refl

munge_byte_copied : (c : ℕ) → all is_copied (munge_byte c) ≡ true
munge_byte_copied c = elim (Option-cases (replacement munge_chars c)) [
  | inl e ↦ rw (munge_byte-none c e) (one (none-copied c e))
  | inr (text, e) ↦
      rw (munge_byte-some c text e)
        (replacement-some (all is_copied) munge_chars c text texts_are_copied e)
]
  where
    one : is_copied c ≡ true → all is_copied (c ∷ []) ≡ true
    one h = unfold all in rw h

munge_bytes_copied : (o : Bytes) → all is_copied (munge_bytes o) ≡ true
unfolding munge_bytes all
munge_bytes_copied [] = refl
munge_bytes_copied (c ∷ o) =
    all-append is_copied (munge_byte c) (munge_bytes o) (munge_byte_copied c) (munge_bytes_copied o)

munge_copied : (o : Bytes) → all is_copied (munge o) ≡ true
unfolding munge
munge_copied o = elim (Bool-cases (contains cpp_keywords (munge_bytes o))) [
  | inl keyword ↦ rw keyword (
      all-append is_copied (munge_bytes o) (codes "__") (munge_bytes_copied o)
        (unfold all is_copied in refl))
  | inr other ↦ rw other (munge_bytes_copied o)
]

pub munge_bytes-copied : (o : Bytes) → all is_copied o ≡ true → munge_bytes o ≡ o
unfolding munge_bytes all
munge_bytes-copied [] h = refl
munge_bytes-copied (c ∷ o) h =
    rw (munge_byte-none c (copied-none c (and_left (is_copied c) _ h)))
      (ap (◌∷◌ c) (munge_bytes-copied o (and_right (is_copied c) _ h)))

munge-not_keyword :
    (o : Bytes) → contains cpp_keywords (munge_bytes o) ≡ false → munge o ≡ munge_bytes o
unfolding munge
munge-not_keyword o h = rw h

-- Munging what was munged changes nothing.
pub munge-munge : (o : Bytes) → munge (munge o) ≡ munge o
munge-munge o =
    let same : munge_bytes (munge o) ≡ munge o = munge_bytes-copied (munge o) (munge_copied o) in
    munge-not_keyword (munge o) (rw same (munge-not-keyword o)) ∙ same
