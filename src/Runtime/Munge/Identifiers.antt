-- ===== src/Runtime/Munge/Identifiers.antt =====
-- What `munge` returns, as an identifier of C++.
use jank.Prelude.{
  ℕ, Bool, true, false, not, ◌&&◌, ◌||◌, List, [], ◌∷◌, ◌++◌, none, some, ◌≡◌, refl, arith, inl,
  inr, Bool-cases, and_left, and_right, not-true, Option-cases, leb, ◌==◌, Bytes, codes, has_byte,
  contains, eq_bytes, all, all-append, all-contains,
}
use jank.Runtime.Munge.{munge_chars, cpp_keywords, replacement, munge_byte, munge_bytes, munge}

-- Letters, digits and the underscore.
unfoldable pub is_word : ℕ → Bool
is_word c =
    leb b'a' c && leb c b'z' || leb b'A' c && leb c b'Z' || leb b'0' c && leb c b'9' || c == b'_'

-- The punctuation that jank allows in a name and C++ does not.
abbrev pub specials : Bytes
specials = codes "-:+><=~!@#'\"%^&*|{}[]()/\\?"

abbrev keys : List (ℕ × Bytes) → Bytes
keys [] = []
keys ((k, text) ∷ rest) = k ∷ keys rest

replacement-none :
    (t : List (ℕ × Bytes)) (c : ℕ) → replacement t c ≡ none → has_byte (keys t) c ≡ false
unfolding replacement has_byte
replacement-none [] c h = refl
replacement-none ((k, text) ∷ t) c h = ground (arith, replacement-none t c)

pub replacement-some :
    (p : Bytes → Bool) (t : List (ℕ × Bytes)) (c : ℕ) (text : Bytes)
    → all (λ (e : ℕ × Bytes). p e.1) t ≡ true
    → replacement t c ≡ some text
    → p text ≡ true
unfolding replacement all
replacement-some p [] c text h e = cc
replacement-some p ((k, u) ∷ t) c text h e = elim (Bool-cases (k == c)) [
  | inl same ↦ let found : u ≡ text = ground arith in rw (← found) (and_left (p u) _ h)
  | inr other ↦ replacement-some p t c text (and_right (p u) _ h) (ground arith)
]

texts_are_words : all (λ (e : ℕ × Bytes). all is_word e.1) munge_chars ≡ true
unfolding all is_word
texts_are_words = refl

pub munge_byte-none : (c : ℕ) → replacement munge_chars c ≡ none → munge_byte c ≡ c ∷ []
unfolding munge_byte
munge_byte-none c e = rw (e, munge_byte)

pub munge_byte-some :
    (c : ℕ) (text : Bytes) → replacement munge_chars c ≡ some text → munge_byte c ≡ text
unfolding munge_byte
munge_byte-some c text e = rw (e, munge_byte)

-- What a name may hold.
abbrev pub is_nameable : ℕ → Bool
is_nameable c = is_word c || has_byte specials c

munge_byte_words : (c : ℕ) → is_nameable c ≡ true → all is_word (munge_byte c) ≡ true
munge_byte_words c h = elim (Option-cases (replacement munge_chars c)) [
  | inl e ↦
      rw (munge_byte-none c e) (one_word c (plain_word c h (replacement-none munge_chars c e)))
  | inr (text, e) ↦
      rw (munge_byte-some c text e)
        (replacement-some (all is_word) munge_chars c text texts_are_words e)
]
  where
    plain_word : (c : ℕ) → is_nameable c ≡ true → has_byte specials c ≡ false → is_word c ≡ true
    plain_word c h e = ground (arith, h, e)

    one_word : (c : ℕ) → is_word c ≡ true → all is_word (c ∷ []) ≡ true
    one_word c h = unfold all in ground (arith, h)

munge_bytes_words : (o : Bytes) → all is_nameable o ≡ true → all is_word (munge_bytes o) ≡ true
unfolding munge_bytes all
munge_bytes_words [] h = refl
munge_bytes_words (c ∷ o) h =
    all-append is_word (munge_byte c) (munge_bytes o)
      (munge_byte_words c (and_left (is_nameable c) _ h))
      (munge_bytes_words o (and_right (is_nameable c) _ h))

-- A name of letters, digits, underscores and jank's punctuation is munged to letters, digits and
-- underscores.
pub munge_words : (o : Bytes) → all is_nameable o ≡ true → all is_word (munge o) ≡ true
unfolding munge
munge_words o h = elim (Bool-cases (contains cpp_keywords (munge_bytes o))) [
  | inl keyword ↦ rw keyword (
      all-append is_word (munge_bytes o) (codes "__") (munge_bytes_words o h)
        (unfold all is_word in refl))
  | inr other ↦ rw other (munge_bytes_words o h)
]

-- With the suffix no keyword is a keyword.
keywords_escape : all (λ k. not (contains cpp_keywords (k ++ codes "__"))) cpp_keywords ≡ true
unfolding all contains eq_bytes
keywords_escape = refl

-- Whatever is munged, the result is no keyword of C++.
pub munge-not-keyword : (o : Bytes) → contains cpp_keywords (munge o) ≡ false
unfolding munge
munge-not-keyword o = elim (Bool-cases (contains cpp_keywords (munge_bytes o))) [
  | inl keyword ↦ rw keyword (
      not-true (
        all-contains (λ k. not (contains cpp_keywords (k ++ codes "__"))) cpp_keywords
          (munge_bytes o) keywords_escape keyword))
  | inr other ↦ rw other other
]
