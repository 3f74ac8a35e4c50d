-- ===== src/Runtime/Munge/RoundTrip.antt =====
-- `demunge` on what `munge` made of plain names and of keywords.
use jank.Prelude.{
  all-contains, ℕ, zero, suc, ◌≤◌, ◌<◌, Bool, true, false, not, ◌&&◌, ◌||◌, List, [], ◌∷◌, map,
  none, ◌≡◌, refl, inl, inr, Bool-cases, and_left, and_right, ap, ◌∙◌, arith, Bytes, codes,
  contains, all, if◌then◌else◌, ◌==◌, leb, length, holds_below, holds_below-at, eq_bytes,
  eq_bytes_iff, take, drop, not-true,
}
use jank.Runtime.Munge.{
  demunge_chars, cpp_keywords, munged_cpp_keywords, munge_byte, munge_bytes, munge, after_prefix,
  replace_all, demunge_with, demunge,
}

-- Lower case letters, digits and dashes.
unfoldable pub is_plain : ℕ → Bool
is_plain c = leb b'a' c && leb c b'z' || leb b'0' c && leb c b'9' || c == b'-'

unfoldable pub underscore : ℕ → ℕ
underscore c = if c == b'-' then b'_' else c

munge_byte_table :
    holds_below (λ c. not (is_plain c) || eq_bytes (munge_byte c) (underscore c ∷ [])) 123 ≡ true
unfolding holds_below is_plain munge_byte underscore eq_bytes
munge_byte_table = refl

munge_byte-plain : (c : ℕ) → is_plain c ≡ true → munge_byte c ≡ underscore c ∷ []
munge_byte-plain c h =
    (eq_bytes_iff _ _).0 (ground (arith, h, holds_below-at _ 123 c (small c h) munge_byte_table))
  where
    small : (c : ℕ) → is_plain c ≡ true → c < 123
    small c h = unfold is_plain in ground arith

munge_bytes-plain : (o : Bytes) → all is_plain o ≡ true → munge_bytes o ≡ map underscore o
unfolding munge_bytes all
munge_bytes-plain [] h = refl
munge_bytes-plain (c ∷ o) h =
    rw (munge_byte-plain c (and_left (is_plain c) _ h))
      (ap (◌∷◌ (underscore c)) (munge_bytes-plain o (and_right (is_plain c) _ h)))

-- A string whose bytes all pass a test holds no pattern with a byte that fails it.
after_prefix-none :
    (p : ℕ → Bool) (pattern s : Bytes)
    → all p s ≡ true
    → all p pattern ≡ false
    → after_prefix pattern s ≡ none
unfolding after_prefix all
after_prefix-none p [] s h f = cc
after_prefix-none p (x ∷ pattern) [] h f = refl
after_prefix-none p (x ∷ pattern) (y ∷ s) h f = elim (Bool-cases (x == y)) [
  | inl same ↦
      let e : x ≡ y = ground arith in
      rw same (after_prefix-none p pattern s (and_right (p y) _ h) (ground (arith, ap p e)))
  | inr other ↦ rw other
]

replace_all-none :
    (p : ℕ → Bool) (fuel : ℕ) (pattern : Bytes) (c : ℕ) (s : Bytes)
    → all p s ≡ true
    → all p pattern ≡ false
    → replace_all fuel pattern c s ≡ s
unfolding replace_all all
replace_all-none p zero pattern c s h f = refl
replace_all-none p (suc fuel) pattern c [] h f = refl
replace_all-none p (suc fuel) pattern c (x ∷ s) h f =
    rw (after_prefix-none p pattern (x ∷ s) h f, replace_all)
      (ap (◌∷◌ x) (replace_all-none p fuel pattern c s (and_right (p x) _ h) f))

demunge_with-skip :
    (p : ℕ → Bool) (n : ℕ) (t : List (Bytes × ℕ)) (s : Bytes)
    → all p s ≡ true
    → all (λ (e : Bytes × ℕ). not (all p e.0)) (take n t) ≡ true
    → demunge_with t s ≡ demunge_with (drop n t) s
unfolding demunge_with all
demunge_with-skip p zero t s h f = refl
demunge_with-skip p (suc n) [] s h f = refl
demunge_with-skip p (suc n) ((pattern, c) ∷ t) s h f =
    rw (replace_all-none p (length s) pattern c s h (not-true (and_left (not (all p pattern)) _ f)))
      (demunge_with-skip p n t s h (and_right (not (all p pattern)) _ f))

-- The last pattern turns the underscores back.
replace_all-underscores :
    (fuel : ℕ) (o : Bytes)
    → length o ≤ fuel
    → all is_plain o ≡ true
    → replace_all fuel (codes "_") b'-' (map underscore o) ≡ o
unfolding replace_all all underscore is_plain
replace_all-underscores zero [] le h = refl
replace_all-underscores zero (c ∷ o) le h = absurd (omega arith)
replace_all-underscores (suc fuel) [] le h = refl
replace_all-underscores (suc fuel) (c ∷ o) le h = ground (arith, replace_all-underscores fuel o)

-- Neither upper case letters nor other bytes than those of munged plain names.
unfoldable pub is_munged_plain : ℕ → Bool
is_munged_plain c = leb b'a' c && leb c b'z' || leb b'0' c && leb c b'9' || c == b'_'

underscored : (o : Bytes) → all is_plain o ≡ true → all is_munged_plain (map underscore o) ≡ true
unfolding all is_plain underscore is_munged_plain
underscored [] h = refl
underscored (c ∷ o) h = ground (arith, underscored o)

long_patterns :
    all (λ (e : Bytes × ℕ). not (all is_munged_plain e.0)) (take 25 demunge_chars) ≡ true
unfolding all is_munged_plain
long_patterns = refl

length-map : (o : Bytes) → length (map underscore o) ≡ length o
length-map [] = refl
length-map (c ∷ o) = ap suc (length-map o)

demunge_with-plain :
    (o : Bytes) → all is_plain o ≡ true → demunge_with demunge_chars (map underscore o) ≡ o
demunge_with-plain o h =
    demunge_with-skip is_munged_plain 25 demunge_chars (map underscore o) (underscored o h)
      long_patterns
    ∙ unfold demunge_with in rw length-map (replace_all-underscores (length o) o (omega arith) h)

-- A name of lower case letters, digits and dashes is recovered by `demunge`, unless its munged
-- form is a keyword of C++ or a munged keyword.
pub demunge-munge :
    (o : Bytes)
    → all is_plain o ≡ true
    → contains cpp_keywords (munge_bytes o) ≡ false
    → contains munged_cpp_keywords (munge_bytes o) ≡ false
    → demunge (munge o) ≡ o
unfolding munge demunge
demunge-munge o h k m = rw (k, m, munge_bytes-plain o h) (demunge_with-plain o h)

keywords_return : all (λ k. eq_bytes (demunge (munge k)) k) cpp_keywords ≡ true
unfolding all eq_bytes munge demunge munge_bytes munge_byte
keywords_return = refl

-- A keyword of C++ is recovered as well.
pub demunge-munge_keyword : (k : Bytes) → contains cpp_keywords k ≡ true → demunge (munge k) ≡ k
demunge-munge_keyword k h =
    (eq_bytes_iff _ _).0
      (all-contains (λ k. eq_bytes (demunge (munge k)) k) cpp_keywords k keywords_return h)
