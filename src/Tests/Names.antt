-- ===== src/Tests/Names.antt =====
-- Names: munging and generated names.
use jank.Prelude.{ℕ, true, false, ◌≡◌, refl, codes, contains, eq_bytes, all, has_byte}
use jank.Runtime.Munge.{munge, munge_bytes, munge_byte, demunge, cpp_keywords}
use jank.Runtime.Munge.Identifiers.{is_word, munge_words, munge-not-keyword}
use jank.Runtime.Munge.Idempotent.{munge-munge}
use jank.Runtime.Munge.RoundTrip.{is_plain, demunge-munge, demunge-munge_keyword}
use jank.Runtime.UniqueString.{fresh_name, fresh_name-injective}

munge_name : munge (codes "foo-bar?") ≡ codes "foo_bar_QMARK_"
unfolding munge munge_byte eq_bytes
munge_name = refl

munge_keyword : munge (codes "int") ≡ codes "int__"
unfolding munge munge_byte eq_bytes
munge_keyword = refl

-- `demunge` takes what `munge` made of this name for a munged keyword.
demunge_loses_dashes : demunge (munge (codes "int--")) ≡ codes "int"
unfolding munge munge_byte eq_bytes demunge
demunge_loses_dashes = refl

-- `and-eq` becomes the keyword `and_eq` and then `and_eq__`.
demunge_loses_dash : demunge (munge (codes "and-eq")) ≡ codes "and_eq"
unfolding munge munge_byte eq_bytes demunge
demunge_loses_dash = refl

fresh_name_12 : fresh_name 12 ≡ codes "G__12"
unfolding fresh_name munge_byte eq_bytes
fresh_name_12 = refl

munge_words_example : all is_word (munge (codes "->Foo!")) ≡ true
munge_words_example = munge_words (codes "->Foo!") (unfold all is_word has_byte in refl)

munge-not-keyword_example : contains cpp_keywords (munge (codes "and-eq")) ≡ false
munge-not-keyword_example = munge-not-keyword (codes "and-eq")

munge-munge_example : munge (munge (codes "swap!")) ≡ munge (codes "swap!")
munge-munge_example = munge-munge (codes "swap!")

demunge-munge_example : demunge (munge (codes "take-while2")) ≡ codes "take-while2"
demunge-munge_example =
    demunge-munge (codes "take-while2") (unfold all is_plain in refl)
      (unfold contains munge_bytes munge_byte eq_bytes in refl)
      (unfold contains munge_bytes munge_byte eq_bytes in refl)

demunge-munge_keyword_example : demunge (munge (codes "while")) ≡ codes "while"
demunge-munge_keyword_example =
    demunge-munge_keyword (codes "while") (unfold contains eq_bytes in refl)

fresh_name-injective_example : ◌≡◌ {A = ℕ} 12 12
fresh_name-injective_example = fresh_name-injective 12 12 refl
