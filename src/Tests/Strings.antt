-- ===== src/Tests/Strings.antt =====
-- Escaping, with a conversion of code points that knows those of one byte.
use jank.Prelude.{ℕ, [], ◌∷◌, Option, none, some, ◌≡◌, ◌≢◌, refl, ltb, Bytes, codes, if◌then◌else◌}
use jank.Util.Escape.{ok, err, unfinished, escape, unescape, step, case_of}
use jank.Util.Escape.Steps.{unescape-ends}
use jank.Util.Escape.RoundTrip.{unescape-escape}

abbrev ascii : ℕ → Option Bytes
ascii c = if ltb c 128 then some (c ∷ []) else none

-- A quote, a tab and a backslash.
abbrev special : Bytes
special = b'a' ∷ 34 ∷ 9 ∷ 92 ∷ b'u' ∷ []

escape_runs : escape special ≡ b'a' ∷ 92 ∷ 34 ∷ 92 ∷ b't' ∷ 92 ∷ 92 ∷ b'u' ∷ []
unfolding escape case_of
escape_runs = refl

-- \u0041 is the letter A.
unescape_runs : unescape ascii (92 ∷ codes "u0041!") ≡ ok (codes "A!")
unfolding unescape step
unescape_runs = refl

-- A high surrogate that no other sequence follows is a question mark.
unescape_alone : unescape ascii (92 ∷ codes "uD800!") ≡ ok (codes "?!")
unfolding unescape step
unescape_alone = refl

unescape_invalid : unescape ascii (92 ∷ codes "q") ≡ err (codes "q")
unfolding unescape step case_of
unescape_invalid = refl

-- A backslash at the end of the input is dropped.
unescape_last : unescape ascii (b'a' ∷ 92 ∷ []) ≡ ok (codes "a")
unfolding unescape step
unescape_last = refl

unescape-ends_example : unescape ascii (92 ∷ codes "uD800") ≢ unfinished
unescape-ends_example = unescape-ends ascii (92 ∷ codes "uD800")

unescape-escape_example : unescape ascii (escape special) ≡ ok special
unescape-escape_example = unescape-escape ascii special
