-- ===== src/Util/Ordinal.antt =====
-- Ordinals in English: compiler+runtime/src/cpp/jank/util/string.cpp.
pub mod Value
pub mod Case
use jank.Prelude.{
  ℕ, ◌+◌, ◌/◌, ◌%◌, Bool, true, false, List, [], ◌∷◌, ◌++◌, Option, none, some, ◌>>=◌, ltb, ◌==◌,
  if◌then◌else◌, get_elem?, Bytes, codes,
}

abbrev pub ordinal : List Bytes
ordinal =
    codes "zeroth"
    ∷ codes "first"
    ∷ codes "second"
    ∷ codes "third"
    ∷ codes "fourth"
    ∷ codes "fifth"
    ∷ codes "sixth"
    ∷ codes "seventh"
    ∷ codes "eighth"
    ∷ codes "ninth"
    ∷ codes "tenth"
    ∷ codes "eleventh"
    ∷ codes "twelfth"
    ∷ codes "thirteenth"
    ∷ codes "fourteenth"
    ∷ codes "fifteenth"
    ∷ codes "sixteenth"
    ∷ codes "seventeenth"
    ∷ codes "eighteenth"
    ∷ codes "nineteenth"
    ∷ []

abbrev pub tens : List Bytes
tens =
    []
    ∷ []
    ∷ codes "twenty"
    ∷ codes "thirty"
    ∷ codes "forty"
    ∷ codes "fifty"
    ∷ codes "sixty"
    ∷ codes "seventy"
    ∷ codes "eighty"
    ∷ codes "ninety"
    ∷ []

abbrev pub tens_ordinal : List Bytes
tens_ordinal =
    []
    ∷ []
    ∷ codes "twentieth"
    ∷ codes "thirtieth"
    ∷ codes "fortieth"
    ∷ codes "fiftieth"
    ∷ codes "sixtieth"
    ∷ codes "seventieth"
    ∷ codes "eightieth"
    ∷ codes "ninetieth"
    ∷ []

abbrev pub cardinal : List Bytes
cardinal =
    codes "zero"
    ∷ codes "one"
    ∷ codes "two"
    ∷ codes "three"
    ∷ codes "four"
    ∷ codes "five"
    ∷ codes "six"
    ∷ codes "seven"
    ∷ codes "eight"
    ∷ codes "nine"
    ∷ []

-- `none` is an access that leaves one of the arrays.
unfoldable pub ordinal_under_100 : ℕ → Option Bytes
ordinal_under_100 n =
    if ltb n 20
    then get_elem? ordinal n
    else if n % 10 == 0
    then get_elem? tens_ordinal (n / 10)
    else do
      ten ← get_elem? tens (n / 10)
      unit ← get_elem? ordinal (n % 10)
      some (ten ++ (b'-' ∷ unit))

-- `none` is the exception for a number that is too large, too. The capitalized text that the
-- source computes at the end is not used.
unfoldable pub number_to_ordinal : ℕ → Option Bytes
unfolding ordinal_under_100
number_to_ordinal n =
    let num = n + 1 in
    if ltb 999 n
    then none
    else if num == 1000
    then some (codes "One thousandth")
    else if ltb num 100
    then ordinal_under_100 num
    else do
      hundreds ← get_elem? cardinal (num / 100)
      if num % 100 == 0
          then some (hundreds ++ codes " hundredth")
          else do rest ← ordinal_under_100 (num % 100); some (hundreds ++ codes " hundred " ++ rest)
