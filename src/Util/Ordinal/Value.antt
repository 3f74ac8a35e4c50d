-- ===== src/Util/Ordinal/Value.antt =====
-- Reading the ordinals of compiler+runtime/src/cpp/jank/util/string.cpp.
use jank.Prelude.{
  ℕ, ◌+◌, ◌*◌, ◌≤◌, Bool, true, false, ◌||◌, List, [], ◌∷◌, ◌++◌, Option, none, some, ◌>>=◌, ◌==◌,
  ◌≡◌, refl, arith, holds_below, holds_below-at, Bytes, codes, eq_bytes, at,
}
use jank.Util.Ordinal.{ordinal_under_100, number_to_ordinal}

-- The words that count something.
abbrev words : List (Bytes × ℕ)
words =
    (codes "one", 1)
    ∷ (codes "two", 2)
    ∷ (codes "three", 3)
    ∷ (codes "four", 4)
    ∷ (codes "five", 5)
    ∷ (codes "six", 6)
    ∷ (codes "seven", 7)
    ∷ (codes "eight", 8)
    ∷ (codes "nine", 9)
    ∷ (codes "first", 1)
    ∷ (codes "second", 2)
    ∷ (codes "third", 3)
    ∷ (codes "fourth", 4)
    ∷ (codes "fifth", 5)
    ∷ (codes "sixth", 6)
    ∷ (codes "seventh", 7)
    ∷ (codes "eighth", 8)
    ∷ (codes "ninth", 9)
    ∷ (codes "tenth", 10)
    ∷ (codes "eleventh", 11)
    ∷ (codes "twelfth", 12)
    ∷ (codes "thirteenth", 13)
    ∷ (codes "fourteenth", 14)
    ∷ (codes "fifteenth", 15)
    ∷ (codes "sixteenth", 16)
    ∷ (codes "seventeenth", 17)
    ∷ (codes "eighteenth", 18)
    ∷ (codes "nineteenth", 19)
    ∷ (codes "twenty", 20)
    ∷ (codes "thirty", 30)
    ∷ (codes "forty", 40)
    ∷ (codes "fifty", 50)
    ∷ (codes "sixty", 60)
    ∷ (codes "seventy", 70)
    ∷ (codes "eighty", 80)
    ∷ (codes "ninety", 90)
    ∷ (codes "twentieth", 20)
    ∷ (codes "thirtieth", 30)
    ∷ (codes "fortieth", 40)
    ∷ (codes "fiftieth", 50)
    ∷ (codes "sixtieth", 60)
    ∷ (codes "seventieth", 70)
    ∷ (codes "eightieth", 80)
    ∷ (codes "ninetieth", 90)
    ∷ (codes "One", 1)
    ∷ []

-- The words that multiply what stands before them.
abbrev factors : List (Bytes × ℕ)
factors = (codes "hundred", 100) ∷ (codes "hundredth", 100) ∷ (codes "thousandth", 1000) ∷ []

-- The number so far, after one more word.
unfoldable count_word : ℕ → Bytes → Option ℕ
unfolding at
count_word so_far word = elim (at words word) [
  | some n ↦ some (so_far + n)
  | none ↦ do n ← at factors word; some (so_far * n)
]

unfoldable is_gap : ℕ → Bool
is_gap c = (c == b' ') || (c == b'-')

-- The number that `s` goes on to name, where `word` is the start of its first word.
unfoldable value_from : ℕ → Bytes → Bytes → Option ℕ
unfolding count_word is_gap
value_from so_far word [] = count_word so_far word
value_from so_far word (c ∷ s) = elim (is_gap c) [
  | true ↦ count_word so_far word >>= (λ n. value_from n [] s)
  | false ↦ value_from so_far (word ++ (c ∷ [])) s
]

-- The number that an ordinal names.
unfoldable pub ordinal_value : Bytes → Option ℕ
unfolding value_from
ordinal_value s = value_from 0 [] s

-- Whether `o` is the number `n`.
abbrev names : Option ℕ → ℕ → Bool
names none n = false
names (some m) n = m == n

names_lem : (o : Option ℕ) (n : ℕ) → names o n ≡ true → o ≡ some n
names_lem none n h = ground arith
names_lem (some m) n h = ground arith

-- Whether `o` is a text that names `n`.
abbrev named : Option Bytes → ℕ → Bool
named none n = false
named (some s) n = names (ordinal_value s) n

-- What `named` tests.
Named : Option Bytes → ℕ → Type 0
Named o n = (s : Bytes) × (o ≡ some s) × (ordinal_value s ≡ some n)

named_lem : (o : Option Bytes) (n : ℕ) → named o n ≡ true → Named o n
unfolding Named
named_lem none n h = ground arith
named_lem (some s) n h = (s, refl, names_lem (ordinal_value s) n h)

all_named : holds_below (λ n. named (number_to_ordinal n) (n + 1)) 1000 ≡ true
unfolding holds_below number_to_ordinal ordinal_under_100 ordinal_value value_from count_word at
    is_gap eq_bytes
all_named = refl

-- Up to 999, `number_to_ordinal` returns a text, and the text names the number that is one
-- higher.
pub number_to_ordinal-value :
    (n : ℕ)
    → n ≤ 999
    → (s : Bytes) × (number_to_ordinal n ≡ some s) × (ordinal_value s ≡ some (n + 1))
unfolding Named
number_to_ordinal-value n le =
    let is_named = λ (i : ℕ). named (number_to_ordinal i) (i + 1) in
    named_lem (number_to_ordinal n) (n + 1) (holds_below-at is_named 1000 n (omega arith) all_named)
