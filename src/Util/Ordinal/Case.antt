-- ===== src/Util/Ordinal/Case.antt =====
-- The first letter of the ordinals of compiler+runtime/src/cpp/jank/util/string.cpp.
use jank.Prelude.{
  ℕ, ◌≤◌, ◌<◌, Bool, true, false, ◌&&◌, [], ◌∷◌, Option, none, some, leb, ◌≡◌, refl, arith,
  holds_below, holds_below-at, Bytes,
}
use jank.Util.Ordinal.{ordinal_under_100, number_to_ordinal}

-- Whether `o` is a text that starts with a small letter.
abbrev is_small : Option Bytes → Bool
is_small none = false
is_small (some []) = false
is_small (some (c ∷ s)) = leb b'a' c && leb c b'z'

-- What `is_small` tests.
Small : Option Bytes → Type 0
Small o = (c : ℕ) × (s : Bytes) × (o ≡ some (c ∷ s)) × (b'a' ≤ c) × (c ≤ b'z')

is_small_lem : (o : Option Bytes) → is_small o ≡ true → Small o
unfolding Small
is_small_lem none h = ground arith
is_small_lem (some []) h = ground arith
is_small_lem (some (c ∷ s)) h = (c, s, refl, ground arith, ground arith)

all_small : holds_below (λ n. is_small (number_to_ordinal n)) 999 ≡ true
unfolding holds_below number_to_ordinal ordinal_under_100
all_small = refl

-- Below 999, the text that `number_to_ordinal` returns starts with a small letter.
pub number_to_ordinal-small :
    (n : ℕ)
    → n < 999
    → (c : ℕ) × (s : Bytes) × (number_to_ordinal n ≡ some (c ∷ s)) × (b'a' ≤ c) × (c ≤ b'z')
unfolding Small
number_to_ordinal-small n less =
    is_small_lem (number_to_ordinal n)
      (holds_below-at (λ i. is_small (number_to_ordinal i)) 999 n less all_small)
