-- ===== src/Prelude/Text.antt =====
-- Byte strings, their equality, and membership in a list of them.
use Prim.Native.Nat.{ℕ}
use Prim.Native.Char.{code}
use Prim.Native.String.{String}
use mathlib.Core.Path.{◌≡◌, refl}
use mathlib.Core.Logic.{◌≢◌, ◌↔◌}
use mathlib.Core.Bool.{Bool, true, false, ◌&&◌, ◌||◌}
use mathlib.Core.List.{List, [], ◌∷◌, ◌++◌}
use native.Mathlib.Omega.{arith}
use jank.Prelude.Tests.{◌==◌}
use jank.Prelude.Lists.{all}

abbrev pub Bytes : Type 0
Bytes = List ℕ

-- The bytes of an ASCII literal.
abbrev pub codes : String → Bytes
codes String.[] = []
codes (String.◌∷◌ c s) = code c ∷ codes s

unfoldable pub eq_bytes : Bytes → Bytes → Bool
eq_bytes [] [] = true
eq_bytes (x ∷ xs) (y ∷ ys) = x == y && eq_bytes xs ys
eq_bytes _ _ = false

pub eq_bytes_iff : (a b : Bytes) → (eq_bytes a b ≡ true) ↔ (a ≡ b)
unfolding eq_bytes
eq_bytes_iff (x ∷ a) (y ∷ b) = ground (arith, eq_bytes_iff a b)
eq_bytes_iff _ _ = ground arith

pub eq_bytes_refl : (a : Bytes) → eq_bytes a a ≡ true
eq_bytes_refl a = (eq_bytes_iff a a).1 refl

pub eq_bytes_ne : (a b : Bytes) → a ≢ b → eq_bytes a b ≡ false
eq_bytes_ne a b h = ground (arith, eq_bytes_iff a b)

-- `set.contains(x)`
unfoldable pub contains : List Bytes → Bytes → Bool
contains [] x = false
contains (y ∷ ys) x = eq_bytes x y || contains ys x

pub contains-append :
    (xs ys : List Bytes) (x : Bytes) → contains (xs ++ ys) x ≡ (contains xs x || contains ys x)
unfolding contains
contains-append [] ys x = refl
contains-append (y ∷ xs) ys x = ground (arith, contains-append xs ys x)

pub contains-cons_self : (xs : List Bytes) (x : Bytes) → contains (x ∷ xs) x ≡ true
unfolding contains
contains-cons_self xs x = ground (arith, eq_bytes_refl x)

unfoldable pub has_byte : Bytes → ℕ → Bool
has_byte [] c = false
has_byte (x ∷ xs) c = x == c || has_byte xs c

-- What a test finds in every element of a list holds of each member.
pub all-contains :
    (p : Bytes → Bool) (xs : List Bytes) (x : Bytes)
    → all p xs ≡ true
    → contains xs x ≡ true
    → p x ≡ true
unfolding all contains
all-contains p [] x h m = cc
all-contains p (y ∷ xs) x h m = ground (arith, eq_bytes_iff x y, all-contains p xs x, ap_p)
  where
    ap_p : x ≡ y → p x ≡ p y
    ap_p e = rw e
