-- ===== src/Runtime/Munge.antt =====
-- Munging: the names of jank as identifiers of C++, after
-- compiler+runtime/src/cpp/jank/runtime/core/munge.cpp. Strings are lists of bytes.
mod Tables
pub mod Identifiers
pub mod Idempotent
pub mod RoundTrip
unfoldable pub use Tables.*
use jank.Prelude.{
  ℕ, zero, suc, ◌+◌, ◌-◌, Bool, true, false, List, [], ◌∷◌, ◌++◌, Option, none, some, ◌==◌,
  if◌then◌else◌, length, Bytes, codes, contains,
}

-- `munge_chars.find(c)`
unfoldable pub replacement : List (ℕ × Bytes) → ℕ → Option Bytes
replacement [] c = none
replacement ((k, text) ∷ rest) c = if k == c then some text else replacement rest c

-- What the loop appends for one byte.
unfoldable pub munge_byte : ℕ → Bytes
unfolding replacement
munge_byte c = elim (replacement munge_chars c) [ none ↦ c ∷ [] | some text ↦ text ]

unfoldable pub munge_bytes : Bytes → Bytes
unfolding munge_byte
munge_bytes [] = []
munge_bytes (c ∷ cs) = munge_byte c ++ munge_bytes cs

unfoldable pub munge : Bytes → Bytes
unfolding munge_bytes contains
munge o =
    let munged = munge_bytes o in
    if contains cpp_keywords munged then munged ++ codes "__" else munged

-- The rest of `s` behind the prefix `p`, if `s` begins with it.
unfoldable pub after_prefix : Bytes → Bytes → Option Bytes
after_prefix [] s = some s
after_prefix (x ∷ p) [] = none
after_prefix (x ∷ p) (y ∷ s) = if x == y then after_prefix p s else none

-- The `while` loop for one pattern, from the left and without overlaps. Each round drops a byte or
-- a pattern, so the length of the string is fuel enough.
unfoldable pub replace_all : ℕ → Bytes → ℕ → Bytes → Bytes
unfolding after_prefix
replace_all zero pattern c s = s
replace_all (suc fuel) pattern c [] = []
replace_all (suc fuel) pattern c (x ∷ s) = elim (after_prefix pattern (x ∷ s)) [
  | none ↦ x ∷ replace_all fuel pattern c s
  | some rest ↦ c ∷ replace_all fuel pattern c rest
]

unfoldable pub demunge_with : List (Bytes × ℕ) → Bytes → Bytes
unfolding replace_all
demunge_with [] s = s
demunge_with ((pattern, c) ∷ rest) s = demunge_with rest (replace_all (length s) pattern c s)

-- `o.substr(0, o.size() - 2)` of a string with at least two bytes.
unfoldable pub drop_suffix : Bytes → Bytes
drop_suffix [] = []
drop_suffix (x ∷ []) = []
drop_suffix (x ∷ y ∷ []) = []
drop_suffix (x ∷ y ∷ z ∷ s) = x ∷ drop_suffix (y ∷ z ∷ s)

unfoldable pub demunge : Bytes → Bytes
unfolding contains drop_suffix demunge_with
demunge o = if contains munged_cpp_keywords o then drop_suffix o else demunge_with demunge_chars o
