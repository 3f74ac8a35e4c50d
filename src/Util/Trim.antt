-- ===== src/Util/Trim.antt =====
-- White space at the ends of a string, and its first letter: compiler+runtime/src/cpp/jank/util/
-- string.cpp. What is a space, and the capital of a letter, is the matter of the locale
-- (`std::isspace`, `std::toupper`), which the program takes from its environment: an argument.
pub mod Ends
use jank.Prelude.{ℕ, Bool, true, false, not, ◌&&◌, [], ◌∷◌, ◌==◌, if◌then◌else◌, Bytes}

-- Erases up to the first byte that is no space.
unfoldable pub trim_start : (ℕ → Bool) → Bytes → Bytes
trim_start is_space [] = []
trim_start is_space (c ∷ s) = let rest = trim_start is_space s in if is_space c then rest else c ∷ s

abbrev pub is_nothing : Bytes → Bool
is_nothing [] = true
is_nothing (_ ∷ _) = false

-- Erases behind the last byte that is no space. The search starts at the end, and has found such
-- a byte where it leaves something of the bytes behind.
unfoldable pub trim_end : (ℕ → Bool) → Bytes → Bytes
trim_end is_space [] = []
trim_end is_space (c ∷ s) =
    let rest = trim_end is_space s in if is_nothing rest && is_space c then [] else c ∷ rest

unfoldable pub trim : (ℕ → Bool) → Bytes → Bytes
trim is_space s = trim_end is_space (trim_start is_space s)

unfoldable pub capitalize : (ℕ → ℕ) → Bytes → Bytes
capitalize to_upper [] = []
capitalize to_upper (c ∷ s) = let u = to_upper c in if c == u then c ∷ s else u ∷ s
