-- ===== src/Tests/Words.antt =====
-- Trimming and ordinals, on short texts.
use jank.Prelude.{
  ℕ, ◌≤◌, [], ◌∷◌, some, ◌≡◌, refl, arith, Bool, ◌==◌, leb, ◌&&◌, ◌-◌, Bytes, codes, if◌then◌else◌,
}
use jank.Util.Trim.{trim, trim_start, trim_end, capitalize}
use jank.Util.Trim.Ends.{Trimmed, trim-Trimmed}
use jank.Util.Ordinal.{number_to_ordinal, ordinal_under_100}
use jank.Util.Ordinal.Value.{ordinal_value, number_to_ordinal-value}
use jank.Util.Ordinal.Case.{number_to_ordinal-small}

abbrev blank : ℕ → Bool
blank c = c == b' '

abbrev upper : ℕ → ℕ
upper c = if leb b'a' c && leb c b'z' then c - 32 else c

trim_runs : trim blank (codes "  (+ 1 2) ") ≡ codes "(+ 1 2)"
unfolding trim trim_start trim_end
trim_runs = refl

trim_spaces : trim blank (codes "   ") ≡ []
unfolding trim trim_start trim_end
trim_spaces = refl

capitalize_runs : capitalize upper (codes "jank") ≡ codes "Jank"
unfolding capitalize
capitalize_runs = refl

ordinal_runs : number_to_ordinal 341 ≡ some (codes "three hundred forty-second")
unfolding number_to_ordinal ordinal_under_100
ordinal_runs = refl

trim-Trimmed_example : Trimmed blank (codes "  (+ 1 2) ") (trim blank (codes "  (+ 1 2) "))
trim-Trimmed_example = trim-Trimmed blank (codes "  (+ 1 2) ")

number_to_ordinal-value_example :
    (s : Bytes) × (number_to_ordinal 341 ≡ some s) × (ordinal_value s ≡ some 342)
number_to_ordinal-value_example = number_to_ordinal-value 341 (omega arith)

number_to_ordinal-small_example :
    (c : ℕ) × (s : Bytes) × (number_to_ordinal 341 ≡ some (c ∷ s)) × (b'a' ≤ c) × (c ≤ b'z')
number_to_ordinal-small_example = number_to_ordinal-small 341 (omega arith)
