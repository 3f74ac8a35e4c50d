-- ===== src/Util/Escape.antt =====
-- Escape sequences of strings: src/cpp/jank/util/escape.cpp, and the code points of
-- src/cpp/jtl/utf8.cpp, below compiler+runtime.
pub mod Steps
pub mod RoundTrip
use jank.Prelude.{
  ℕ, zero, suc, ◌+◌, ◌-◌, ◌*◌, Bool, true, false, not, ◌&&◌, ◌||◌, List, [], ◌∷◌, ◌++◌, Option,
  none, some, ◌>>=◌, ltb, leb, ◌==◌, if◌then◌else◌, length, take, drop, Bytes,
}

-- The cases of the switch in `escape`: a character, and the one that stands for it behind a
-- backslash. Bytes 7 to 13 are \a, \b, \t, \n, \v, \f and \r; 34 is the quote, 92 the backslash.
abbrev pub escape_codes : List (ℕ × ℕ)
escape_codes =
    (10, b'n')
    ∷ (9, b't')
    ∷ (13, b'r')
    ∷ (92, 92)
    ∷ (34, 34)
    ∷ (7, b'a')
    ∷ (11, b'v')
    ∷ (12, b'f')
    ∷ (8, b'b')
    ∷ []

-- The cases of the switch in `unescape`, which has one more, for the question mark.
abbrev pub unescape_codes : List (ℕ × ℕ)
unescape_codes =
    (b'n', 10)
    ∷ (b't', 9)
    ∷ (b'r', 13)
    ∷ (92, 92)
    ∷ (34, 34)
    ∷ (b'a', 7)
    ∷ (b'v', 11)
    ∷ (b'?', b'?')
    ∷ (b'f', 12)
    ∷ (b'b', 8)
    ∷ []

-- The case of a switch; `none` is the default.
unfoldable pub case_of : List (ℕ × ℕ) → ℕ → Option ℕ
case_of [] c = none
case_of ((k, v) ∷ cases) c = if k == c then some v else case_of cases c

unfoldable pub escape_byte : ℕ → Bytes
unfolding case_of
escape_byte c = elim (case_of escape_codes c) [ none ↦ c ∷ [] | some x ↦ 92 ∷ x ∷ [] ]

unfoldable pub escape : Bytes → Bytes
unfolding escape_byte
escape [] = []
escape (c ∷ input) = escape_byte c ++ escape input

-- A digit of base 16, as `std::from_chars` reads it.
unfoldable pub hex_digit : ℕ → Option ℕ
hex_digit c =
    if leb b'0' c && leb c b'9'
    then some (c - b'0')
    else if leb b'a' c && leb c b'f'
    then some (c - b'a' + 10)
    else if leb b'A' c && leb c b'F'
    then some (c - b'A' + 10)
    else none

-- `none` is the error of an invalid sequence: not four digits.
unfoldable pub unescape_unicode : Bytes → Option ℕ
unfolding hex_digit
unescape_unicode (a ∷ b ∷ c ∷ d ∷ []) = do
  a' ← hex_digit a
  b' ← hex_digit b
  c' ← hex_digit c
  d' ← hex_digit d
  some (((a' * 16 + b') * 16 + c') * 16 + d')
unescape_unicode _ = none

unfoldable pub is_surrogate_high : ℕ → Bool
is_surrogate_high high = leb 0xD800 high && leb high 0xDBFF

unfoldable pub is_surrogate_low : ℕ → Bool
is_surrogate_low low = leb 0xDC00 low && leb low 0xDFFF

unfoldable pub combine_surrogate_pair : ℕ → ℕ → ℕ
combine_surrogate_pair high low = 0x10000 + (high - 0xD800) * 0x400 + (low - 0xDC00)

-- One round of the loop of `unescape`: what it appends, the flag and the rest of the input after
-- it; or an error, or an exception of `to_char`.
pub data Step : Type 0 where
  advance : Bytes → Bool → Bytes → Step
  invalid : Bytes → Step
  thrown : Step

-- The result: the text, an error with the sequence it names, an exception, or the end of the fuel.
pub data Unescaped : Type 0 where
  ok : Bytes → Unescaped
  err : Bytes → Unescaped
  exception : Unescaped
  unfinished : Unescaped

-- A `\u` follows, with room for four digits.
unfoldable pub has_low : Bytes → Bool
has_low (a ∷ b ∷ rest) = leb 4 (length rest) && (a == 92 && b == b'u')
has_low _ = false

-- `std::wcrtomb` in the current locale; `none` is its failure.
module _ (wcrtomb : ℕ → Option Bytes) where
  -- `to_char` with a fallback.
  unfoldable pub to_char_or : ℕ → Bytes → Bytes
  to_char_or ch fallback =
      if ltb 0x10FFFF ch then fallback else elim (wcrtomb ch) [ none ↦ fallback | some text ↦ text ]

  -- `to_char` without one; `none` is the exception.
  unfoldable pub to_char : ℕ → Option Bytes
  to_char ch = if ltb 0x10FFFF ch then none else wcrtomb ch

  -- The second half of a surrogate pair, in front of the rest.
  unfoldable pub low_step : ℕ → Bytes → Step
  unfolding unescape_unicode is_surrogate_low combine_surrogate_pair to_char to_char_or
  low_step high rest = elim (unescape_unicode (take 4 (drop 2 rest))) [
    | none ↦ invalid (take 4 (drop 2 rest))
    | some low ↦ elim (is_surrogate_low low) [
      | false ↦ advance (b'?' ∷ to_char_or low (b'?' ∷ [])) false (drop 6 rest)
      | true ↦ elim (to_char (combine_surrogate_pair high low)) [
        | none ↦ thrown
        | some text ↦ advance text false (drop 6 rest)
      ]
    ]
  ]

  -- Behind `\u`.
  unfoldable pub unicode_step : Bytes → Step
  unfolding unescape_unicode is_surrogate_high has_low low_step to_char_or
  unicode_step tail = elim (unescape_unicode (take 4 tail)) [
    | none ↦ invalid (take 4 tail)
    | some high ↦ elim (is_surrogate_high high) [
      | false ↦ advance (to_char_or high (b'?' ∷ [])) false (drop 4 tail)
      | true ↦ elim (has_low (drop 4 tail)) [
        | false ↦ advance (b'?' ∷ []) false (drop 4 tail)
        | true ↦ low_step high (drop 4 tail)
      ]
    ]
  ]

  -- The character behind a backslash.
  unfoldable pub escaped_step : ℕ → Bytes → Step
  unfolding case_of
  escaped_step c rest = elim (case_of unescape_codes c) [
    | none ↦ invalid (c ∷ [])
    | some x ↦ advance (x ∷ []) false rest
  ]

  -- A character that no backslash precedes.
  unfoldable pub plain_step : ℕ → Bytes → Step
  unfolding unicode_step
  plain_step c [] = if c == 92 then advance [] true [] else advance (c ∷ []) false []
  plain_step c (d ∷ tail) =
      if c == 92
      then (if d == b'u' then unicode_step tail else advance [] true (d ∷ tail))
      else advance (c ∷ []) false (d ∷ tail)

  unfoldable pub step : Bool → ℕ → Bytes → Step
  unfolding escaped_step plain_step
  step true c rest = escaped_step c rest
  step false c rest = plain_step c rest

  unfoldable pub unescape_from : ℕ → Bool → Bytes → Bytes → Unescaped
  unfolding step
  unescape_from fuel escape [] sb = ok sb
  unescape_from zero escape (c ∷ rest) sb = unfinished
  unescape_from (suc fuel) escape (c ∷ rest) sb = elim (step escape c rest) [
    | advance text escape' rest' ↦ unescape_from fuel escape' rest' (sb ++ text)
    | invalid sequence ↦ err sequence
    | thrown ↦ exception
  ]

  unfoldable pub unescape : Bytes → Unescaped
  unfolding unescape_from
  unescape input = unescape_from (length input) false input []
