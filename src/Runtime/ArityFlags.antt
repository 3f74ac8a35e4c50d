-- ===== src/Runtime/ArityFlags.antt =====
-- Arity flags: compiler+runtime/include/cpp/jank/runtime/core/call.hpp. The flags are an 8-bit
-- number: whether the function is variadic, whether a call with as many arguments as its variadic
-- arity has fixed parameters is ambiguous, and the number of those parameters.
use jank.Prelude.{ℕ, ◌+◌, ◌/◌, ◌%◌, ◌<◌, ◌≡◌, Bool, true, false, if◌then◌else◌, ◌==◌, arith}

-- `x | bit`, where `bit` is a power of two, if `b` is set.
abbrev pub set_bit : Bool → ℕ → ℕ → ℕ
set_bit false bit x = x
set_bit true bit x = if (x / bit) % 2 == 1 then x else x + bit

-- `x & bit`
abbrev pub has_bit : ℕ → ℕ → Bool
has_bit bit x = (x / bit) % 2 == 1

unfoldable pub mask_variadic_arity : ℕ → ℕ
mask_variadic_arity pos = set_bit true 128 pos

unfoldable pub extract_variadic_arity_mask : ℕ → ℕ
extract_variadic_arity_mask arity_flags =
    (if has_bit 128 arity_flags then 128 else 0) + arity_flags % 16

unfoldable pub is_variadic_ambiguous : ℕ → Bool
is_variadic_ambiguous arity_flags = has_bit 64 arity_flags

unfoldable pub is_variadic : ℕ → Bool
is_variadic arity_flags = has_bit 128 arity_flags

unfoldable pub build_arity_flags : ℕ → Bool → Bool → ℕ
build_arity_flags highest_fixed_arity is_variadic is_variadic_ambiguous =
    set_bit is_variadic 128 (set_bit is_variadic_ambiguous 64 (highest_fixed_arity % 256))

pub mask_variadic_arity_lem : (pos : ℕ) → pos < 128 → mask_variadic_arity pos ≡ 128 + pos
unfolding mask_variadic_arity
mask_variadic_arity_lem pos small = ground arith

-- Flags of fewer than 16 fixed parameters fit into 8 bits, and give back what they were built from.
pub build_arity_flags-bounds :
    (pos : ℕ) (variadic ambiguous : Bool)
    → pos < 16
    → (build_arity_flags pos variadic ambiguous < 256)
      × (is_variadic (build_arity_flags pos variadic ambiguous) ≡ variadic)
      × (is_variadic_ambiguous (build_arity_flags pos variadic ambiguous) ≡ ambiguous)
      × (extract_variadic_arity_mask (build_arity_flags pos variadic ambiguous)
          ≡ (if variadic then mask_variadic_arity pos else pos))
unfolding build_arity_flags is_variadic is_variadic_ambiguous extract_variadic_arity_mask
    mask_variadic_arity
build_arity_flags-bounds pos true true small = ground arith
build_arity_flags-bounds pos true false small = ground arith
build_arity_flags-bounds pos false true small = ground arith
build_arity_flags-bounds pos false false small = ground arith
