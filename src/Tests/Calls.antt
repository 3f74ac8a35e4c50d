-- ===== src/Tests/Calls.antt =====
-- Calls of a function with two fixed parameters and a rest.
use jank.Prelude.{ℕ, ◌≡◌, ◌<◌, refl, Bool, true, false, List, [], ◌∷◌, if◌then◌else◌, arith}
use jank.Runtime.ArityFlags.{
  build_arity_flags, is_variadic, is_variadic_ambiguous, extract_variadic_arity_mask,
  mask_variadic_arity, build_arity_flags-bounds,
}
use jank.Runtime.VariadicCall.{single, sequence, called, call, call_from, call_fixed, do_call}
use jank.Runtime.VariadicCall.Dispatch.{expected, call-expected}

-- Every arity is there.
abbrev all_there : ℕ → Bool
all_there n = true

abbrev four : List ℕ
four = 7 ∷ 8 ∷ 9 ∷ 10 ∷ []

call-expected_example :
    call all_there (build_arity_flags 2 true false) four ≡ expected all_there 2 false four
call-expected_example = call-expected all_there 2 false four (omega arith) (omega arith)

call_runs :
    call all_there (build_arity_flags 2 true false) four
    ≡ called 3 (single 7 ∷ single 8 ∷ sequence (9 ∷ 10 ∷ []) ∷ [])
unfolding call call_from call_fixed do_call build_arity_flags extract_variadic_arity_mask
    mask_variadic_arity
call_runs = refl

build_arity_flags-bounds_example :
    (build_arity_flags 3 true false < 256)
    × (is_variadic (build_arity_flags 3 true false) ≡ true)
    × (is_variadic_ambiguous (build_arity_flags 3 true false) ≡ false)
    × (extract_variadic_arity_mask (build_arity_flags 3 true false)
        ≡ (if true then mask_variadic_arity 3 else 3))
build_arity_flags-bounds_example = build_arity_flags-bounds 3 true false (omega arith)
