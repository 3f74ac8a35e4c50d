-- ===== src/Runtime/VariadicCall.antt =====
-- Calls of variadic functions: compiler+runtime/src/cpp/jank/runtime/obj/jit_variadic_function.cpp.
-- The overloads of `call` for up to ten arguments are one function on the list of arguments.
pub mod Dispatch
use jank.Prelude.{
  ℕ, ◌+◌, Bool, true, false, not, ◌&&◌, List, [], ◌∷◌, ◌++◌, map, if◌then◌else◌, ◌==◌, length, take,
  drop,
}
use jank.Runtime.ArityFlags.{
  mask_variadic_arity, extract_variadic_arity_mask, is_variadic_ambiguous,
}

-- What a function is called with. `nil` is `object_ref{}`; `sequence` is the
-- `native_array_sequence` of the remaining arguments, and `concat` that followed by `more`, which
-- `clojure.core/concat*` makes.
pub data Argument (A : Type 0) : Type 0 where
  single : A → Argument A
  nil : Argument A
  sequence : List A → Argument A
  concat : List A → A → Argument A

-- A call of the arity with so many parameters, or the exception if there is none; both have the
-- number of arguments.
pub data Called (A : Type 0) : Type 0 where
  called : ℕ → List (Argument A) → Called A
  invalid_arity : ℕ → Called A

module _ {A : Type 0} (has_arity : ℕ → Bool) where
  unfoldable pub do_call : ℕ → List (Argument A) → Called A
  do_call arity args = if has_arity arity then called arity args else invalid_arity (length args)

  -- The case of the variadic arity whose fixed parameters are as many as the arguments, up to ten,
  -- and the default case; `args` are the arguments.
  unfoldable pub call_fixed : ℕ → List A → Called A
  unfolding do_call
  call_fixed arity_flags args =
      let n = length args in
      if (extract_variadic_arity_mask arity_flags == mask_variadic_arity n)
        && not (is_variadic_ambiguous arity_flags)
      then (if n == 10
          then do_call 10 (map single (take 9 args) ++ (sequence (drop 9 args) ∷ []))
          else do_call (n + 1) (map single args ++ (nil ∷ [])))
      else do_call n (map single args)

  -- The other cases, from that of `pos` on: `before` are the arguments in front, and `after` those
  -- behind.
  unfoldable pub call_from : ℕ → ℕ → List A → List A → Called A
  unfolding do_call call_fixed
  call_from arity_flags pos before [] = call_fixed arity_flags before
  call_from arity_flags pos before (a ∷ after) =
      let later = call_from arity_flags (pos + 1) (before ++ (a ∷ [])) after in
      if extract_variadic_arity_mask arity_flags == mask_variadic_arity pos
      then do_call (pos + 1) (map single before ++ (sequence (a ∷ after) ∷ []))
      else later

  -- The overload without arguments compares all of the flags.
  unfoldable pub call_none : ℕ → Called A
  unfolding do_call
  call_none arity_flags =
      if arity_flags == mask_variadic_arity 0 then do_call 1 (nil ∷ []) else do_call 0 []

  -- `call`, for up to ten arguments.
  unfoldable pub call : ℕ → List A → Called A
  unfolding call_none call_from
  call arity_flags [] = call_none arity_flags
  call arity_flags (a ∷ args) = call_from arity_flags 0 [] (a ∷ args)

  -- The cases of the overload for ten arguments and `more`.
  unfoldable pub call_more_from : ℕ → ℕ → List A → List A → A → Called A
  unfolding do_call
  call_more_from arity_flags pos before [] more =
      do_call (pos + 1) (map single before ++ (concat [] more ∷ []))
  call_more_from arity_flags pos before (a ∷ []) more =
      do_call (pos + 1) (map single before ++ (concat (a ∷ []) more ∷ []))
  call_more_from arity_flags pos before (a ∷ b ∷ after) more =
      let later = call_more_from arity_flags (pos + 1) (before ++ (a ∷ [])) (b ∷ after) more in
      if extract_variadic_arity_mask arity_flags == mask_variadic_arity pos
      then do_call (pos + 1) (map single before ++ (concat (a ∷ b ∷ after) more ∷ []))
      else later

  -- `call` with ten arguments and `more`.
  unfoldable pub call_more : ℕ → List A → A → Called A
  unfolding call_more_from
  call_more arity_flags args more = call_more_from arity_flags 0 [] args more
