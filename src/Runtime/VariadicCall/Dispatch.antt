-- ===== src/Runtime/VariadicCall/Dispatch.antt =====
-- Which arity a call of a variadic function reaches:
-- compiler+runtime/src/cpp/jank/runtime/obj/jit_variadic_function.cpp.
use mathlib.Core.List.{append_assoc, append-nil}
use jank.Prelude.{
  ℕ, zero, suc, ◌+◌, ◌≤◌, ◌<◌, ◌≡◌, refl, ap, sym, ◌∙◌, Bool, true, false, not, List, [], ◌∷◌, ◌++◌,
  map, if◌then◌else◌, ◌==◌, length, arith, ltb, take, drop, Bool-cases, inl, inr,
}
use jank.Runtime.ArityFlags.{
  build_arity_flags, mask_variadic_arity, extract_variadic_arity_mask, is_variadic_ambiguous,
  mask_variadic_arity_lem, build_arity_flags-bounds,
}
use jank.Runtime.VariadicCall.{
  single, nil, sequence, Called, do_call, call_fixed, call_from, call_none, call,
}

-- A list that is longer than `p`, at `p`.
split-at :
    {A : Type 0} (p : ℕ) (args : List A)
    → p < length args
    → (r : A) × (rest : List A) × (drop p args ≡ r ∷ rest)
      × (args ≡ take p args ++ (r ∷ rest))
      × (length (take p args) ≡ p)
split-at p [] h = elim h [ ]
split-at zero (a ∷ args) h = (a, args, refl, refl, refl)
split-at (suc p) (a ∷ args) h =
    let (r, rest, dropped, whole, front) = split-at p args (omega (arith, h)) in
    (r, rest, dropped, ap (λ xs. a ∷ xs) whole, omega (arith, front))

module _ {A : Type 0} (has_arity : ℕ → Bool) where
  -- Positions in front of the variadic arity's do not match.
  call_from-miss :
      (flags p pos : ℕ) (before after : List A)
      → extract_variadic_arity_mask flags ≡ 128 + p
      → p < 16
      → pos + length after ≤ p
      → call_from has_arity flags pos before after ≡ call_fixed has_arity flags (before ++ after)
  unfolding call_from
  call_from-miss flags p pos before [] mask small fits =
      ap (call_fixed has_arity flags) (sym (append-nil before))
  call_from-miss flags p pos before (a ∷ after) mask small fits =
      let at_pos = mask_variadic_arity_lem pos (omega (arith, small, fits)) in
      let differ : (extract_variadic_arity_mask flags == mask_variadic_arity pos) ≡ false =
        rw (mask, at_pos) (ground arith) in
      rw differ (
        call_from-miss flags p (pos + 1) (before ++ (a ∷ [])) after mask small (omega (arith, fits))
        ∙ ap (call_fixed has_arity flags) (append_assoc before (a ∷ []) after))

  -- The position of the variadic arity does.
  call_from-hit :
      (flags p pos : ℕ) (before fixed : List A) (r : A) (rest : List A)
      → extract_variadic_arity_mask flags ≡ 128 + p
      → p < 16
      → pos + length fixed ≡ p
      → call_from has_arity flags pos before (fixed ++ (r ∷ rest))
        ≡ do_call has_arity (p + 1) (map single (before ++ fixed) ++ (sequence (r ∷ rest) ∷ []))
  unfolding call_from
  call_from-hit flags p pos before [] r rest mask small at =
      let here : pos ≡ p = omega (arith, at) in
      let at_pos = mask_variadic_arity_lem pos (omega (arith, small, at)) in
      let same : (extract_variadic_arity_mask flags == mask_variadic_arity pos) ≡ true =
        rw (mask, at_pos) (ground arith) in
      rw (same, append-nil before, here)
  call_from-hit flags p pos before (a ∷ fixed) r rest mask small at =
      let at_pos = mask_variadic_arity_lem pos (omega (arith, small, at)) in
      let differ : (extract_variadic_arity_mask flags == mask_variadic_arity pos) ≡ false =
        rw (mask, at_pos) (ground arith) in
      rw differ (
        call_from-hit flags p (pos + 1) (before ++ (a ∷ [])) fixed r rest mask small
          (omega (arith, at))
        ∙ ap (λ xs. do_call has_arity (p + 1) (map single xs ++ (sequence (r ∷ rest) ∷ [])))
            (append_assoc before (a ∷ []) fixed))

  call_fixed-other :
      (flags p : ℕ) (args : List A)
      → extract_variadic_arity_mask flags ≡ 128 + p
      → p < 16
      → length args < p
      → call_fixed has_arity flags args ≡ do_call has_arity (length args) (map single args)
  unfolding call_fixed
  call_fixed-other flags p args mask small fewer =
      let at_n = mask_variadic_arity_lem (length args) (omega (arith, small, fewer)) in
      let differ : (extract_variadic_arity_mask flags == mask_variadic_arity (length args))
          ≡ false =
        rw (mask, at_n) (ground arith) in
      rw differ refl

  call_fixed-same :
      (flags p : ℕ) (ambiguous : Bool) (args : List A)
      → extract_variadic_arity_mask flags ≡ 128 + p
      → is_variadic_ambiguous flags ≡ ambiguous
      → p < 10
      → length args ≡ p
      → call_fixed has_arity flags args ≡ (
          if ambiguous
          then do_call has_arity p (map single args)
          else do_call has_arity (p + 1) (map single args ++ (nil ∷ [])))
  unfolding call_fixed
  call_fixed-same flags p ambiguous args mask ambiguity small count =
      let at_n = mask_variadic_arity_lem (length args) (omega (arith, small, count)) in
      let same : (extract_variadic_arity_mask flags == mask_variadic_arity (length args)) ≡ true =
        rw (mask, at_n) (ground arith) in
      let below : (length args == 10) ≡ false = ground arith in
      rw (same, ambiguity, below) (by_ambiguity ambiguous)
    where
      by_ambiguity :
          (t : Bool)
          → (if not t
              then do_call has_arity (length args + 1) (map single args ++ (nil ∷ []))
              else do_call has_arity (length args) (map single args))
            ≡ (if t
                then do_call has_arity p (map single args)
                else do_call has_arity (p + 1) (map single args ++ (nil ∷ [])))
      by_ambiguity true = ap (λ k. do_call has_arity k (map single args)) count
      by_ambiguity false = ap (λ k. do_call has_arity (k + 1) (map single args ++ (nil ∷ []))) count

  -- The overload without arguments agrees with the others.
  call_none-fixed :
      (p : ℕ) (ambiguous : Bool)
      → p < 10
      → call_none {A = A} has_arity (build_arity_flags p true ambiguous)
        ≡ call_fixed has_arity (build_arity_flags p true ambiguous) []
  unfolding call_none call_fixed build_arity_flags mask_variadic_arity extract_variadic_arity_mask
      is_variadic_ambiguous
  call_none-fixed p true small = ground arith
  call_none-fixed p false small = ground arith

  call-from :
      (p : ℕ) (ambiguous : Bool) (args : List A)
      → p < 10
      → call has_arity (build_arity_flags p true ambiguous) args
        ≡ call_from has_arity (build_arity_flags p true ambiguous) 0 [] args
  unfolding call call_from
  call-from p ambiguous [] small = call_none-fixed p ambiguous small
  call-from p ambiguous (a ∷ args) small = refl

  -- The arity that a call is meant to reach, and what it receives.
  abbrev pub expected : ℕ → Bool → List A → Called A
  expected p ambiguous args =
      if ltb (length args) p
      then do_call has_arity (length args) (map single args)
      else if length args == p
      then (if ambiguous
          then do_call has_arity p (map single args)
          else do_call has_arity (p + 1) (map single args ++ (nil ∷ [])))
      else do_call has_arity (p + 1) (map single (take p args) ++ (sequence (drop p args) ∷ []))

  -- For a function whose flags say that its variadic arity has `p` fixed parameters, fewer than
  -- ten, a call with at most ten arguments, if they are fewer than `p`, reaches the arity with as
  -- many parameters as arguments; if they are `p`, it reaches that arity where the flags say that
  -- it exists, else the variadic one, with `nil` for the rest; and if they are more, it reaches the
  -- variadic arity, with the arguments behind the first `p` as the rest.
  pub call-expected :
      (p : ℕ) (ambiguous : Bool) (args : List A)
      → p < 10
      → length args ≤ 10
      → call has_arity (build_arity_flags p true ambiguous) args ≡ expected p ambiguous args
  call-expected p ambiguous args small few =
      let (bound, variadic, ambiguity, masked) =
        build_arity_flags-bounds p true ambiguous (omega (arith, small)) in
      let mask = masked ∙ mask_variadic_arity_lem p (omega (arith, small)) in
      call-from p ambiguous args small ∙ (elim (Bool-cases (ltb (length args) p)) [
        | inl fewer ↦ rw fewer (
            call_from-miss _ p 0 [] args mask (omega (arith, small)) (ground arith)
            ∙ call_fixed-other _ p args mask (omega (arith, small)) (ground arith))
        | inr not_fewer ↦ elim (Bool-cases (length args == p)) [
          | inl as_many ↦
              rw (not_fewer, as_many)
                (call_from-miss _ p 0 [] args mask (omega (arith, small)) (ground arith)
                  ∙ call_fixed-same _ p ambiguous args mask ambiguity small (ground arith))
          | inr more ↦
              rw (not_fewer, more)
                (let (r, rest, dropped, whole, front) = split-at p args (ground arith) in
                  ap (call_from has_arity (build_arity_flags p true ambiguous) 0 []) whole
                  ∙ call_from-hit _ p 0 [] (take p args) r rest mask (omega (arith, small))
                      (omega (arith, front))
                  ∙ ap
                      (λ xs.
                        do_call has_arity (p + 1) (map single (take p args) ++ (sequence xs ∷ [])))
                      (sym dropped))
        ]
      ])
