-- ===== src/Runtime/UniqueString.antt =====
-- Generated names: `unique_string` of compiler+runtime/src/cpp/jank/runtime/context.cpp, munged as
-- the passes over the intermediate representation do. The counter is that of the current
-- namespace.
use jank.Prelude.{
  ℕ, zero, suc, ◌+◌, ◌-◌, ◌*◌, ◌/◌, ◌%◌, ◌<◌, ◌≡◌, refl, ap, sym, ◌∙◌, Bool, true, false, not, [],
  ◌∷◌, ◌++◌, arith, ltb, if◌then◌else◌, Bytes, codes, all, all-contains, contains, drop, inl, inr,
  Bool-cases, ◌==◌, holds_below, holds_below-at,
}
use jank.Runtime.Munge.{munge, munge_byte, munge_bytes, cpp_keywords}
use jank.Runtime.Munge.Idempotent.{is_copied, munge_bytes-copied}

-- The decimal digits of a number, in front of `acc`.
decimal_onto : ℕ → ℕ → Bytes → Bytes
decimal_onto zero n acc = acc
decimal_onto (suc fuel) n acc =
    let acc' = (b'0' + n % 10) ∷ acc in
    let rest = decimal_onto fuel (n / 10) acc' in if ltb n 10 then acc' else rest

unfoldable pub decimal : ℕ → Bytes
unfolding decimal_onto
decimal n = decimal_onto (n + 1) n []

-- `unique_string(prefix)` with the counter after its increment.
unfoldable pub unique_string_with : Bytes → ℕ → Bytes
unfolding decimal
unique_string_with prefix symbol_counter = prefix ++ (codes "-" ++ decimal symbol_counter)

-- `unique_string()`
unfoldable pub unique_string : ℕ → Bytes
unfolding unique_string_with
unique_string symbol_counter = unique_string_with (codes "G_") symbol_counter

-- `runtime::munge(runtime::__rt_ctx->unique_string())`
unfoldable pub fresh_name : ℕ → Bytes
unfolding unique_string munge
fresh_name symbol_counter = munge (unique_string symbol_counter)

abbrev begins_with_g : Bytes → Bool
begins_with_g [] = false
begins_with_g (c ∷ cs) = c == b'G'

-- Reads decimal digits, behind those that made `v`.
abbrev pub value : ℕ → Bytes → ℕ
value v [] = v
value v (d ∷ ds) = value (v * 10 + (d - b'0')) ds

value-decimal_onto :
    (fuel n : ℕ) (acc : Bytes) → n < fuel → value 0 (decimal_onto fuel n acc) ≡ value n acc
unfolding decimal_onto
value-decimal_onto zero n acc h = elim h [ ]
value-decimal_onto (suc fuel) n acc h = elim (Bool-cases (ltb n 10)) [
  | inl last ↦ rw last (ap (λ k. value k acc) (ground arith))
  | inr more ↦ rw more (
      value-decimal_onto fuel (n / 10) ((b'0' + n % 10) ∷ acc) (ground arith)
      ∙ ap (λ k. value k acc) (omega arith))
]

pub value-decimal : (n : ℕ) → value 0 (decimal n) ≡ n
unfolding decimal
value-decimal n = value-decimal_onto (n + 1) n [] (omega arith)

digits_are_copied : holds_below (λ d. is_copied (b'0' + d)) 10 ≡ true
unfolding holds_below is_copied
digits_are_copied = refl

decimal_onto-copied :
    (fuel n : ℕ) (acc : Bytes)
    → all is_copied acc ≡ true
    → all is_copied (decimal_onto fuel n acc) ≡ true
unfolding decimal_onto all
decimal_onto-copied zero n acc h = h
decimal_onto-copied (suc fuel) n acc h =
    let digit =
      holds_below-at (λ d. is_copied (b'0' + d)) 10 (n % 10) (omega arith) digits_are_copied in
    ground (arith, digit, decimal_onto-copied fuel (n / 10) ((b'0' + n % 10) ∷ acc))

munge_bytes-decimal : (n : ℕ) → munge_bytes (decimal n) ≡ decimal n
unfolding decimal
munge_bytes-decimal n = munge_bytes-copied _ (decimal_onto-copied (n + 1) n [] (unfold all in refl))

-- No keyword begins with a capital G.
keywords_begin : all (λ k. not (begins_with_g k)) cpp_keywords ≡ true
unfolding all
keywords_begin = refl

fresh_name_lem : (n : ℕ) → fresh_name n ≡ codes "G__" ++ decimal n
unfolding fresh_name munge_bytes munge_byte
fresh_name_lem n = rw (munge_bytes-decimal n) (
    rw (
      not-keyword (
        all-contains (λ k. not (begins_with_g k)) cpp_keywords (codes "G__" ++ decimal n)
          keywords_begin)))
  where
    not-keyword :
        (contains cpp_keywords (codes "G__" ++ decimal n) ≡ true → false ≡ true)
        → contains cpp_keywords (codes "G__" ++ decimal n) ≡ false
    not-keyword h = ground (arith, h)

-- Two values of the counter give two names.
pub fresh_name-injective : (m n : ℕ) → fresh_name m ≡ fresh_name n → m ≡ n
fresh_name-injective m n e =
    let names : codes "G__" ++ decimal m ≡ codes "G__" ++ decimal n =
      sym (fresh_name_lem m) ∙ e ∙ fresh_name_lem n in
    sym (value-decimal m) ∙ ap (λ s. value 0 (drop 3 s)) names ∙ value-decimal n
