-- ===== src/Ir/Builder/Fresh.antt =====
-- Names that the builder has not used: `next_ident` of
-- compiler+runtime/src/cpp/jank/ir/builder.cpp.
use jank.Prelude.{
  ℕ, zero, suc, ◌+◌, ◌≤◌, ◌<◌, ◌≡◌, refl, ap, sym, ◌∙◌, true, false, List, [], ◌∷◌, ◌++◌, Option,
  some, if◌then◌else◌, length, Bytes, contains, leb, drop, eq_bytes, eq_bytes_iff, arith,
  Bool-cases, inl, inr,
}
use jank.Runtime.UniqueString.{decimal, value, value-decimal}
use jank.Ir.Instruction.{Identifier}
use jank.Ir.Builder.{Builder, next_unused, next_ident}

-- The number behind the prefix.
abbrev number : Bytes → Identifier → ℕ
number prefix name = value 0 (drop (length prefix) name)

-- How many of the names can still collide with a candidate from `count` on.
abbrev pending : Bytes → ℕ → List Identifier → ℕ
pending prefix count [] = 0
pending prefix count (u ∷ us) =
    (if leb count (number prefix u) then 1 else 0) + pending prefix count us

drop-append : (prefix s : Bytes) → drop (length prefix) (prefix ++ s) ≡ s
drop-append [] s = refl
drop-append (c ∷ cs) s = drop-append cs s

number-candidate : (prefix : Bytes) (n : ℕ) → number prefix (prefix ++ decimal n) ≡ n
number-candidate prefix n = ap (value 0) (drop-append prefix (decimal n)) ∙ value-decimal n

pending_mono :
    (prefix : Bytes) (count : ℕ) (us : List Identifier)
    → pending prefix (count + 1) us ≤ pending prefix count us
pending_mono prefix count [] = omega arith
pending_mono prefix count (u ∷ us) = ground (arith, pending_mono prefix count us)

pending-used :
    (prefix : Bytes) (count : ℕ) (us : List Identifier)
    → contains us (prefix ++ decimal count) ≡ true
    → pending prefix (count + 1) us < pending prefix count us
unfolding contains
pending-used prefix count [] h = cc
pending-used prefix count (u ∷ us) h = elim (Bool-cases (eq_bytes (prefix ++ decimal count) u)) [
  | inl same ↦
      (let here : number prefix u ≡ count =
          ap (number prefix) (sym ((eq_bytes_iff (prefix ++ decimal count) u).0 same))
          ∙ number-candidate prefix count in
        ground (arith, here, pending_mono prefix count us))
  | inr differ ↦ ground (arith, h, differ, pending-used prefix count us)
]

pending-length :
    (prefix : Bytes) (count : ℕ) (us : List Identifier) → pending prefix count us ≤ length us
pending-length prefix count [] = omega arith
pending-length prefix count (u ∷ us) = ground (arith, pending-length prefix count us)

-- The candidate that was taken.
abbrev Taken : Bytes → List Identifier → ℕ → Option (Identifier × ℕ) → Type 0
Taken prefix used count r =
    (n : ℕ) × (r ≡ some (prefix ++ decimal n, n + 1))
    × (count ≤ n)
    × (contains used (prefix ++ decimal n) ≡ false)

next_unused-Taken :
    (fuel : ℕ) (prefix : Bytes) (used : List Identifier) (count : ℕ)
    → pending prefix count used < fuel
    → Taken prefix used count (next_unused fuel prefix used count)
unfolding next_unused
next_unused-Taken zero prefix used count h = elim h [ ]
next_unused-Taken (suc fuel) prefix used count h =
    elim (Bool-cases (contains used (prefix ++ decimal count))) [
      | inl taken ↦
          (let less = pending-used prefix count used taken in
            let (n, e, after, free) =
              next_unused-Taken fuel prefix used (count + 1) (omega (arith, less, h)) in
            (n, rw taken e, omega (arith, after), free))
      | inr free ↦ (count, rw free, omega arith, free)
    ]

-- The loop of `next_ident` ends, whatever names are used: it returns the prefix with a number from
-- the count on that makes a name not used before, enters the name among the used ones, moves the
-- count behind the number, and changes nothing else.
pub next_ident-fresh :
    (prefix : Bytes) (b : Builder)
    → (n : ℕ) × (next_ident prefix b
        ≡ some (
          prefix ++ decimal n,
          record b {
            ident_count = n + 1;
            used_identifiers = (prefix ++ decimal n) ∷ b.used_identifiers;
          },
        ))
      × (b.ident_count ≤ n)
      × (contains b.used_identifiers (prefix ++ decimal n) ≡ false)
unfolding next_ident
next_ident-fresh prefix b =
    let (n, e, after, free) =
      next_unused-Taken (length b.used_identifiers + 1) prefix b.used_identifiers b.ident_count
        (omega (arith, pending-length prefix b.ident_count b.used_identifiers)) in
    (n, rw (e, next_ident), after, free)
