-- ===== src/Runtime/ArrayMap.antt =====
-- The short map of the runtime: src/cpp/jank/runtime/detail/native_array_map.cpp and
-- include/cpp/jank/runtime/detail/native_array_map.hpp, below compiler+runtime.
pub mod Entries
pub mod Slots
pub mod Represents
pub mod Grow
pub mod Insert
pub mod Erase
pub mod Reserve
pub mod Clone
pub mod Laws
use jank.Prelude.{
  ℕ, zero, suc, ◌+◌, ◌-◌, ◌*◌, ◌/◌, ◌%◌, max, Bool, true, false, ◌&&◌, List, [], ◌∷◌, ◌++◌, Option,
  none, some, ltb, leb, ◌==◌, if◌then◌else◌, length, get_elem?, set,
}

-- A pointer to a runtime object.
abbrev pub ObjectRef : Type 0
ObjectRef = ℕ

-- What an operation does: it returns, it throws with the size of its message, or it leaves the
-- array.
pub data Outcome {ℓ} (A : Type ℓ) : Type ℓ where
  done : A → Outcome A
  thrown : ℕ → Outcome A
  out_of_bounds : Outcome A

infixl 5 ◌>>=◌
abbrev pub ◌>>=◌ {ℓ κ} : {A : Type ℓ} {B : Type κ} → Outcome A → (A → Outcome B) → Outcome B
done a >>= f = f a
thrown size >>= f = thrown size
out_of_bounds >>= f = out_of_bounds

-- The array `data`, its capacity, its length and the cached hash, where 0 is no hash. All but the
-- array are unsigned: the first two of 8 bits.
pub record ArrayMap : Type 0 where
  pub slots : List ObjectRef
  pub cap : ℕ
  pub length : ℕ
  pub hash : ℕ

abbrev pub max_size : ℕ
max_size = 8

-- `data[i]`
unfoldable pub read : List ObjectRef → ℕ → Outcome ObjectRef
read slots i = elim (get_elem? slots i) [ none ↦ out_of_bounds | some x ↦ done x ]

-- `data[i] = x`
unfoldable pub write : List ObjectRef → ℕ → ObjectRef → Outcome (List ObjectRef)
write slots i x = elim (ltb i (length slots)) [
  | true ↦ done (set slots i x)
  | false ↦ out_of_bounds
]

-- `prev[i], prev[i + 1], ...`, of the given number.
unfoldable pub read_all : ℕ → ℕ → List ObjectRef → Outcome (List ObjectRef)
unfolding read
read_all zero i slots = done []
read_all (suc n) i slots = do x ← read slots i; xs ← read_all n (i + 1) slots; done (x ∷ xs)

-- The cases of the switch over the length: 0, 2, up to 14.
unfoldable pub can_expand : ℕ → Bool
can_expand n = leb n 14 && n % 2 == 0

unfoldable pub make_next_array :
    List ObjectRef → ℕ → ℕ → ObjectRef → ObjectRef → Outcome (List ObjectRef)
unfolding write read_all can_expand
make_next_array prev cap n key value = elim (leb (n + 2) cap) [
  | true ↦ do prev' ← write prev n key; write prev' (n + 1) value
  | false ↦ elim (can_expand n) [
    | true ↦ do old ← read_all n 0 prev; done (old ++ key ∷ value ∷ [])
    | false ↦ thrown (n / 2 + 1)
  ]
]

unfoldable pub insert_unique : ObjectRef → ObjectRef → ArrayMap → Outcome ArrayMap
unfolding make_next_array
insert_unique key value m = do
  slots ← make_next_array m.slots m.cap m.length key value
  let n = (m.length + 2) % 256
  done (record { slots = slots; cap = max n m.cap; length = n; hash = 0 })

-- The loops over the keys: the first index, from `i` on, whose key passes the test. The fuel is
-- the length plus one.
unfoldable pub index_of : ℕ → (ObjectRef → Bool) → List ObjectRef → ℕ → ℕ → Outcome (Option ℕ)
unfolding read
index_of zero test slots n i = out_of_bounds
index_of (suc fuel) test slots n i = elim (ltb i n) [
  | true ↦ do
    x ← read slots i
    elim (test x) [ true ↦ done (some i) | false ↦ index_of fuel test slots n ((i + 2) % 256) ]
  | false ↦ done none
]

-- The loop of `erase` that moves the later entries down, from `k` on, which is at least 2.
unfoldable pub shift_down : ℕ → List ObjectRef → ℕ → ℕ → Outcome (List ObjectRef)
unfolding read write
shift_down zero slots n k = out_of_bounds
shift_down (suc fuel) slots n k = elim (ltb k n) [
  | true ↦ do
    x ← read slots k
    slots' ← write slots (k - 2) x
    y ← read slots' (k + 1)
    slots'' ← write slots' (k - 1) y
    shift_down fuel slots'' n ((k + 2) % 256)
  | false ↦ done slots
]

-- The test for keywords, and `runtime::equal`.
module _ (is_keyword : ObjectRef → Bool) (equal : ObjectRef → ObjectRef → Bool) where
  -- Whether a stored key is the given one: keywords are compared by identity.
  unfoldable pub matches : ObjectRef → ObjectRef → Bool
  matches key stored = if is_keyword key then stored == key else equal stored key

  unfoldable pub find : ArrayMap → ObjectRef → Outcome (Option ObjectRef)
  unfolding matches index_of
  find m key = do
    found ← index_of (m.length + 1) (matches key) m.slots m.length 0
    elim found [ none ↦ done none | some i ↦ do value ← read m.slots (i + 1); done (some value) ]

  unfoldable pub insert_or_assign : ObjectRef → ObjectRef → ArrayMap → Outcome ArrayMap
  unfolding matches index_of insert_unique
  insert_or_assign key value m = do
    found ← index_of (m.length + 1) (matches key) m.slots m.length 0
    elim found [
      | none ↦ insert_unique key value m
      | some i ↦ do slots ← write m.slots (i + 1) value; done (record m { slots = slots; hash = 0 })
    ]

  unfoldable pub erase : ObjectRef → ArrayMap → Outcome ArrayMap
  unfolding matches index_of shift_down
  erase key m = do
    found ← index_of (m.length + 1) (matches key) m.slots m.length 0
    elim found [
      | none ↦ done m
      | some i ↦ do
        slots ← shift_down (m.length + 1) m.slots m.length ((i + 2) % 256)
        done (record m { slots = slots; length = (m.length + 254) % 256; hash = 0 })
    ]

-- `new object_ref[n]{}`, with the default reference in every slot.
unfoldable pub fresh_slots : ObjectRef → ℕ → List ObjectRef
fresh_slots nil zero = []
fresh_slots nil (suc n) = nil ∷ fresh_slots nil n

-- The loop of `reserve`, from `i` on.
unfoldable pub copy_pairs : ℕ → List ObjectRef → List ObjectRef → ℕ → ℕ → Outcome (List ObjectRef)
unfolding read write
copy_pairs zero slots target n i = out_of_bounds
copy_pairs (suc fuel) slots target n i = elim (ltb i n) [
  | true ↦ do
    x ← read slots i
    target' ← write target i x
    y ← read slots (i + 1)
    target'' ← write target' (i + 1) y
    copy_pairs fuel slots target'' n ((i + 2) % 256)
  | false ↦ done target
]

unfoldable pub reserve : ObjectRef → ℕ → ArrayMap → Outcome ArrayMap
unfolding fresh_slots copy_pairs
reserve nil size m = elim (ltb max_size size) [
  | true ↦ thrown size
  | false ↦
      let new_capacity = (size * 2) % 256 in
      elim (leb new_capacity m.cap) [
        | true ↦ done m
        | false ↦ do
          new_data ← copy_pairs (m.length + 1) m.slots (fresh_slots nil new_capacity) m.length 0
          done (record m { slots = new_data; cap = new_capacity })
      ]
]

-- The loop of `clone`, from `i` on.
unfoldable pub copy_slots : ℕ → List ObjectRef → List ObjectRef → ℕ → ℕ → Outcome (List ObjectRef)
unfolding read write
copy_slots zero slots target n i = out_of_bounds
copy_slots (suc fuel) slots target n i = elim (ltb i n) [
  | true ↦ do
    x ← read slots i
    target' ← write target i x
    copy_slots fuel slots target' n ((i + 1) % 256)
  | false ↦ done target
]

unfoldable pub clone : ObjectRef → ArrayMap → Outcome ArrayMap
unfolding fresh_slots copy_slots
clone nil m = do
  slots ← copy_slots (m.length + 1) m.slots (fresh_slots nil m.cap) m.length 0
  done (record m { slots = slots })

unfoldable pub capacity : ArrayMap → ℕ
capacity m = m.cap / 2

unfoldable pub size : ArrayMap → ℕ
size m = m.length / 2

unfoldable pub is_empty : ArrayMap → Bool
is_empty m = m.length == 0
