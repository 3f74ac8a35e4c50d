-- ===== src/Prelude/Assoc.antt =====
-- Maps from byte strings, as association lists.
use mathlib.Core.Path.{◌≡◌, refl}
use mathlib.Core.Option.{Option, none, some}
use mathlib.Core.List.{List, [], ◌∷◌}
use native.Mathlib.Omega.{arith}
use jank.Prelude.Tests.{if◌then◌else◌}
use jank.Prelude.Text.{Bytes, eq_bytes, eq_bytes_iff}

module _ {ℓ} {V : Type ℓ} where
  -- `map.at(k)`; `none` is the exception.
  unfoldable pub at : List (Bytes × V) → Bytes → Option V
  at [] k = none
  at ((j, v) ∷ m) k = if eq_bytes j k then some v else at m k

  -- `map[k] = v`
  unfoldable pub put : List (Bytes × V) → Bytes → V → List (Bytes × V)
  put [] k v = (k, v) ∷ []
  put ((j, w) ∷ m) k v = if eq_bytes j k then (k, v) ∷ m else (j, w) ∷ put m k v

  pub at-put :
      (m : List (Bytes × V)) (k j : Bytes) (v : V)
      → at (put m k v) j ≡ (if eq_bytes k j then some v else at m j)
  unfolding at put
  at-put [] k j v = refl
  at-put ((i, w) ∷ m) k j v =
      ground (arith, eq_bytes_iff k j, eq_bytes_iff i k, eq_bytes_iff i j, at-put m k j v)
