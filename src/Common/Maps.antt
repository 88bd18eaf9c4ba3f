-- ===== src/Common/Maps.antt =====
-- Go maps with string keys, as lists of entries with distinct keys.
use mathlib.Core.Path.{◌≡◌, refl}
use mathlib.Core.List.{List, [], ◌∷◌}
use mathlib.Core.Option.{Option, none, some}
use native.Mathlib.Omega.{arith}
use go_tfhfs.Common.Tests.{if◌then◌else◌}
use go_tfhfs.Common.Text.{Bytes, bytes_eq, bytes_eq_iff}

module _ {ℓ} {V : Type ℓ} where
  -- `m[k]`, with the `ok` of Go as an option.
  unfoldable pub map_get : Bytes → List (Bytes × V) → Option V
  map_get k [] = none
  map_get k ((j, v) ∷ m) = if bytes_eq j k then some v else map_get k m

  -- `m[k] = v`.
  unfoldable pub map_set : Bytes → V → List (Bytes × V) → List (Bytes × V)
  map_set k v [] = (k, v) ∷ []
  map_set k v ((j, w) ∷ m) = if bytes_eq j k then (k, v) ∷ m else (j, w) ∷ map_set k v m

  -- `delete(m, k)`.
  unfoldable pub map_delete : Bytes → List (Bytes × V) → List (Bytes × V)
  map_delete k [] = []
  map_delete k ((j, w) ∷ m) = if bytes_eq j k then map_delete k m else (j, w) ∷ map_delete k m

  pub map_get-map_set :
      (j k : Bytes) (v : V) (m : List (Bytes × V))
      → map_get j (map_set k v m) ≡ (if bytes_eq k j then some v else map_get j m)
  unfolding map_get map_set
  map_get-map_set j k v [] = refl
  map_get-map_set j k v ((i, w) ∷ m) =
      ground (arith, bytes_eq_iff k j, bytes_eq_iff i k, bytes_eq_iff i j, map_get-map_set j k v m)

  pub map_get-map_delete :
      (j k : Bytes) (m : List (Bytes × V))
      → map_get j (map_delete k m) ≡ (if bytes_eq k j then none else map_get j m)
  unfolding map_get map_delete
  map_get-map_delete j k [] = ground arith
  map_get-map_delete j k ((i, w) ∷ m) =
      ground (arith, bytes_eq_iff k j, bytes_eq_iff i k, bytes_eq_iff i j, map_get-map_delete j k m)
