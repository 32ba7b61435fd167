-- ===== src/Common/Maps.antt =====
-- A JavaScript `Map` with text keys, as its entries in insertion order: a write to a key that is
-- there keeps its place.
use Prim.Native.String.{String}
use mathlib.Core.Path.{◌≡◌, refl}
use mathlib.Core.Bool.{Bool, true, false}
use mathlib.Core.Option.{Option, none, some}
use mathlib.Core.List.{List, [], ◌∷◌}
use native.Mathlib.Omega.{arith}
use text.Mathlib.Text.{◌==◌}
use text.Mathlib.TextEquality.{eq_iff}
use toqar.Common.Tests.{if◌then◌else◌}

module _ {ℓ} {V : Type ℓ} where
  unfoldable pub map_get : List (String × V) → String → Option V
  map_get [] key = none
  map_get ((found, value) ∷ entries) key = if found == key then some value else map_get entries key

  unfoldable pub map_has : List (String × V) → String → Bool
  map_has [] key = false
  map_has ((found, value) ∷ entries) key = if found == key then true else map_has entries key

  unfoldable pub map_set : List (String × V) → String → V → List (String × V)
  map_set [] key value = (key, value) ∷ []
  map_set ((found, old) ∷ entries) key value =
      if found == key then (found, value) ∷ entries else (found, old) ∷ map_set entries key value

  pub map_get-map_set :
      (entries : List (String × V)) (key asked : String) (value : V)
      → map_get (map_set entries key value) asked
        ≡ (if key == asked then some value else map_get entries asked)
  unfolding map_get map_set
  map_get-map_set [] key asked value = refl
  map_get-map_set ((found, old) ∷ entries) key asked value = ground (
    arith,
    map_get-map_set entries key asked value,
    eq_iff found key,
    eq_iff found asked,
    eq_iff key asked,
  )
