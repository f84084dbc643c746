-- ===== src/Prelude/Tables.antt =====
-- Python's dict with text keys and values of any type, as an association list in insertion order.
use Prim.Native.String.{String}
use mathlib.Core.Path.{◌≡◌, refl}
use mathlib.Core.Option.{Option, none, some}
use mathlib.Core.Bool.{false}
use mathlib.Core.List.{List, [], ◌∷◌}
use native.Mathlib.Omega.{arith}
use inferspect.Prelude.Tests.{str_eq, eq_iff, if◌then◌else◌}

module _ {ℓ} {V : Type ℓ} where
  -- `d.get(k)`
  unfoldable pub find : String → List (String × V) → Option V
  find k [] = none
  find k ((j, v) ∷ t) = if str_eq j k then some v else find k t

  -- `d[k] = v`
  unfoldable pub put : String → V → List (String × V) → List (String × V)
  put k v [] = (k, v) ∷ []
  put k v ((j, w) ∷ t) = if str_eq j k then (j, v) ∷ t else (j, w) ∷ put k v t

  -- `d.pop(k, None)`, as the dict that is left.
  unfoldable pub remove : String → List (String × V) → List (String × V)
  remove k [] = []
  remove k ((j, v) ∷ t) = let rest = remove k t in if str_eq j k then rest else (j, v) ∷ rest

  pub find-put :
      (k j : String) (v : V) (t : List (String × V))
      → find j (put k v t) ≡ (if str_eq k j then some v else find j t)
  unfolding find put
  find-put k j v [] = refl
  find-put k j v ((i, w) ∷ t) = ground (arith, eq_iff k j, eq_iff i k, eq_iff i j, find-put k j v t)

  pub find-remove :
      (k j : String) (t : List (String × V))
      → find j (remove k t) ≡ (if str_eq k j then none else find j t)
  unfolding find remove
  find-remove k j [] = ground arith
  find-remove k j ((i, w) ∷ t) =
      ground (arith, eq_iff k j, eq_iff i k, eq_iff i j, find-remove k j t)

  -- A key that is apart keeps its value.
  pub put-other :
      (k j : String) (v w : V) (t : List (String × V))
      → str_eq k j ≡ false
      → find j t ≡ some w
      → find j (put k v t) ≡ some w
  put-other k j v w t away found = rw (find-put k j v t) (rw away found)

  pub remove-other :
      (k j : String) (w : V) (t : List (String × V))
      → str_eq k j ≡ false
      → find j t ≡ some w
      → find j (remove k t) ≡ some w
  remove-other k j w t away found = rw (find-remove k j t) (rw away found)
