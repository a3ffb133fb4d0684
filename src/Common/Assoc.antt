-- ===== src/Common/Assoc.antt =====
-- A Go map with string keys, as an association list in which a key stands once at most. The program
-- never depends on the order in which it ranges over a map.
use mathlib.Core.Path.{◌≡◌, refl}
use mathlib.Core.Bool.{Bool, true, false}
use mathlib.Core.Option.{Option, none, some}
use mathlib.Core.List.{List, [], ◌∷◌}
use native.Mathlib.Omega.{arith}
use dbmeta.Common.Tests.{if◌then◌else◌}
use dbmeta.Common.Text.{Text, text_eq, text_eq_iff}

abbrev pub Map {ℓ} : Type ℓ → Type ℓ
Map V = List (Text × V)

module _ {ℓ} {V : Type ℓ} where
  -- v, ok := m[k]
  unfoldable pub get : Map V → Text → Option V
  get [] k = none
  get ((j, v) ∷ m) k = if text_eq j k then some v else get m k

  -- m[k] = v
  unfoldable pub put : Map V → Text → V → Map V
  put [] k v = (k, v) ∷ []
  put ((j, w) ∷ m) k v = if text_eq j k then (j, v) ∷ m else (j, w) ∷ put m k v

  abbrev pub has_value : Option V → Bool
  has_value none = false
  has_value (some v) = true

  -- _, ok := m[k]
  unfoldable pub has : Map V → Text → Bool
  unfolding get
  has m k = has_value (get m k)

  -- the keys that `range` goes through
  unfoldable pub keys : Map V → List Text
  keys [] = []
  keys ((k, v) ∷ m) = k ∷ keys m

  pub get-put :
      (m : Map V) (k j : Text) (v : V)
      → get (put m k v) j ≡ (if text_eq k j then some v else get m j)
  unfolding get put
  get-put [] k j v = refl
  get-put ((i, w) ∷ m) k j v =
      ground (arith, text_eq_iff k j, text_eq_iff i k, text_eq_iff i j, get-put m k j v)

  pub has-put :
      (m : Map V) (k j : Text) (v : V) → has (put m k v) j ≡ (if text_eq k j then true else has m j)
  unfolding has
  has-put m k j v = rw (get-put m k j v) (split (text_eq k j))
    where
      split :
          (b : Bool)
          → has_value (if b then some v else get m j) ≡ (if b then true else has_value (get m j))
      split true = refl
      split false = refl
