-- ===== src/OrderedMap.antt =====
-- The language's `Map`: entries in order of insertion, and a key that is set again keeps its place.
pub mod Laws
pub mod Unique
use nest_quickfix.Prelude.{
  ℕ, Bool, false, true, Option, none, some, List, [], ◌∷◌, map, length, Eq, ◌==◌, if◌then◌else◌,
}

abbrev pub OrderedMap {ℓ κ} : Type ℓ → Type κ → Type (ℓ ⊔ κ)
OrderedMap K V = List (K × V)

module _ {ℓ κ} {K : Type ℓ} {V : Type κ} ⦃e : Eq K⦄ where
  -- `map.get(key)`; `none` is `undefined` for a missing key.
  unfoldable pub get : OrderedMap K V → K → Option V
  get [] key = none
  get ((k, v) ∷ m) key = if k == key then some v else get m key

  -- `map.has(key)`
  unfoldable pub has : OrderedMap K V → K → Bool
  has [] key = false
  has ((k, v) ∷ m) key = if k == key then true else has m key

  -- `map.set(key, value)`
  unfoldable pub set : OrderedMap K V → K → V → OrderedMap K V
  set [] key value = (key, value) ∷ []
  set ((k, v) ∷ m) key value = if k == key then (k, value) ∷ m else (k, v) ∷ set m key value

  -- `map.delete(key)`
  unfoldable pub delete : OrderedMap K V → K → OrderedMap K V
  delete [] key = []
  delete ((k, v) ∷ m) key = let rest = delete m key in if k == key then rest else (k, v) ∷ rest

-- `map.keys()` and `map.values()`
abbrev pub keys {ℓ κ} : {K : Type ℓ} {V : Type κ} → OrderedMap K V → List K
keys [] = []
keys ((k, v) ∷ m) = k ∷ keys m

abbrev pub values {ℓ κ} : {K : Type ℓ} {V : Type κ} → OrderedMap K V → List V
values [] = []
values ((k, v) ∷ m) = v ∷ values m

-- `map.size`
abbrev pub size {ℓ κ} : {K : Type ℓ} {V : Type κ} → OrderedMap K V → ℕ
size m = length m
