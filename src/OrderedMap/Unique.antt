-- ===== src/OrderedMap/Unique.antt =====
-- A map holds each key once.
use nest_quickfix.Prelude.{◌≡◌, refl, false, [], ◌∷◌, arith, Eq, eq_iff}
use nest_quickfix.OrderedMap.{OrderedMap, has, set, delete}
use nest_quickfix.OrderedMap.Laws.{has-set, has-delete}

module _ {ℓ κ} {K : Type ℓ} {V : Type κ} ⦃e : Eq K⦄ where
  -- What every map that the program can build satisfies.
  abbrev pub IsUnique : OrderedMap K V → Type 0
  IsUnique [] = Unit
  IsUnique ((k, v) ∷ m) = (has m k ≡ false) × IsUnique m

  pub set-IsUnique : (m : OrderedMap K V) (k : K) (v : V) → IsUnique m → IsUnique (set m k v)
  unfolding set has
  set-IsUnique [] k v h = (refl, tt)
  set-IsUnique ((i, w) ∷ m) k v (h, u) =
      ground (arith, set-IsUnique m k v u, has-set m k i v, eq_iff i k, eq_iff k i)

  pub delete-IsUnique : (m : OrderedMap K V) (k : K) → IsUnique m → IsUnique (delete m k)
  unfolding delete
  delete-IsUnique [] k h = tt
  delete-IsUnique ((i, w) ∷ m) k (h, u) = ground (arith, delete-IsUnique m k u, has-delete m k i)
