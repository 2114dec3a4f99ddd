-- ===== src/OrderedMap/Laws.antt =====
-- Reading a map after writing it.
use nest_quickfix.Prelude.{
  ◌≡◌, refl, Bool, true, false, Option, none, some, [], ◌∷◌, arith, Eq, ◌==◌, eq_iff, eq_refl,
  eq_false, ◌++◌, if◌then◌else◌,
}
use nest_quickfix.OrderedMap.{OrderedMap, get, has, set, delete}

abbrev pub is_some {ℓ} : {A : Type ℓ} → Option A → Bool
is_some none = false
is_some (some a) = true

module _ {ℓ κ} {K : Type ℓ} {V : Type κ} ⦃e : Eq K⦄ where
  pub get-set :
      (m : OrderedMap K V) (k j : K) (v : V)
      → get (set m k v) j ≡ (if k == j then some v else get m j)
  unfolding get set
  get-set [] k j v = refl
  get-set ((i, w) ∷ m) k j v = ground (arith, eq_iff i k, eq_iff k j, eq_iff i j, get-set m k j v)

  pub get-delete :
      (m : OrderedMap K V) (k j : K) → get (delete m k) j ≡ (if k == j then none else get m j)
  unfolding get delete
  get-delete [] k j = ground arith
  get-delete ((i, w) ∷ m) k j = ground (arith, eq_iff i k, eq_iff k j, eq_iff i j, get-delete m k j)

  pub has-eq-get : (m : OrderedMap K V) (k : K) → has m k ≡ is_some (get m k)
  unfolding get has
  has-eq-get [] k = refl
  has-eq-get ((i, w) ∷ m) k = ground (arith, has-eq-get m k)

  pub get-set_self : (m : OrderedMap K V) (k : K) (v : V) → get (set m k v) k ≡ some v
  get-set_self m k v = ground (arith, get-set m k k v, eq_refl k)

  pub get-set_ne :
      (m : OrderedMap K V) (k j : K) (v : V) → (k == j) ≡ false → get (set m k v) j ≡ get m j
  get-set_ne m k j v h = ground (arith, get-set m k j v)

  pub has-set :
      (m : OrderedMap K V) (k j : K) (v : V)
      → has (set m k v) j ≡ (if k == j then true else has m j)
  has-set m k j v = ground (arith, has-eq-get (set m k v) j, has-eq-get m j, get-set m k j v)

  pub has-delete :
      (m : OrderedMap K V) (k j : K) → has (delete m k) j ≡ (if k == j then false else has m j)
  has-delete m k j = ground (arith, has-eq-get (delete m k) j, has-eq-get m j, get-delete m k j)

  -- A key that is not there goes to the end.
  pub set_new :
      (m : OrderedMap K V) (k : K) (v : V) → has m k ≡ false → set m k v ≡ m ++ (k, v) ∷ []
  unfolding set has
  set_new [] k v h = refl
  set_new ((i, w) ∷ m) k v h = ground (arith, set_new m k v)

  -- A key that is not there leaves nothing to delete.
  pub delete_missing : (m : OrderedMap K V) (k : K) → has m k ≡ false → delete m k ≡ m
  unfolding delete has
  delete_missing [] k h = refl
  delete_missing ((i, w) ∷ m) k h = ground (arith, delete_missing m k)

module _ {ℓ κ} {K : Type ℓ} {V : Type κ} ⦃e : Eq K⦄ where
  pub set-set_self : (m : OrderedMap K V) (k : K) (v w : V) → set (set m k v) k w ≡ set m k w
  unfolding set
  set-set_self [] k v w = ground (arith, eq_refl k)
  set-set_self ((i, u) ∷ m) k v w = ground (arith, set-set_self m k v w)

  -- Two keys that are there can be set in either order.
  pub set_comm :
      (m : OrderedMap K V) (k j : K) (v w : V)
      → has m k ≡ true
      → has m j ≡ true
      → (k == j) ≡ false
      → set (set m k v) j w ≡ set (set m j w) k v
  unfolding set has
  set_comm [] k j v w hk hj n = cc
  set_comm ((i, u) ∷ m) k j v w hk hj n =
      ground (arith, set_comm m k j v w, eq_iff i k, eq_iff i j, eq_iff k j)

  -- Setting a key to the value that it has changes nothing.
  pub set_same : (m : OrderedMap K V) (k : K) (v : V) → get m k ≡ some v → set m k v ≡ m
  unfolding set get
  set_same [] k v h = cc
  set_same ((i, u) ∷ m) k v h = ground (arith, set_same m k v)

  -- Exchanging the values of two keys, and exchanging them back.
  pub set_exchange :
      (m : OrderedMap K V) (k j : K) (a b : V)
      → get m k ≡ some a
      → get m j ≡ some b
      → (k == j) ≡ false
      → set (set (set (set m k b) j a) k a) j b ≡ m
  set_exchange m k j a b hk hj n =
      rw
        (
          set_comm (set m k b) j k a a present_j present_k (eq_false j k (λ p. flip p)),
          set-set_self m k b a,
          set_same m k a hk,
          set-set_self m j a b,
        )
        (set_same m j b hj)
    where
      flip : j ≡ k → ⊥
      flip p = ground (arith, eq_iff k j)

      present_k : has (set m k b) k ≡ true
      present_k = ground (arith, has-set m k k b, eq_refl k)

      present_j : has (set m k b) j ≡ true
      present_j = ground (arith, has-set m k j b, has-eq-get m j)

pub ruleset map_laws = (get-set, get-delete, has-set, has-delete)
