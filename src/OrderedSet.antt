-- ===== src/OrderedSet.antt =====
-- The language's `Set`: distinct elements in order of insertion.
use nest_quickfix.Prelude.{
  Bool, true, false, List, [], ◌∷◌, Eq, ◌==◌, eq_iff, ◌≡◌, refl, arith, if◌then◌else◌,
}

module _ {ℓ} {A : Type ℓ} ⦃e : Eq A⦄ where
  -- `set.has(a)`
  unfoldable pub contains : List A → A → Bool
  contains [] a = false
  contains (x ∷ xs) a = if x == a then true else contains xs a

  -- `set.add(a)`
  unfoldable pub add : List A → A → List A
  add [] a = a ∷ []
  add (x ∷ xs) a = if x == a then x ∷ xs else x ∷ add xs a

  -- `set.delete(a)`
  unfoldable pub remove : List A → A → List A
  remove [] a = []
  remove (x ∷ xs) a = let rest = remove xs a in if x == a then rest else x ∷ rest

  abbrev pub IsDistinct : List A → Type 0
  IsDistinct [] = Unit
  IsDistinct (x ∷ xs) = (contains xs x ≡ false) × IsDistinct xs

  pub contains-add :
      (xs : List A) (a b : A) → contains (add xs a) b ≡ (if a == b then true else contains xs b)
  unfolding contains add
  contains-add [] a b = refl
  contains-add (x ∷ xs) a b =
      ground (arith, contains-add xs a b, eq_iff x a, eq_iff a b, eq_iff x b)

  pub contains-remove :
      (xs : List A) (a b : A) → contains (remove xs a) b ≡ (if a == b then false else contains xs b)
  unfolding contains remove
  contains-remove [] a b = ground arith
  contains-remove (x ∷ xs) a b =
      ground (arith, contains-remove xs a b, eq_iff x a, eq_iff a b, eq_iff x b)

  pub add-IsDistinct : (xs : List A) (a : A) → IsDistinct xs → IsDistinct (add xs a)
  unfolding contains add
  add-IsDistinct [] a d = (refl, tt)
  add-IsDistinct (x ∷ xs) a (n, d) =
      ground (arith, add-IsDistinct xs a d, contains-add xs a x, eq_iff x a, eq_iff a x)

  pub remove-IsDistinct : (xs : List A) (a : A) → IsDistinct xs → IsDistinct (remove xs a)
  unfolding remove
  remove-IsDistinct [] a d = tt
  remove-IsDistinct (x ∷ xs) a (n, d) =
      ground (arith, remove-IsDistinct xs a d, contains-remove xs a x, eq_iff a x)
