-- ===== src/Queue/Priority.antt =====
-- The order of a priority queue.
use nest_quickfix.Prelude.{
  ℕ, ◌≤◌, ◌<◌, ◌≡◌, refl, ap, [], ◌∷◌, ◌++◌, All, leb, arith, Bool-cases, inl, inr, if◌then◌else◌,
}
use nest_quickfix.Queue.{Entry, PriorityQueue, place, sort, enqueue}

module _ {ℓ} {T : Type ℓ} where
  abbrev pub AtLeast : ℕ → Entry T → Type 0
  AtLeast p e = p ≤ e.priority

  abbrev pub Below : ℕ → Entry T → Type 0
  Below p e = e.priority < p

  -- No entry stands before one of a higher priority.
  abbrev pub IsSorted : PriorityQueue T → Type 0
  IsSorted [] = Unit
  IsSorted (e ∷ es) = All (λ x. x.priority ≤ e.priority) es × IsSorted es

  -- `place` puts an entry before all of a priority not above its own.
  place_first :
      (e : Entry T) (xs : PriorityQueue T)
      → All (λ x. x.priority ≤ e.priority) xs
      → place e xs ≡ e ∷ xs
  unfolding place
  place_first e [] h = refl
  place_first e (x ∷ xs) (h, _) = ground arith

  pub All-place :
      (P : Entry T → Type 0) (e : Entry T) (xs : PriorityQueue T)
      → All P xs
      → P e
      → All P (place e xs)
  unfolding place
  All-place P e [] h he = (he, tt)
  All-place P e (x ∷ xs) (h, hs) he = elim (Bool-cases (leb x.priority e.priority)) [
    | inl t ↦ rw t (he, (h, hs))
    | inr t ↦ rw t (h, All-place P e xs hs he)
  ]

  -- The parts of a sorted queue around a priority.
  before : ℕ → PriorityQueue T → PriorityQueue T
  before p [] = []
  before p (x ∷ xs) = let rest = before p xs in if leb p x.priority then x ∷ rest else []

  behind : ℕ → PriorityQueue T → PriorityQueue T
  behind p [] = []
  behind p (x ∷ xs) = let rest = behind p xs in if leb p x.priority then rest else x ∷ xs

  All-trans :
      (p q : ℕ) (xs : PriorityQueue T)
      → p ≤ q
      → All (λ x. x.priority ≤ p) xs
      → All (λ x. x.priority ≤ q) xs
  All-trans p q [] l h = tt
  All-trans p q (x ∷ xs) l (h, hs) = (omega arith, All-trans p q xs l hs)

  All-Below :
      (p q : ℕ) (xs : PriorityQueue T) → p < q → All (λ x. x.priority ≤ p) xs → All (Below q) xs
  All-Below p q [] l h = tt
  All-Below p q (x ∷ xs) l (h, hs) = (omega arith, All-Below p q xs l hs)

  Below-before :
      (p : ℕ) (xs : PriorityQueue T) → All (Below p) xs → (before p xs ≡ []) × (behind p xs ≡ xs)
  unfolding before behind
  Below-before p [] h = (refl, refl)
  Below-before p (x ∷ xs) (h, _) = (ground arith, ground arith)

  All-around :
      (P : Entry T → Type 0) (p : ℕ) (e : Entry T) (xs : PriorityQueue T)
      → All P xs
      → P e
      → All P (before p xs ++ e ∷ behind p xs)
  unfolding before behind
  All-around P p e [] h he = (he, tt)
  All-around P p e (x ∷ xs) (h, hs) he = elim (Bool-cases (leb p x.priority)) [
    | inl t ↦ rw t (h, All-around P p e xs hs he)
    | inr t ↦ rw t (he, (h, hs))
  ]

  sort-snoc :
      (xs : PriorityQueue T) (e : Entry T)
      → IsSorted xs
      → sort (xs ++ e ∷ []) ≡ before e.priority xs ++ e ∷ behind e.priority xs
  unfolding sort before behind place
  sort-snoc [] e h = refl
  sort-snoc (x ∷ xs) e (h, s) = elim (Bool-cases (leb e.priority x.priority)) [
    | inl t ↦
        rw (t, sort-snoc xs e s)
          (place_first x (before e.priority xs ++ e ∷ behind e.priority xs)
            (All-around (λ y. y.priority ≤ x.priority) e.priority e xs h (ground arith)))
    | inr t ↦
        let below =
          Below-before e.priority xs (All-Below x.priority e.priority xs (ground arith) h) in
        rw (t, sort-snoc xs e s, below.0, below.1, t) (ap (λ ys. e ∷ ys) (place_first x xs h))
  ]

  around :
      (p : ℕ) (xs : PriorityQueue T)
      → IsSorted xs
      → (xs ≡ before p xs ++ behind p xs)
        × All (AtLeast p) (before p xs)
        × All (Below p) (behind p xs)
  unfolding before behind
  around p [] h = (refl, tt, tt)
  around p (x ∷ xs) (h, s) = elim (Bool-cases (leb p x.priority)) [
    | inl t ↦
        let (parts, at_least, below) = around p xs s in
        rw t (ap (λ ys. x ∷ ys) parts, (ground arith, at_least), below)
    | inr t ↦ rw t (refl, tt, (ground arith, All-Below x.priority p xs (ground arith) h))
  ]

  -- Where an item stands after `enqueue`: behind all of at least its priority, before all of a lower
  -- one, and the others as they were.
  pub record IsEnqueued (items : PriorityQueue T) (item : T) (priority : ℕ)
      (after : PriorityQueue T) : Type ℓ where
    pub front : PriorityQueue T
    pub back : PriorityQueue T
    pub parts : items ≡ front ++ back
    pub added : after ≡ front ++ record { item = item; priority = priority } ∷ back
    pub higher : All (AtLeast priority) front
    pub lower : All (Below priority) back

  -- `enqueue` on a sorted queue puts the item behind all items of at least its priority and before
  -- all of a lower one, and moves no other: items of one priority leave in the order they came.
  pub enqueue-IsEnqueued :
      (items : PriorityQueue T) (item : T) (priority : ℕ)
      → IsSorted items
      → IsEnqueued items item priority (enqueue items item priority)
  unfolding enqueue
  enqueue-IsEnqueued items item priority s =
      let e : Entry T = record { item = item; priority = priority } in
      let (parts, at_least, below) = around priority items s in
      record {
        front = before priority items;
        back = behind priority items;
        parts = parts;
        added = sort-snoc items e s;
        higher = at_least;
        lower = below;
      }

  place-IsSorted : (e : Entry T) (xs : PriorityQueue T) → IsSorted xs → IsSorted (place e xs)
  unfolding place
  place-IsSorted e [] s = (tt, tt)
  place-IsSorted e (x ∷ xs) (h, s) = elim (Bool-cases (leb x.priority e.priority)) [
    | inl t ↦ rw t ((ground arith, All-trans x.priority e.priority xs (ground arith) h), (h, s))
    | inr t ↦
        rw t (All-place (λ y. y.priority ≤ x.priority) e xs h (ground arith), place-IsSorted e xs s)
  ]

  sort-IsSorted : (xs : PriorityQueue T) → IsSorted (sort xs)
  unfolding sort
  sort-IsSorted [] = tt
  sort-IsSorted (x ∷ xs) = place-IsSorted x (sort xs) (sort-IsSorted xs)

  -- After `enqueue` the queue is sorted, whatever it was before.
  pub enqueue-IsSorted :
      (items : PriorityQueue T) (item : T) (priority : ℕ) → IsSorted (enqueue items item priority)
  unfolding enqueue
  enqueue-IsSorted items item priority =
      sort-IsSorted (items ++ record { item = item; priority = priority } ∷ [])
