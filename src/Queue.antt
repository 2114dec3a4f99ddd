-- ===== src/Queue.antt =====
-- src/common/priority.queue.ts, `class PriorityQueue`. The `sort` of the language is stable, so
-- `sort` is insertion from the right.
pub mod Priority
pub mod Sender
pub mod Stored
pub mod Batch
pub mod Retries
pub mod Shutdown
pub mod Limit
use nest_quickfix.Prelude.{
  ℕ, ◌≤◌, ◌<◌, ◌≡◌, Bool, true, false, Option, none, some, List, [], ◌∷◌, ◌++◌, length, All, leb,
  nat_eq, if◌then◌else◌,
}

-- `{ item: T; priority: number }`
pub record Entry {ℓ} (T : Type ℓ) : Type ℓ where
  pub item : T
  pub priority : ℕ

abbrev pub PriorityQueue {ℓ} : Type ℓ → Type ℓ
PriorityQueue T = List (Entry T)

module _ {ℓ} {T : Type ℓ} where
  -- `e` stood before all of `es`, and stays before those of its priority.
  unfoldable pub place : Entry T → PriorityQueue T → PriorityQueue T
  place e [] = e ∷ []
  place e (x ∷ xs) =
      let rest = place e xs in if leb x.priority e.priority then e ∷ x ∷ xs else x ∷ rest

  -- `items.sort((a, b) => b.priority - a.priority)`
  unfoldable pub sort : PriorityQueue T → PriorityQueue T
  unfolding place
  sort [] = []
  sort (e ∷ es) = place e (sort es)

  unfoldable pub enqueue : PriorityQueue T → T → ℕ → PriorityQueue T
  unfolding sort
  enqueue items item priority = sort (items ++ record { item = item; priority = priority } ∷ [])

  -- `dequeue()`: the item, and the queue that is left
  unfoldable pub dequeue : PriorityQueue T → Option T × PriorityQueue T
  dequeue [] = (none, [])
  dequeue (e ∷ es) = (some e.item, es)

  unfoldable pub is_empty : PriorityQueue T → Bool
  is_empty items = nat_eq (length items) 0

  unfoldable pub get_size : PriorityQueue T → ℕ
  get_size items = length items
