-- ===== src/Rooms/Links.antt =====
-- One of the two maps: a set of texts for each key, and no set that is empty.
use nest_quickfix.Prelude.{
  Bool, true, false, ◌&&◌, ◌≡◌, ◌≢◌, refl, List, [], ◌∷◌, Option, none, some, ◌==◌, eq_iff, arith,
  if◌then◌else◌,
}
use nest_quickfix.Text.{Text, text_Eq}
use nest_quickfix.OrderedMap.{OrderedMap, get, has, set, delete}
use nest_quickfix.OrderedMap.Laws.{get-set, get-delete, has-eq-get}
use nest_quickfix.OrderedSet.{
  contains, add, remove, IsDistinct, contains-add, contains-remove, add-IsDistinct,
  remove-IsDistinct,
}

abbrev pub Index : Type 0
Index = OrderedMap Text (List Text)

abbrev pub or_empty : Option (List Text) → List Text
or_empty none = []
or_empty (some xs) = xs

-- `Array.from(index.get(key) || new Set())`
abbrev pub members : Index → Text → List Text
members index key = or_empty (get index key)

-- `if (!index.has(key)) index.set(key, new Set())`
unfoldable pub initialize : Index → Text → Index
initialize index key = if has index key then index else set index key []

-- `index.get(key).add(element)`, on the set that the map holds
unfoldable pub insert : Index → Text → Text → Index
insert index key element = set index key (add (members index key) element)

keep_or_delete : Index → Text → List Text → Index
keep_or_delete index key [] = delete index key
keep_or_delete index key (x ∷ xs) = set index key (x ∷ xs)

discard_found : Index → Text → Text → Option (List Text) → Index
unfolding keep_or_delete
discard_found index key element none = index
discard_found index key element (some xs) = keep_or_delete index key (remove xs element)

-- Delete the element from the set of the key, if there is one, and the set when it is empty.
unfoldable pub discard : Index → Text → Text → Index
unfolding discard_found
discard index key element = discard_found index key element (get index key)

-- `element` stands in the set of `key`.
abbrev pub linked : Index → Text → Text → Bool
linked index key element = contains (members index key) element

pub record IsTidy (index : Index) : Type 0 where
  pub filled : (key : Text) → get index key ≢ some []
  pub distinct : (key : Text) → IsDistinct (members index key)

members-set :
    (index : Index) (k j : Text) (xs : List Text)
    → members (set index k xs) j ≡ (if k == j then xs else members index j)
members-set index k j xs = ground (arith, get-set index k j xs)

members-initialize : (index : Index) (k j : Text) → members (initialize index k) j ≡ members index j
unfolding initialize
members-initialize index k j =
    ground (arith, members-set index k j [], has-eq-get index k, eq_iff k j)

pub members-insert :
    (index : Index) (k j a : Text)
    → members (insert (initialize index k) k a) j
      ≡ (if k == j then add (members index k) a else members index j)
unfolding insert
members-insert index k j a = ground (
  arith,
  members-set (initialize index k) k j (add (members (initialize index k) k) a),
  members-initialize index k k,
  members-initialize index k j,
)

members-keep_or_delete :
    (index : Index) (k j : Text) (xs : List Text)
    → members (keep_or_delete index k xs) j ≡ (if k == j then xs else members index j)
unfolding keep_or_delete
members-keep_or_delete index k j [] = ground (arith, get-delete index k j)
members-keep_or_delete index k j (x ∷ xs) = members-set index k j (x ∷ xs)

members-discard_found :
    (index : Index) (k j a : Text) (found : Option (List Text))
    → get index k ≡ found
    → members (discard_found index k a found) j
      ≡ (if k == j then remove (or_empty found) a else members index j)
unfolding discard_found remove
members-discard_found index k j a none e = ground (arith, eq_iff k j)
members-discard_found index k j a (some xs) e = members-keep_or_delete index k j (remove xs a)

pub members-discard :
    (index : Index) (k j a : Text)
    → members (discard index k a) j
      ≡ (if k == j then remove (members index k) a else members index j)
unfolding discard
members-discard index k j a = members-discard_found index k j a (get index k) refl

-- What is linked after an operation on one link.
pub linked-insert :
    (index : Index) (k a j b : Text)
    → linked (insert (initialize index k) k a) j b
      ≡ (if k == j && a == b then true else linked index j b)
linked-insert index k a j b =
    ground (arith, members-insert index k j a, contains-add (members index k) a b, eq_iff k j)

pub linked-discard :
    (index : Index) (k a j b : Text)
    → linked (discard index k a) j b ≡ (if k == j && a == b then false else linked index j b)
linked-discard index k a j b =
    ground (arith, members-discard index k j a, contains-remove (members index k) a b, eq_iff k j)

add-ne-nil : (xs : List Text) (a : Text) → add xs a ≢ []
unfolding add
add-ne-nil [] a = ground arith
add-ne-nil (x ∷ xs) a = ground arith

filled-insert :
    (index : Index) (k a j : Text)
    → get index j ≢ some []
    → get (insert (initialize index k) k a) j ≢ some []
unfolding insert initialize
filled-insert index k a j h = ground (
  arith,
  get-set (initialize index k) k j (add (members (initialize index k) k) a),
  get-set index k j [],
  add-ne-nil (members (initialize index k) k) a,
)

pub insert-IsTidy :
    (index : Index) (k a : Text) → IsTidy index → IsTidy (insert (initialize index k) k a)
insert-IsTidy index k a t = record {
  filled = λ j. filled-insert index k a j (t.filled j);
  distinct = λ j. ground (
    arith,
    members-insert index k j a,
    t.distinct j,
    add-IsDistinct (members index k) a (t.distinct k),
  );
}

filled-keep_or_delete :
    (index : Index) (k j : Text) (xs : List Text)
    → get index j ≢ some []
    → get (keep_or_delete index k xs) j ≢ some []
unfolding keep_or_delete
filled-keep_or_delete index k j [] h = ground (arith, get-delete index k j)
filled-keep_or_delete index k j (x ∷ xs) h = ground (arith, get-set index k j (x ∷ xs))

filled-discard_found :
    (index : Index) (k j a : Text) (found : Option (List Text))
    → get index j ≢ some []
    → get (discard_found index k a found) j ≢ some []
unfolding discard_found
filled-discard_found index k j a none h = h
filled-discard_found index k j a (some xs) h = filled-keep_or_delete index k j (remove xs a) h

pub discard-IsTidy : (index : Index) (k a : Text) → IsTidy index → IsTidy (discard index k a)
discard-IsTidy index k a t = record {
  filled = λ j. unfold discard in filled-discard_found index k j a (get index k) (t.filled j);
  distinct = λ j. ground (
    arith,
    members-discard index k j a,
    t.distinct j,
    remove-IsDistinct (members index k) a (t.distinct k),
  );
}
