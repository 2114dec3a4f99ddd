-- ===== src/Acceptor/Listed.antt =====
-- The sessions of the registry that the acceptor goes through when a socket has closed.
use nest_quickfix.Prelude.{
  ℕ, ◌≡◌, refl, sym, ap, ◌∙◌, true, false, some, [], ◌∷◌, ◌==◌, nat_eq, nat_Eq, arith, eq_iff,
  Bool-cases, inl, inr,
}
use nest_quickfix.Text.{Text, text_Eq}
use nest_quickfix.OrderedMap
use nest_quickfix.OrderedMap.Laws.{has-eq-get, is_some}
use nest_quickfix.OrderedMap.Unique.{IsUnique}
use nest_quickfix.OrderedSet.{contains}
use nest_quickfix.World.{World}
use nest_quickfix.Acceptor.Cleared.{IsNamed, IsListed}

abbrev Registry : Type 0
Registry = OrderedMap.OrderedMap Text ℕ

pub contains-values :
    (m : Registry) (id : Text) (r : ℕ)
    → OrderedMap.get m id ≡ some r
    → contains (OrderedMap.values m) r ≡ true
unfolding OrderedMap.get contains
contains-values [] id r h = absurd (cc)
contains-values ((t, q) ∷ m) id r h = ground (arith, contains-values m id r)

-- An entry of the rest is not hidden by the first.
get-rest :
    (m : Registry) (t id : Text) (p q : ℕ)
    → OrderedMap.has m t ≡ false
    → OrderedMap.get m id ≡ some q
    → OrderedMap.get ((t, p) ∷ m) id ≡ some q
unfolding OrderedMap.get
get-rest m t id p q n e = elim (Bool-cases (t == id)) [
  | inl a ↦
      let there : OrderedMap.has m t ≡ true =
        has-eq-get m t
        ∙ ap (λ i. is_some (OrderedMap.get m i)) ((eq_iff t id).0 a)
        ∙ ap is_some e in
      absurd (cc (n, there))
  | inr a ↦ rw a e
]

get-values :
    (m : Registry) (q : ℕ)
    → IsUnique m
    → contains (OrderedMap.values m) q ≡ true
    → (id : Text) × (OrderedMap.get m id ≡ some q)
unfolding contains OrderedMap.get
get-values [] q u h = absurd (cc)
get-values ((t, p) ∷ m) q (n, u) h = elim (Bool-cases (nat_eq p q)) [
  | inl a ↦ (t, rw ((eq_iff t t).1 refl) (ap some ((eq_iff p q).0 a)))
  | inr a ↦ let (id, e) = get-values m q u (ground (arith, a)) in (id, get-rest m t id p q n e)
]

pub values-IsListed :
    (w : World) → IsUnique w.registry → IsNamed w → IsListed (OrderedMap.values w.registry) w
values-IsListed w u named q r inside h =
    let (id, e) = get-values w.registry q u inside in
    let one : some q ≡ some r = sym e ∙ ap (OrderedMap.get w.registry) (sym (named id q e)) ∙ h in
    cc one
