-- ===== src/Acceptor/Cleared.antt =====
-- src/acceptor/acceptor.ts: one round of the loop over the sessions of a socket that has closed.
use nest_quickfix.Prelude.{
  ℕ, ◌≡◌, ◌≢◌, refl, sym, ap, ap₂, ◌∙◌, Bool, true, false, Option, none, some, List, ◌∷◌, ◌&&◌,
  ◌==◌, nat_eq, nat_Eq, arith, eq_iff, Bool-cases, inl, inr, if◌then◌else◌,
}
use nest_quickfix.Text.{Text, text_Eq}
use nest_quickfix.OrderedMap
use nest_quickfix.OrderedSet.{contains}
use nest_quickfix.Result.{Result, ok, err}
use nest_quickfix.World.{World, Session}
use nest_quickfix.World.Exec.{continue, modify}
use nest_quickfix.Session.Registry.{remove_session}
use nest_quickfix.Session.Ending.{ended_session}
use nest_quickfix.Session.LoggedOut.{rest-remove_session}
use nest_quickfix.Session.Bonds.{IsBound, IsBound-trans, get-remove_session, remove_session-IsBound}

-- Every id of the registry leads to a session of that id.
abbrev pub IsNamed : World → Type 0
IsNamed w =
    (id : Text) (r : ℕ) → OrderedMap.get w.registry id ≡ some r → (w.objects r).session_id ≡ id

-- The sessions of a list are those that their ids lead to, where these lead anywhere.
abbrev pub IsListed : List ℕ → World → Type 0
IsListed refs w =
    (q r : ℕ)
    → contains refs q ≡ true
    → OrderedMap.get w.registry (w.objects q).session_id ≡ some r
    → q ≡ r

-- The object of a session that was ended if it is listed and has the socket.
abbrev pub closed_object : ℕ → Bool → Session → Session
closed_object k listed s = if listed && nat_eq s.socket k then ended_session s else s

-- The session is disconnected and its id gone from the registry; no other session or id is touched.
pub record IsEnded (r : ℕ) (w u : World) : Type 0 where
  pub bound : IsBound w u
  pub objects :
      (q : ℕ) → u.objects q ≡ (if nat_eq q r then ended_session (w.objects q) else w.objects q)
  pub registry :
      (id : Text)
      → OrderedMap.get u.registry id
        ≡ (if (w.objects r).session_id == id then none else OrderedMap.get w.registry id)

pub ended :
    (r : ℕ) (w : World) (x : Result (Unit {0}) × World)
    → x.0 ≡ ok tt
    → x.1.registry ≡ w.registry
    → IsBound w x.1
    → ((q : ℕ) → x.1.objects q ≡ (if nat_eq q r then ended_session (w.objects q) else w.objects q))
    → let y = continue x (λ _. modify (λ v. remove_session (v.objects r).session_id v)) in
      (y.0 ≡ ok tt) × IsEnded r w y.1
unfolding modify
ended r w (ok tt, v) e f b o = (
  refl,
  record {
    bound = IsBound-trans w v _ b (remove_session-IsBound (v.objects r).session_id v);
    objects = λ q. ap (λ f. f q) (rest-remove_session (v.objects r).session_id v).0 ∙ o q;
    registry = λ id.
        get-remove_session (v.objects r).session_id id v
        ∙ ap₂ (λ t m. if t == id then none else OrderedMap.get m id) (b.id r) f;
  },
)
ended r w (err x, v) e f b o = absurd (cc)

-- What the loop over the sessions leaves.
pub record IsCleared (k : ℕ) (refs : List ℕ) (w u : World) : Type 0 where
  pub bound : IsBound w u
  pub kept :
      (id : Text) (r : ℕ)
      → OrderedMap.get u.registry id ≡ some r
      → OrderedMap.get w.registry id ≡ some r
  pub gone :
      (id : Text) (r : ℕ)
      → OrderedMap.get u.registry id ≡ some r
      → contains refs r ≡ true
      → (w.objects r).socket ≢ k
  pub stays :
      (id : Text) (r : ℕ)
      → OrderedMap.get w.registry id ≡ some r
      → nat_eq (w.objects r).socket k ≡ false
      → OrderedMap.get u.registry id ≡ some r
  pub objects : (q : ℕ) → u.objects q ≡ closed_object k (contains refs q) (w.objects q)

some_of_if :
    (b : Bool) (x : Option ℕ) (r : ℕ)
    → (if b then none else x) ≡ some r
    → (b ≡ false) × (x ≡ some r)
some_of_if true x r e = absurd (cc)
some_of_if false x r e = (refl, e)

pub IsNamed-end : (r : ℕ) (w u : World) → IsEnded r w u → IsNamed w → IsNamed u
IsNamed-end r w u e named id q h =
    let (_, was) =
      some_of_if ((w.objects r).session_id == id) (OrderedMap.get w.registry id) q
        (sym (e.registry id) ∙ h) in
    e.bound.id q ∙ named id q was

pub IsListed-end :
    (r : ℕ) (refs : List ℕ) (w u : World) → IsEnded r w u → IsListed (r ∷ refs) w → IsListed refs u
unfolding contains
IsListed-end r refs w u e listed q s inside h =
    let (_, was) =
      some_of_if ((w.objects r).session_id == (u.objects q).session_id)
        (OrderedMap.get w.registry (u.objects q).session_id) s
        (sym (e.registry (u.objects q).session_id) ∙ h) in
    listed q s (ground (arith, inside)) (ap (OrderedMap.get w.registry) (sym (e.bound.id q)) ∙ was)

pub IsListed-tail : (r : ℕ) (refs : List ℕ) (w : World) → IsListed (r ∷ refs) w → IsListed refs w
unfolding contains
IsListed-tail r refs w listed q s inside h = listed q s (ground (arith, inside)) h

-- An object that was ended, and is met again.
closed_again :
    (k : ℕ) (s : Session) (again : Bool)
    → nat_eq s.socket k ≡ true
    → closed_object k again (ended_session s) ≡ closed_object k true s
closed_again k s false h = rw h refl
closed_again k s true h = rw h refl

-- One round of the loop, at a session of the socket, and the rounds behind it.
pub IsCleared-ended :
    (k r : ℕ) (refs : List ℕ) (w v u : World)
    → IsNamed w
    → IsListed (r ∷ refs) w
    → nat_eq (w.objects r).socket k ≡ true
    → IsEnded r w v
    → IsCleared k refs v u
    → IsCleared k (r ∷ refs) w u
unfolding contains
IsCleared-ended k r refs w v u named listed here e c = record {
  bound = IsBound-trans w v u e.bound c.bound;
  kept = λ id q h. (was id q h).1;
  gone = λ id q h inside same. elim (Bool-cases (nat_eq r q)) [
    | inl a ↦ cc (
      other id q h,
      (eq_iff (w.objects r).session_id id).1
          (ap (λ n. (w.objects n).session_id) ((eq_iff r q).0 a) ∙ named id q (was id q h).1),
    )
    | inr a ↦ c.gone id q h (ground (arith, a)) (e.bound.socket q ∙ same)
  ];
  stays = λ id q h apart.
      c.stays id q (not_ended id q h apart) (ap (λ j. nat_eq j k) (e.bound.socket q) ∙ apart);
  objects = λ q. c.objects q ∙ elim (Bool-cases (nat_eq q r)) [
    | inl a ↦
        let same : q ≡ r = ground arith in
        let near : nat_eq (w.objects q).socket k ≡ true =
          ap (λ j. nat_eq (w.objects j).socket k) same ∙ here in
        ap (closed_object k (contains refs q)) (e.objects q)
        ∙ rw a (closed_again k (w.objects q) (contains refs q) near)
        ∙ ap (λ b. closed_object k b (w.objects q)) (sym (first q a))
    | inr a ↦ ap (closed_object k (contains refs q)) (e.objects q) ∙ rw a (ground (arith, a))
  ];
}
  where
    first : (q : ℕ) → nat_eq q r ≡ true → contains (r ∷ refs) q ≡ true
    first q a = ground (arith, a)

    not_ended :
        (id : Text) (q : ℕ)
        → OrderedMap.get w.registry id ≡ some q
        → nat_eq (w.objects q).socket k ≡ false
        → OrderedMap.get v.registry id ≡ some q
    not_ended id q h apart = e.registry id ∙ elim (Bool-cases ((w.objects r).session_id == id)) [
      | inl a ↦
          let same : (w.objects r).session_id ≡ id = (eq_iff (w.objects r).session_id id).0 a in
          let one = listed r q (ground arith) (ap (OrderedMap.get w.registry) same ∙ h) in
          absurd (cc (apart, here, ap (λ n. nat_eq (w.objects n).socket k) one))
      | inr a ↦ rw a h
    ]

    was :
        (id : Text) (q : ℕ)
        → OrderedMap.get u.registry id ≡ some q
        → (((w.objects r).session_id == id) ≡ false) × (OrderedMap.get w.registry id ≡ some q)
    was id q h =
        some_of_if ((w.objects r).session_id == id) (OrderedMap.get w.registry id) q
          (sym (e.registry id) ∙ c.kept id q h)

    other :
        (id : Text) (q : ℕ)
        → OrderedMap.get u.registry id ≡ some q
        → ((w.objects r).session_id == id) ≡ false
    other id q h = (was id q h).0

-- A round at a session of another socket.
pub IsCleared-passed :
    (k r : ℕ) (refs : List ℕ) (w u : World)
    → nat_eq (w.objects r).socket k ≡ false
    → IsCleared k refs w u
    → IsCleared k (r ∷ refs) w u
unfolding contains
IsCleared-passed k r refs w u n c = record {
  bound = c.bound;
  kept = c.kept;
  gone = λ id q h inside same. elim (Bool-cases (nat_eq r q)) [
    | inl a ↦ cc (
      n,
      (eq_iff (w.objects r).socket k).1 (ap (λ m. (w.objects m).socket) ((eq_iff r q).0 a) ∙ same),
    )
    | inr a ↦ c.gone id q h (ground (arith, a)) same
  ];
  stays = c.stays;
  objects = λ q. c.objects q ∙ elim (Bool-cases (nat_eq r q)) [
    | inl a ↦
        let same : r ≡ q = ground arith in
        let apart : nat_eq (w.objects q).socket k ≡ false =
          ap (λ j. nat_eq (w.objects j).socket k) (sym same) ∙ n in
        rw apart (ground arith)
    | inr a ↦ rw a refl
  ];
}
