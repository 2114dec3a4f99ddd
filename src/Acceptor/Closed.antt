-- ===== src/Acceptor/Closed.antt =====
-- src/acceptor/acceptor.ts: the sessions of a socket that has closed.
use nest_quickfix.Prelude.{
  ℕ, ◌≡◌, ◌≢◌, refl, sym, ap, ◌∙◌, false, Option, none, some, List, [], ◌∷◌, nat_eq, nat_Eq, arith,
  Bool-cases, inl, inr, if◌then◌else◌,
}
use nest_quickfix.Text.{Text, text_Eq}
use nest_quickfix.OrderedMap
use nest_quickfix.OrderedSet.{contains}
use nest_quickfix.Result.{Result, ok, err}
use nest_quickfix.World.{World}
use nest_quickfix.World.Exec.{Exec, handle, ◌>>=◌, continue, pure, gets, catch}
use nest_quickfix.Session.{App, handle_disconnect}
use nest_quickfix.Session.Ending.{IsPassive}
use nest_quickfix.Session.Bonds.{IsBound-refl, handle_disconnect-IsBound}
use nest_quickfix.Manager.{get_all_sessions, get_session_by_id}
use nest_quickfix.Metadata.{FixMetadata}
use nest_quickfix.Acceptor.Guard.{AcceptorConfig}
use nest_quickfix.Acceptor.{end_session, cleanup_each, cleanup_socket_sessions}
use nest_quickfix.Acceptor.Cleared.{
  IsNamed, IsListed, closed_object, IsEnded, ended, IsCleared, IsNamed-end, IsListed-end,
  IsListed-tail, IsCleared-ended, IsCleared-passed,
}
use nest_quickfix.Acceptor.Listed.{contains-values, values-IsListed}
use nest_quickfix.OrderedMap.Unique.{IsUnique}
use nest_quickfix.Session.LoggedOut.{handle_disconnect_passive, objects-disconnected}

sequenced :
    (x : Result (Unit {0}) × World) (next : Exec World (Unit {0}))
    → x.0 ≡ ok tt
    → continue x (λ _. next) ≡ next x.1
sequenced (ok tt, v) next e = refl
sequenced (err y, v) next e = absurd (cc)

module _ (app : App) (config : AcceptorConfig) (metadata : List FixMetadata)
    (p : IsPassive app) where
  end_session-IsEnded :
      (r : ℕ) (w : World)
      → ((end_session app config metadata r w).0 ≡ ok tt)
        × IsEnded r w (end_session app config metadata r w).1
  unfolding end_session ◌>>=◌
  end_session-IsEnded r w =
      let (e, f, b) = handle_disconnect-IsBound app r w p in
      ended r w (handle_disconnect app r w) e f b (λ q.
        ap (λ x. x.1.objects q) (handle_disconnect_passive app r w p) ∙ objects-disconnected r q w)

  cleanup_each-IsCleared :
      (k : ℕ) (refs : List ℕ) (w : World)
      → IsNamed w
      → IsListed refs w
      → ((cleanup_each app config metadata k refs w).0 ≡ ok tt)
        × IsCleared k refs w (cleanup_each app config metadata k refs w).1
  unfolding cleanup_each contains ◌>>=◌ gets pure
  cleanup_each-IsCleared k [] w named listed = (
    refl,
    record {
      bound = IsBound-refl w;
      kept = λ id r h. h;
      gone = λ id r h inside. absurd (cc inside);
      stays = λ id r h apart. h;
      objects = λ q. refl;
    },
  )
  cleanup_each-IsCleared k (r ∷ refs) w named listed =
      elim (Bool-cases (nat_eq (w.objects r).socket k)) [
        | inl h ↦
            let (e, over) = end_session-IsEnded r w in
            let v = (end_session app config metadata r w).1 in
            let (f, c) =
              cleanup_each-IsCleared k refs v (IsNamed-end r w v over named)
                (IsListed-end r refs w v over listed) in
            rw
              (
                h,
                sequenced (end_session app config metadata r w)
                    (cleanup_each app config metadata k refs) e,
              )
              (f, IsCleared-ended k r refs w v _ named listed h over c)
        | inr h ↦
            let (e, c) = cleanup_each-IsCleared k refs w named (IsListed-tail r refs w listed) in
            rw h (e, IsCleared-passed k r refs w _ h c)
      ]

caught : (x : Result (Unit {0}) × World) → x.0 ≡ ok tt → handle x (λ e. pure tt) ≡ (ok tt, x.1)
caught (ok tt, v) e = refl
caught (err y, v) e = absurd (cc)

module _ (app : App) (config : AcceptorConfig) (metadata : List FixMetadata) (k : ℕ) (w : World)
    (p : IsPassive app) (named : IsNamed w) (unique : IsUnique w.registry) where
  -- The whole loop, over all sessions of the registry.
  registry-IsCleared :
      ((cleanup_each app config metadata k (get_all_sessions w) w).0 ≡ ok tt)
      × IsCleared k
          (get_all_sessions w)
          w
          (cleanup_each app config metadata k (get_all_sessions w) w).1
  unfolding get_all_sessions
  registry-IsCleared =
      cleanup_each-IsCleared app config metadata p k (get_all_sessions w) w named
        (values-IsListed w unique named)

  cleanup_socket_sessions_lem :
      cleanup_socket_sessions app config metadata k w
      ≡ (ok tt, (cleanup_each app config metadata k (get_all_sessions w) w).1)
  unfolding cleanup_socket_sessions ◌>>=◌ gets catch
  cleanup_socket_sessions_lem =
      caught (cleanup_each app config metadata k (get_all_sessions w) w) registry-IsCleared.0

-- What is left of what an id led to, when the sessions of the socket are gone.
abbrev pub left_of : ℕ → World → Option ℕ → Option ℕ
left_of k w none = none
left_of k w (some r) = if nat_eq (w.objects r).socket k then none else some r

-- What is left of a socket: each id leads to the session that it led to, unless that has the socket;
-- then it leads to none. The registered sessions of the socket were ended, and no object of a
-- session has another change.
abbrev pub IsVacated : ℕ → World → World → Type 0
IsVacated k w u =
    ((id : Text) → get_session_by_id id u ≡ left_of k w (get_session_by_id id w))
    × ((r : ℕ) → u.objects r ≡ closed_object k (contains (get_all_sessions w) r) (w.objects r))

found_left :
    (k : ℕ) (w : World) (x y : Option ℕ)
    → ((r : ℕ) → y ≡ some r → x ≡ some r)
    → ((r : ℕ) → y ≡ some r → nat_eq (w.objects r).socket k ≡ false)
    → ((r : ℕ) → x ≡ some r → nat_eq (w.objects r).socket k ≡ false → y ≡ some r)
    → y ≡ left_of k w x
found_left k w none none kept gone stays = refl
found_left k w none (some q) kept gone stays = absurd (cc (kept q refl))
found_left k w (some r) none kept gone stays = elim (Bool-cases (nat_eq (w.objects r).socket k)) [
  | inl e ↦ rw e refl
  | inr e ↦ absurd (cc (stays r refl e))
]
found_left k w (some r) (some q) kept gone stays =
    let same : r ≡ q = cc (kept q refl) in
    let apart : nat_eq (w.objects r).socket k ≡ false =
      ap (λ j. nat_eq (w.objects j).socket k) same ∙ gone q refl in
    rw apart (sym (kept q refl))

IsCleared-IsVacated : (k : ℕ) (w u : World) → IsCleared k (get_all_sessions w) w u → IsVacated k w u
unfolding get_session_by_id get_all_sessions
IsCleared-IsVacated k w u c = (
  λ id.
      found_left k w (OrderedMap.get w.registry id) (OrderedMap.get u.registry id) (c.kept id)
        (λ r h. apart r (c.gone id r h (contains-values w.registry id r (c.kept id r h))))
        (c.stays id),
  c.objects,
)
  where
    apart : (r : ℕ) → (w.objects r).socket ≢ k → nat_eq (w.objects r).socket k ≡ false
    apart r n = ground arith

-- If each id of the registry stands there once and leads to a session of that id, and the
-- application's functions do nothing to the world, `cleanupSocketSessions` of a socket takes the
-- sessions of that socket out of the registry, and no other: each other id leads where it led. The
-- registered sessions of the socket are DISCONNECTED with their timers stopped, and no other object
-- of a session is changed.
pub cleanup_socket_sessions-IsVacated :
    (app : App) (config : AcceptorConfig) (metadata : List FixMetadata) (k : ℕ) (w : World)
    → IsPassive app
    → IsNamed w
    → IsUnique w.registry
    → IsVacated k w (cleanup_socket_sessions app config metadata k w).1
cleanup_socket_sessions-IsVacated app config metadata k w p named unique =
    rw (cleanup_socket_sessions_lem app config metadata k w p named unique)
      (IsCleared-IsVacated k w _ (registry-IsCleared app config metadata k w p named unique).1)
