-- ===== src/Manager/Bound.antt =====
-- The limit on the number of sessions, and which session an id leads to.
use nest_quickfix.Prelude.{
  ℕ, ◌+◌, ◌≤◌, ◌≡◌, refl, sym, ap, ◌∙◌, true, false, none, some, [], ◌∷◌, arith, eq_refl, nat_eq,
  Bool-cases, inl, inr, ◌⊎◌, if◌then◌else◌,
}
use nest_quickfix.Text.{Text, text, text_Eq}
use nest_quickfix.OrderedMap
use nest_quickfix.OrderedMap.Laws.{get-set}
use nest_quickfix.Result.{Result, ok, err, error}
use nest_quickfix.World.{World, SessionConfig}
use nest_quickfix.World.Exec.{◌>>=◌, continue, pure}
use nest_quickfix.Session.{App, new_session, session_id_of}
use nest_quickfix.Manager.{
  is_full, register, create_session, get_session, get_session_by_id, admit, register_session,
  log_out_old, limit_message,
}

pub size-set :
    (m : OrderedMap.OrderedMap Text ℕ) (k : Text) (v : ℕ)
    → OrderedMap.size (OrderedMap.set m k v) ≤ OrderedMap.size m + 1
unfolding OrderedMap.set
size-set [] k v = omega arith
size-set ((j, w) ∷ m) k v = ground (arith, size-set m k v)

-- The number of registered sessions is within the limit, if there is one.
abbrev pub IsWithinLimit : World → Type 0
IsWithinLimit w = (w.max_sessions ≡ 0) ⊎ (OrderedMap.size w.registry ≤ w.max_sessions)

pub register-IsWithinLimit :
    (id : Text) (r : ℕ) (w : World) → is_full w ≡ false → IsWithinLimit (register id r w)
unfolding register
register-IsWithinLimit id r w h = elim (Bool-cases (nat_eq w.max_sessions 0)) [
  | inl e ↦ inl (ground arith)
  | inr e ↦ inr (ground (arith, size-set w.registry id r))
]

pub get-register :
    (id : Text) (r : ℕ) (w : World) → OrderedMap.get (register id r w).registry id ≡ some r
unfolding register
get-register id r w = ground (arith, get-set w.registry id id r, eq_refl id)

pub create_session_full :
    (c : SessionConfig) (k : ℕ) (w : World)
    → is_full w ≡ true
    → create_session c k w ≡ (err (error (text "Maximum number of sessions reached")), w)
unfolding create_session ◌>>=◌
create_session_full c k w h = rw h

pub create_session_open :
    (c : SessionConfig) (k : ℕ) (w : World)
    → is_full w ≡ false
    → create_session c k w
      ≡ (ok w.next_object, register (session_id_of c) w.next_object (new_session c k w).1)
unfolding create_session ◌>>=◌ new_session
create_session_open c k w h = rw h

-- `createSession` keeps the number of sessions within the limit where it was so before, whether it
-- returns or throws.
pub create_session-IsWithinLimit :
    (c : SessionConfig) (k : ℕ) (w : World)
    → IsWithinLimit w
    → IsWithinLimit (create_session c k w).1
create_session-IsWithinLimit c k w h = elim (Bool-cases (is_full w)) [
  | inl e ↦ rw (create_session_full c k w e) h
  | inr e ↦ rw (create_session_open c k w e) (
      register-IsWithinLimit (session_id_of c) w.next_object (new_session c k w).1
        (unfold new_session in e))
]

-- A session that `createSession` returns is the one that `getSession` finds for its parties.
pub get_session-create_session :
    (c : SessionConfig) (k r : ℕ) (w u : World)
    → create_session c k w ≡ (ok r, u)
    → get_session c.sender_comp_id c.target_comp_id u ≡ some r
unfolding get_session
get_session-create_session c k r w u e = elim (Bool-cases (is_full w)) [
  | inl f ↦ cc (create_session_full c k w f)
  | inr f ↦
      let made : w.next_object ≡ r = cc (create_session_open c k w f) in
      let after : register (session_id_of c) w.next_object (new_session c k w).1 ≡ u =
        cc (create_session_open c k w f) in
      rw (← after, ← made) (get-register (session_id_of c) w.next_object (new_session c k w).1)
]

pub admit_full :
    (app : App) (id : Text) (r : ℕ) (w : World)
    → is_full w ≡ true
    → admit app id r w ≡ (err (error (limit_message w)), w)
unfolding admit ◌>>=◌
admit_full app id r w h = rw h

pub admit_open :
    (app : App) (id : Text) (r : ℕ) (w : World)
    → is_full w ≡ false
    → admit app id r w ≡ (ok tt, register id r w)
unfolding admit ◌>>=◌
admit_open app id r w h = rw h

-- After a registration that returns, the id of the session leads to it, and the number of sessions
-- is within the limit.
abbrev pub IsRegistered : Text → ℕ → World → Type 0
IsRegistered id r u = (get_session_by_id id u ≡ some r) × IsWithinLimit u

admit-IsRegistered :
    (app : App) (id : Text) (r : ℕ) (w u : World)
    → admit app id r w ≡ (ok tt, u)
    → IsRegistered id r u
unfolding get_session_by_id
admit-IsRegistered app id r w u e = elim (Bool-cases (is_full w)) [
  | inl f ↦ cc (admit_full app id r w f)
  | inr f ↦
      let same : register id r w ≡ u = ap (λ x. x.1) (sym (admit_open app id r w f) ∙ e) in
      rw (← same) (get-register id r w, register-IsWithinLimit id r w f)
]

pub register_session_lem :
    (app : App) (r : ℕ) (w : World)
    → register_session app r w
      ≡ continue
          (log_out_old app (OrderedMap.get w.registry (w.objects r).session_id) w)
          (λ x. admit app (w.objects r).session_id r)
unfolding register_session ◌>>=◌
register_session_lem app r w = refl

continue-IsRegistered :
    (app : App) (x : Result (Unit {0})) (id : Text) (r : ℕ) (v u : World)
    → continue (x, v) (λ y. admit app id r) ≡ (ok tt, u)
    → IsRegistered id r u
continue-IsRegistered app (ok y) id r v u e = admit-IsRegistered app id r v u e
continue-IsRegistered app (err x) id r v u e = cc

-- Whatever the application's handlers do meanwhile: when `registerSession` returns, the id that the
-- session had at the call leads to this session, and the number of sessions is within the limit.
pub register_session-IsRegistered :
    (app : App) (r : ℕ) (w u : World)
    → register_session app r w ≡ (ok tt, u)
    → IsRegistered (w.objects r).session_id r u
register_session-IsRegistered app r w u e =
    let logged_out = log_out_old app (OrderedMap.get w.registry (w.objects r).session_id) w in
    continue-IsRegistered app logged_out.0 (w.objects r).session_id r logged_out.1 u
      (sym (register_session_lem app r w) ∙ e)

-- A session whose id is not taken is refused exactly when the limit is reached; it is refused with
-- an error that names the limit, and then nothing is changed.
pub register_session_new :
    (app : App) (r : ℕ) (w : World)
    → get_session_by_id (w.objects r).session_id w ≡ none
    → register_session app r w ≡ (
        if is_full w
        then (err (error (limit_message w)), w)
        else (ok tt, register (w.objects r).session_id r w))
unfolding get_session_by_id log_out_old pure
register_session_new app r w h = elim (Bool-cases (is_full w)) [
  | inl f ↦ rw (register_session_lem app r w, h, f) (admit_full app (w.objects r).session_id r w f)
  | inr f ↦ rw (register_session_lem app r w, h, f) (admit_open app (w.objects r).session_id r w f)
]
