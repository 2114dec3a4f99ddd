-- ===== src/Server/Open.antt =====
-- src/session/session.manager.ts: what the registration of sessions keeps.
use nest_quickfix.Prelude.{
  ℕ, ◌+◌, ◌≤◌, ◌≡◌, arith, false, Option, none, some, List, [], ◌∷◌, Bool-cases, inl, inr,
}
use nest_quickfix.Text.{Text, text_Eq}
use nest_quickfix.OrderedMap
use nest_quickfix.Result.{Error}
use nest_quickfix.Date.{Date}
use nest_quickfix.Message.{Message, undefined}
use nest_quickfix.World.{World, Session, SessionConfig, Handler}
use nest_quickfix.World.Exec.{◌>>=◌}
use nest_quickfix.World.Exec.Keeps.{Keeps, keeps_rules, Keeps-bind}
use nest_quickfix.World.Store.{put_session}
use nest_quickfix.Session.{App, new_session, logout, session_id_of}
use nest_quickfix.Session.Registry.{remove_session, remove_found}
use nest_quickfix.Session.Stable.{IsStable, Succeeds, logout-Keeps}
use nest_quickfix.Manager.{
  is_full, register, log_out_old, admit, register_session, create_session, log_out_each, finish,
  close_all, get_all_sessions,
}
use nest_quickfix.Manager.Bound.{
  admit_full, admit_open, register_session_lem, create_session_full, create_session_open,
}

-- A session that was made, and its id.
pub record IsKnown (r : ℕ) (id : Text) (w : World) : Type 0 where
  pub named : (w.objects r).session_id ≡ id
  pub made : r + 1 ≤ w.next_object

-- The property survives, besides what sessions do, what the parts of the server do: a session is
-- made, or registered under its id below the limit; the registry is cleared; the map of the sockets
-- or the clock changes.
pub record IsOpen (I : World → Type 0) : Type 0 where
  pub stable : IsStable I
  pub create : (config : SessionConfig) (k : ℕ) (w : World) → I w → I (new_session config k w).1
  pub enrolled :
      (id : Text) (r : ℕ) (w : World)
      → IsKnown r id w
      → is_full w ≡ false
      → I w
      → I (register id r w)
  pub cleared : (w : World) → I w → I (record w { registry = [] })
  pub active :
      (m : OrderedMap.OrderedMap Text ℕ) (w : World) → I w → I (record w { active_sockets = m })
  pub clock : (now : ℕ) (date : Date) (w : World) → I w → I (record w { now = now; date = date })

-- The functions of an application keep what every session method keeps.
abbrev pub KeptBy : (World → Type 0) → App → Type 0
KeptBy I app = (h : Handler) (r : ℕ) (m : Option Message) → Keeps I (app.call h r m)

put-IsKnown :
    (r q : ℕ) (id : Text) (s : Session) (w : World)
    → Succeeds s (w.objects q)
    → IsKnown r id w
    → IsKnown r id (put_session q s w)
put-IsKnown r q id s w p k = record { named = ground (arith, p.id, k.named); made = k.made }

IsKnown-IsStable : (r : ℕ) (id : Text) → IsStable (IsKnown r id)
unfolding remove_session remove_found
IsKnown-IsStable r id = record {
  put = λ q s w p k. put-IsKnown r q id s w p k;
  socket = λ k s w h. record { named = h.named; made = h.made };
  log = λ e w h. record { named = h.named; made = h.made };
  remove = λ t w h. record { named = ground (arith, h.named); made = ground (arith, h.made) };
  entered = λ room t w h. record { named = h.named; made = h.made };
  exited = λ room t w h. record { named = h.named; made = h.made };
}

-- Two properties at once.
both-IsStable : {I J : World → Type 0} → IsStable I → IsStable J → IsStable (λ w. I w × J w)
both-IsStable i j = record {
  put = λ r s w p (a, b). (i.put r s w p a, j.put r s w p b);
  socket = λ k s w (a, b). (i.socket k s w a, j.socket k s w b);
  log = λ e w (a, b). (i.log e w a, j.log e w b);
  remove = λ id w (a, b). (i.remove id w a, j.remove id w b);
  entered = λ room id w (a, b). (i.entered room id w a, j.entered room id w b);
  exited = λ room id w (a, b). (i.exited room id w a, j.exited room id w b);
}

-- The functions of an application do to the world only what the methods of sessions do.
abbrev pub IsTame : App → Type 1
IsTame app = (J : World → Type 0) → IsStable J → KeptBy J app

pub new_session-IsKnown :
    (config : SessionConfig) (k : ℕ) (w : World)
    → IsKnown w.next_object (session_id_of config) (new_session config k w).1
unfolding new_session
new_session-IsKnown config k w = record { named = ground arith; made = omega arith }

module _ {I : World → Type 0} (opened : IsOpen I) (app : App) where
  admit-Keeps : (id : Text) (r : ℕ) → Keeps (λ w. I w × IsKnown r id w) (admit app id r)
  unfolding register
  admit-Keeps id r = record {
    after = λ w (h, k). elim (Bool-cases (is_full w)) [
      | inl f ↦ rw (admit_full app id r w f) (h, k)
      | inr f ↦
          rw (admit_open app id r w f)
            (opened.enrolled id r w k f h, record { named = k.named; made = k.made })
    ];
  }

  module _ (tame : IsTame app) where
    log_out_old-Keeps :
        {J : World → Type 0} → IsStable J → (old : Option ℕ) → Keeps J (log_out_old app old)
    unfolding log_out_old
    log_out_old-Keeps stable none = search keeps_rules
    log_out_old-Keeps {J} stable (some old) =
        search (keeps_rules, logout-Keeps stable app (tame J stable)) depth 12

    register_session-after :
        (r : ℕ) (id : Text) (w : World)
        → I w
        → IsKnown r id w
        → I (register_session app r w).1 × IsKnown r id (register_session app r w).1
    unfolding ◌>>=◌
    register_session-after r id w h k =
        rw (register_session_lem app r w, k.named)
          ((Keeps-bind (log_out_old app (OrderedMap.get w.registry id)) (λ x. admit app id r)
              (log_out_old-Keeps (both-IsStable opened.stable (IsKnown-IsStable r id))
                (OrderedMap.get w.registry id))
              (λ x. admit-Keeps id r)).after
            w (h, k))

    -- A session is registered under the id that it has.
    pub register_session-Keeps :
        (r : ℕ) (id : Text) → Keeps (λ w. I w × IsKnown r id w) (register_session app r)
    register_session-Keeps r id = record { after = λ w (h, k). register_session-after r id w h k }

    log_out_each-after : (refs : List ℕ) (w : World) → I w → I (log_out_each app refs w).1
    unfolding log_out_each
    log_out_each-after [] w h = h
    log_out_each-after (r ∷ refs) w h =
        log_out_each-after refs (logout app r undefined w).1
          ((logout-Keeps opened.stable app (tame I opened.stable) r undefined).after w h)

    finish-after : (x : Option Error × World) → I x.1 → I (finish app x).1
    unfolding finish
    finish-after (none, w) h = opened.cleared w h
    finish-after (some e, w) h = h

    pub close_all-Keeps : Keeps I (close_all app)
    unfolding close_all
    close_all-Keeps = record {
      after = λ w h.
          finish-after (log_out_each app (get_all_sessions w) w)
            (log_out_each-after (get_all_sessions w) w h);
    }

  pub create_session-Keeps : (config : SessionConfig) (k : ℕ) → Keeps I (create_session config k)
  create_session-Keeps config k = record {
    after = λ w h. elim (Bool-cases (is_full w)) [
      | inl f ↦ rw (create_session_full config k w f) h
      | inr f ↦ rw (create_session_open config k w f) (
          opened.enrolled (session_id_of config) w.next_object (new_session config k w).1
            (new_session-IsKnown config k w) (unfold new_session in f) (opened.create config k w h))
    ];
  }
