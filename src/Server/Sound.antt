-- ===== src/Server/Sound.antt =====
-- What holds of the server's state at all times.
use nest_quickfix.Prelude.{
  ℕ, ◌≤◌, ◌≡◌, refl, ◌∙◌, arith, false, Option, none, some, [], ◌∷◌, ◌==◌, eq_iff, Bool-cases, inl,
  inr,
}
use nest_quickfix.Text.{Text, text_Eq}
use nest_quickfix.OrderedMap
use nest_quickfix.OrderedMap.Laws.{get-set, get-delete}
use nest_quickfix.Rooms.{empty}
use nest_quickfix.Rooms.Consistency.{
  IsConsistent, empty-IsConsistent, join-IsConsistent, leave-IsConsistent,
  leave_all_rooms-IsConsistent,
}
use nest_quickfix.World.{World, Session, SessionConfig}
use nest_quickfix.World.Store.{put_session}
use nest_quickfix.Session.{new_session}
use nest_quickfix.Session.Registry.{remove_session, remove_found}
use nest_quickfix.Session.Stable.{IsStable, Succeeds}
use nest_quickfix.Session.Bonds.{update_part}
use nest_quickfix.Session.Connected.{NoneConnected, NoneConnected-IsStable, new_session-Keeps}
use nest_quickfix.Manager.{is_full, register}
use nest_quickfix.Manager.Bound.{IsWithinLimit, register-IsWithinLimit}
use nest_quickfix.Server.Open.{IsOpen, IsKnown}

-- Every id of the registry leads to a session that was made and that has this id, the number of
-- sessions is within the limit, the rooms are consistent, and no session is CONNECTED.
pub record IsSound (w : World) : Type 0 where
  pub known : (id : Text) (r : ℕ) → OrderedMap.get w.registry id ≡ some r → IsKnown r id w
  pub within : IsWithinLimit w
  pub rooms : IsConsistent w.rooms
  pub idle : NoneConnected w

size-delete :
    (m : OrderedMap.OrderedMap Text ℕ) (k : Text)
    → OrderedMap.size (OrderedMap.delete m k) ≤ OrderedMap.size m
unfolding OrderedMap.delete
size-delete [] k = omega arith
size-delete ((j, v) ∷ m) k = ground (arith, size-delete m k)

put-IsSound :
    (r : ℕ) (s : Session) (w : World)
    → Succeeds s (w.objects r)
    → IsSound w
    → IsSound (put_session r s w)
put-IsSound r s w p h = record {
  known = λ id q e. record {
    named = update_part w.objects r q s (λ t. t.session_id) p.id ∙ (h.known id q e).named;
    made = (h.known id q e).made;
  };
  within = h.within;
  rooms = h.rooms;
  idle = NoneConnected-IsStable.put r s w p h.idle;
}

-- A world with the same sessions, registry and limit.
same-IsSound :
    (w u : World)
    → u.objects ≡ w.objects
    → u.next_object ≡ w.next_object
    → u.registry ≡ w.registry
    → u.max_sessions ≡ w.max_sessions
    → IsConsistent u.rooms
    → IsSound w
    → IsSound u
same-IsSound w u o n g l c h = record {
  known = λ id r e. record {
    named = rw o ((h.known id r (rw (← g) e)).named);
    made = rw n ((h.known id r (rw (← g) e)).made);
  };
  within = rw (g, l) h.within;
  rooms = c;
  idle = record { at = λ r. rw o (h.idle.at r) };
}

delete-IsWithinLimit :
    (id : Text) (w : World)
    → IsWithinLimit w
    → IsWithinLimit (record w { registry = OrderedMap.delete w.registry id })
delete-IsWithinLimit id w (inl e) = inl e
delete-IsWithinLimit id w (inr e) = inr (ground (arith, size-delete w.registry id))

remove_found-IsSound :
    (x : Option ℕ) (id : Text) (w : World) → IsSound w → IsSound (remove_found x id w)
unfolding remove_found
remove_found-IsSound none id w h = h
remove_found-IsSound (some r) id w h = record {
  known = λ t q e.
      let was = h.known t q (ground (arith, get-delete w.registry id t, e)) in
      record { named = was.named; made = was.made };
  within = delete-IsWithinLimit id w h.within;
  rooms = leave_all_rooms-IsConsistent id h.rooms;
  idle = record { at = h.idle.at };
}

register-IsSound :
    (id : Text) (r : ℕ) (w : World)
    → IsKnown r id w
    → is_full w ≡ false
    → IsSound w
    → IsSound (register id r w)
unfolding register
register-IsSound id r w k f h = record {
  known = λ t q e. elim (Bool-cases (id == t)) [
    | inl a ↦
        let same : r ≡ q = ground (arith, get-set w.registry id t r, e) in
        record { named = ground (arith, k.named, eq_iff id t); made = rw (← same) k.made }
    | inr a ↦
        let was = h.known t q (ground (arith, get-set w.registry id t r, e)) in
        record { named = was.named; made = was.made }
  ];
  within = unfold register in register-IsWithinLimit id r w f;
  rooms = h.rooms;
  idle = record { at = h.idle.at };
}

create-IsSound :
    (config : SessionConfig) (k : ℕ) (w : World) → IsSound w → IsSound (new_session config k w).1
unfolding new_session
create-IsSound config k w h = record {
  known = λ id r e. record {
    named = ground (arith, (h.known id r e).named, (h.known id r e).made);
    made = ground (arith, (h.known id r e).made);
  };
  within = h.within;
  rooms = h.rooms;
  idle = unfold new_session in (new_session-Keeps config k).after w h.idle;
}

cleared-IsWithinLimit : (w : World) → IsWithinLimit (record w { registry = [] })
cleared-IsWithinLimit w = inr (omega arith)

IsSound-IsStable : IsStable IsSound
unfolding remove_session
IsSound-IsStable = record {
  put = put-IsSound;
  socket = λ k s w h. same-IsSound w _ refl refl refl refl h.rooms h;
  log = λ e w h. same-IsSound w _ refl refl refl refl h.rooms h;
  remove = λ id w h. remove_found-IsSound (OrderedMap.get w.registry id) id w h;
  entered =
      λ room id w h. same-IsSound w _ refl refl refl refl (join-IsConsistent room id h.rooms) h;
  exited =
      λ room id w h. same-IsSound w _ refl refl refl refl (leave-IsConsistent room id h.rooms) h;
}

pub IsSound-IsOpen : IsOpen IsSound
IsSound-IsOpen = record {
  stable = IsSound-IsStable;
  create = create-IsSound;
  enrolled = register-IsSound;
  cleared = λ w h. record {
    known = λ id r e. absurd (unfold OrderedMap.get in cc);
    within = cleared-IsWithinLimit w;
    rooms = h.rooms;
    idle = record { at = h.idle.at };
  };
  active = λ m w h. same-IsSound w _ refl refl refl refl h.rooms h;
  clock = λ now date w h. same-IsSound w _ refl refl refl refl h.rooms h;
}

-- A server at its start: nothing is registered, there is no room, and no session is CONNECTED.
pub blank-IsSound : (w : World) → w.registry ≡ [] → w.rooms ≡ empty → NoneConnected w → IsSound w
unfolding OrderedMap.get
blank-IsSound w g c n = record {
  known = λ id r e. absurd (cc);
  within = rw g (inr (omega arith));
  rooms = rw c empty-IsConsistent;
  idle = n;
}
