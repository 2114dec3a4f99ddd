-- ===== src/Server/Lasting.antt =====
-- What a session object keeps from the time when it is made.
use nest_quickfix.Prelude.{ℕ, ◌+◌, ◌≤◌, ◌≡◌, refl, ◌∙◌, arith}
use nest_quickfix.Text.{Text}
use nest_quickfix.World.{World, Session, SessionConfig}
use nest_quickfix.World.Store.{put_session}
use nest_quickfix.Session.{new_session}
use nest_quickfix.Session.Registry.{remove_session, remove_found}
use nest_quickfix.Session.Stable.{Succeeds}
use nest_quickfix.Session.Bonds.{update_part}
use nest_quickfix.Manager.{register}
use nest_quickfix.Server.Open.{IsOpen}
use nest_quickfix.Server.Always.{IsTameServer, Reach-after}
use nest_quickfix.Server.{Server, Reach}

-- A session that was made has this id and this socket, and a next sequence number of `n` or more.
record IsLasting (r : ℕ) (id : Text) (k n : ℕ) (w : World) : Type 0 where
  pub made : r + 1 ≤ w.next_object
  pub named : (w.objects r).session_id ≡ id
  pub bound : (w.objects r).socket ≡ k
  pub seq : n ≤ (w.objects r).next_outgoing_seq_num

module _ (r : ℕ) (id : Text) (k n : ℕ) where
  -- A world with the same sessions.
  same-IsLasting :
      (w u : World)
      → u.objects ≡ w.objects
      → u.next_object ≡ w.next_object
      → IsLasting r id k n w
      → IsLasting r id k n u
  same-IsLasting w u o e h = record {
    made = rw e h.made;
    named = rw o h.named;
    bound = rw o h.bound;
    seq = rw o h.seq;
  }

  put-IsLasting :
      (q : ℕ) (s : Session) (w : World)
      → Succeeds s (w.objects q)
      → IsLasting r id k n w
      → IsLasting r id k n (put_session q s w)
  put-IsLasting q s w p h = record {
    made = h.made;
    named = update_part w.objects q r s (λ t. t.session_id) p.id ∙ h.named;
    bound = update_part w.objects q r s (λ t. t.socket) p.socket ∙ h.bound;
    seq = ground (arith, p.seq, h.seq);
  }

  removed-IsLasting :
      (t : Text) (w : World) → IsLasting r id k n w → IsLasting r id k n (remove_session t w)
  unfolding remove_session remove_found
  removed-IsLasting t w h = record {
    made = ground (arith, h.made);
    named = ground (arith, h.named);
    bound = ground (arith, h.bound);
    seq = ground (arith, h.seq);
  }

  created-IsLasting :
      (config : SessionConfig) (j : ℕ) (w : World)
      → IsLasting r id k n w
      → IsLasting r id k n (new_session config j w).1
  unfolding new_session
  created-IsLasting config j w h = record {
    made = ground (arith, h.made);
    named = ground (arith, h.made, h.named);
    bound = ground (arith, h.made, h.bound);
    seq = ground (arith, h.made, h.seq);
  }

  IsLasting-IsOpen : IsOpen (IsLasting r id k n)
  unfolding register
  IsLasting-IsOpen = record {
    stable = record {
      put = put-IsLasting;
      socket = λ j s w h. same-IsLasting w _ refl refl h;
      log = λ e w h. same-IsLasting w _ refl refl h;
      remove = removed-IsLasting;
      entered = λ room t w h. same-IsLasting w _ refl refl h;
      exited = λ room t w h. same-IsLasting w _ refl refl h;
    };
    create = created-IsLasting;
    enrolled = λ t q w known room h. same-IsLasting w _ refl refl h;
    cleared = λ w h. same-IsLasting w _ refl refl h;
    active = λ m w h. same-IsLasting w _ refl refl h;
    clock = λ now date w h. same-IsLasting w _ refl refl h;
  }

-- If the application's functions do to the world only what the methods of sessions do, a session that
-- was made keeps its id and its socket in every world that the server reaches, and its next outgoing
-- sequence number never goes back.
pub next_outgoing_seq_num-Reach :
    (server : Server) (w u : World) (r : ℕ)
    → IsTameServer server
    → r + 1 ≤ w.next_object
    → Reach server w u
    → ((w.objects r).next_outgoing_seq_num ≤ (u.objects r).next_outgoing_seq_num)
      × ((u.objects r).session_id ≡ (w.objects r).session_id)
      × ((u.objects r).socket ≡ (w.objects r).socket)
next_outgoing_seq_num-Reach server w u r tame made reach =
    let s = w.objects r in
    let lasting =
      Reach-after (IsLasting-IsOpen r s.session_id s.socket s.next_outgoing_seq_num) tame reach
        (record { made = made; named = refl; bound = refl; seq = omega arith }) in
    (lasting.seq, lasting.named, lasting.bound)
