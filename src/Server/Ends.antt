-- ===== src/Server/Ends.antt =====
-- src/acceptor/acceptor.ts: what the start, the end of a connection and the end of the server keep.
use nest_quickfix.Prelude.{ℕ, false, Option, none, some, List, [], ◌∷◌, nat_eq}
use nest_quickfix.Text.{Text, text_Eq}
use nest_quickfix.Result.{Error}
use nest_quickfix.OrderedMap
use nest_quickfix.World.{World, Listener, attached, closing}
use nest_quickfix.World.Exec.{modify}
use nest_quickfix.World.Exec.Keeps.{
  Keeps, keeps_rules, Keeps-bind, Keeps-pure, Keeps-gets, Keeps-if,
}
use nest_quickfix.Session.{App}
use nest_quickfix.Session.Registry.{remove_session}
use nest_quickfix.Session.Stable.{note-Keeps, put_socket-Keeps, handle_disconnect-Keeps}
use nest_quickfix.Metadata.{FixMetadata}
use nest_quickfix.Acceptor.Guard.{AcceptorConfig}
use nest_quickfix.Acceptor.{
  start, end_session, cleanup_each, cleanup_socket_sessions, hear_close, hear_each, close,
  destroy_each, close_all_sockets, stop,
}
use nest_quickfix.Server.Open.{IsOpen, IsTame, close_all-Keeps}
use nest_quickfix.Server.Checks.{destroy-Keeps}

module _ {I : World → Type 0} (opened : IsOpen I) where
  pub start-Keeps : (x : Option Error) → Keeps I (start x)
  unfolding start
  start-Keeps none = note-Keeps opened.stable _
  start-Keeps (some e) = search (keeps_rules, note-Keeps opened.stable) depth 12

  destroy_each-Keeps :
      (app : App) (config : AcceptorConfig) (metadata : List FixMetadata) (ks : List ℕ)
      → Keeps I (destroy_each app config metadata ks)
  unfolding destroy_each
  destroy_each-Keeps app config metadata [] = search keeps_rules
  destroy_each-Keeps app config metadata (k ∷ ks) =
      Keeps-bind _ _ (destroy-Keeps opened.stable k)
        (λ _. destroy_each-Keeps app config metadata ks)

  active-Keeps :
      (f : OrderedMap.OrderedMap Text ℕ → OrderedMap.OrderedMap Text ℕ)
      → Keeps I (modify (λ w. record w { active_sockets = f w.active_sockets }))
  unfolding modify
  active-Keeps f = record { after = λ w h. opened.active _ w h }

  close_all_sockets-Keeps :
      (app : App) (config : AcceptorConfig) (metadata : List FixMetadata)
      → Keeps I (close_all_sockets app config metadata)
  unfolding close_all_sockets
  close_all_sockets-Keeps app config metadata =
      Keeps-bind _ _ (Keeps-gets _) λ ks.
        Keeps-bind _ _ (destroy_each-Keeps app config metadata ks) (λ _. active-Keeps (λ _. []))

  forget-Keeps : (r : ℕ) → Keeps I (modify (λ w. remove_session (w.objects r).session_id w))
  unfolding modify
  forget-Keeps r = record { after = λ w h. opened.stable.remove (w.objects r).session_id w h }

  module _ (app : App) (config : AcceptorConfig) (metadata : List FixMetadata)
      (tame : IsTame app) where
    end_session-Keeps : (r : ℕ) → Keeps I (end_session app config metadata r)
    unfolding end_session
    end_session-Keeps r =
        Keeps-bind _ _ (handle_disconnect-Keeps opened.stable app (tame I opened.stable) r)
          (λ _. forget-Keeps r)

    cleanup_each-Keeps : (k : ℕ) (refs : List ℕ) → Keeps I (cleanup_each app config metadata k refs)
    unfolding cleanup_each
    cleanup_each-Keeps k [] = search keeps_rules
    cleanup_each-Keeps k (r ∷ refs) = Keeps-bind _ _ (Keeps-gets _) λ socket.
        Keeps-bind _ _ (Keeps-if (nat_eq socket k) _ _ (end_session-Keeps r) (Keeps-pure tt))
          (λ _. cleanup_each-Keeps k refs)

    cleanup_socket_sessions-Keeps :
        (k : ℕ) → Keeps I (cleanup_socket_sessions app config metadata k)
    unfolding cleanup_socket_sessions
    cleanup_socket_sessions-Keeps k = search (keeps_rules, cleanup_each-Keeps) depth 12

    hear_close-Keeps : (k : ℕ) (l : Listener) → Keeps I (hear_close app config metadata k l)
    unfolding hear_close
    hear_close-Keeps k (attached address) =
        Keeps-bind _ _ (active-Keeps (λ m. OrderedMap.delete m address))
          (λ _. cleanup_socket_sessions-Keeps k)
    hear_close-Keeps k (closing r) = end_session-Keeps r

    hear_each-Keeps : (k : ℕ) (ls : List Listener) → Keeps I (hear_each app config metadata k ls)
    unfolding hear_each
    hear_each-Keeps k [] = search keeps_rules
    hear_each-Keeps k (l ∷ ls) = Keeps-bind _ _ (hear_close-Keeps k l) (λ _. hear_each-Keeps k ls)

    pub close-Keeps : (k : ℕ) → Keeps I (close app config metadata k)
    unfolding close
    close-Keeps k =
        Keeps-bind _ _ (put_socket-Keeps opened.stable k (λ s. record s { writable = false }))
          λ _. Keeps-bind _ _ (Keeps-gets _) (λ ls. hear_each-Keeps k ls)

    pub stop-Keeps : Keeps I (stop app config metadata)
    unfolding stop
    stop-Keeps = Keeps-bind _ _ (close_all-Keeps opened app tame) λ _.
        Keeps-bind _ _ (close_all_sockets-Keeps app config metadata)
          (λ _. note-Keeps opened.stable _)
