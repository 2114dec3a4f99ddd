-- ===== src/Wiring/Started.antt =====
-- What the application has got when it has started.
use nest_quickfix.Prelude.{
  Bool, true, false, ◌≡◌, refl, Option, none, some, List, [], ◌∷◌, ◌==◌, if◌then◌else◌,
}
use nest_quickfix.Text.{text, text_Eq}
use nest_quickfix.World.{World, Handler}
use nest_quickfix.Manager.{get_all_sessions}
use nest_quickfix.Metadata.{FixMetadata}
use nest_quickfix.Wiring.{
  FixConfig, ConfigStorage, AcceptorParts, FixModule, empty_storage, store_acceptor_config,
  store_initiator_config, create_acceptor, create_initiator, register_meta, register_logon_handlers,
  handlers_if, on_application_bootstrap,
}

register_meta_none :
    (h : Option Handler) (w : World) → get_all_sessions w ≡ [] → register_meta h w ≡ w
register_meta_none none w e = refl
register_meta_none (some h) w e = rw e refl

register_logon_handlers_none :
    (metas : List FixMetadata) (w : World)
    → get_all_sessions w ≡ []
    → register_logon_handlers metas w ≡ w
unfolding register_logon_handlers
register_logon_handlers_none [] w e = refl
register_logon_handlers_none (meta ∷ metas) w e =
    rw (register_meta_none meta.on_logon_handler w e) (register_logon_handlers_none metas w e)

module _ {C D R : Type 0} where
  -- The two factories have run, that of the acceptor first or last; `more` are the settings with the
  -- authentication and the sessions of the options, which the acceptor alone is given.
  abbrev pub stored : Bool → FixConfig C → C → D → R → ConfigStorage C D R
  stored true config more d r = store_initiator_config config r (
      store_acceptor_config (record config { settings = more })
        (record { dependencies = some d; room_manager = some r }) empty_storage)
  stored false config more d r =
      store_acceptor_config (record config { settings = more })
        (record { dependencies = some d; room_manager = some r })
        (store_initiator_config config r empty_storage)

  abbrev pub registered_module : Bool → FixConfig C → C → D → R → FixModule C D R
  registered_module first config more d r = record {
    acceptor = none;
    initiator = none;
    storage = stored first config more d r;
  }

  -- The module of an application that has started.
  abbrev pub started_module : FixConfig C → C → D → R → FixModule C D R
  started_module config more d r = record {
    acceptor =
        if config.app_type == text "acceptor"
        then some (record {
          config = record config { settings = more };
          providers = record { dependencies = some d; room_manager = some r };
        })
        else none;
    initiator =
        if config.app_type == text "initiator"
        then some (record { config = config; room_manager = some r })
        else none;
    storage = empty_storage;
  }

handlers_none :
    {C D R : Type 0} (a : Option (AcceptorParts C D R)) (metas : List FixMetadata) (w : World)
    → get_all_sessions w ≡ []
    → handlers_if a metas w ≡ w
handlers_none none metas w e = refl
handlers_none (some a) metas w e = register_logon_handlers_none metas w e

-- Whichever of the two factories the framework runs first: if no session is registered yet when the
-- application has started, it has an acceptor exactly if it is of type `acceptor`, an initiator
-- exactly if it is of type `initiator`, each made of its configuration and of what was injected; the
-- storage is empty again, and no session has got a handler.
pub on_application_bootstrap_lem :
    {C D R : Type 0} (first : Bool) (config : FixConfig C) (more : C) (d : D) (r : R)
    (metas : List FixMetadata) (w : World)
    → get_all_sessions w ≡ []
    → on_application_bootstrap metas (registered_module first config more d r) w
      ≡ (started_module config more d r, w)
unfolding on_application_bootstrap create_acceptor create_initiator store_acceptor_config
    store_initiator_config
on_application_bootstrap_lem true config more d r metas w e = rw (handlers_none _ metas w e) refl
on_application_bootstrap_lem false config more d r metas w e = rw (handlers_none _ metas w e) refl
