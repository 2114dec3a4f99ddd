-- ===== src/Wiring.antt =====
-- src/fix.module.ts, `class FIXModule`: which part of the engine an application gets. The factories
-- of the providers store the configuration, in an order that the framework chooses; the parts are
-- made when the application has started. What the framework injects beside the room manager is
-- `dependencies`.
pub mod Started
use nest_quickfix.Prelude.{
  ℕ, Bool, true, false, Option, none, some, List, [], ◌∷◌, ◌==◌, if◌then◌else◌,
}
use nest_quickfix.Text.{Text, text, text_Eq}
use nest_quickfix.World.{World, Handler}
use nest_quickfix.Session.Registration.{register_logon_handler}
use nest_quickfix.Manager.{get_all_sessions}
use nest_quickfix.Metadata.{FixMetadata}

-- The configuration of the application, of which the module reads the type.
pub record FixConfig (C : Type 0) : Type 0 where
  pub app_type : Text
  pub settings : C

pub record Providers (D R : Type 0) : Type 0 where
  pub dependencies : Option D
  pub room_manager : Option R

-- `class ConfigStorage`
pub record ConfigStorage (C D R : Type 0) : Type 0 where
  pub acceptor_config : Option (FixConfig C)
  pub initiator_config : Option (FixConfig C)
  pub providers : Option (Providers D R)

-- What a `FIXAcceptor` and a `FIXInitiator` are made of; what they do is in Acceptor and Initiator.
pub record AcceptorParts (C D R : Type 0) : Type 0 where
  pub config : FixConfig C
  pub providers : Providers D R

pub record InitiatorParts (C R : Type 0) : Type 0 where
  pub config : FixConfig C
  pub room_manager : Option R

-- `class FIXModule`: its two parts, and the storage.
pub record FixModule (C D R : Type 0) : Type 0 where
  pub acceptor : Option (AcceptorParts C D R)
  pub initiator : Option (InitiatorParts C R)
  pub storage : ConfigStorage C D R

abbrev with_room_manager : {D R : Type 0} → Option (Providers D R) → R → Providers D R
with_room_manager none r = record { dependencies = none; room_manager = some r }
with_room_manager (some p) r = record p { room_manager = some r }

module _ {C D R : Type 0} where
  abbrev pub empty_storage : ConfigStorage C D R
  empty_storage = record { acceptor_config = none; initiator_config = none; providers = none }

  -- `storeAcceptorConfig(config, providers)`
  unfoldable pub store_acceptor_config :
      FixConfig C → Providers D R → ConfigStorage C D R → ConfigStorage C D R
  store_acceptor_config config providers s = record s {
    acceptor_config = some config;
    providers = some providers;
  }

  -- `storeInitiatorConfig(config, roomManager)`
  unfoldable pub store_initiator_config :
      FixConfig C → R → ConfigStorage C D R → ConfigStorage C D R
  store_initiator_config config r s = record s {
    initiator_config = some config;
    providers = some (with_room_manager s.providers r);
  }

  -- `createAcceptor(…)`
  unfoldable pub create_acceptor : FixConfig C → Providers D R → Option (AcceptorParts C D R)
  create_acceptor config providers =
      if config.app_type == text "acceptor"
      then some (record { config = config; providers = providers })
      else none

-- `createInitiator(config, roomManager)`
unfoldable pub create_initiator :
    {C R : Type 0} → FixConfig C → Option R → Option (InitiatorParts C R)
create_initiator config r =
    if config.app_type == text "initiator"
    then some (record { config = config; room_manager = r })
    else none

abbrev pub register_each : List ℕ → Handler → World → World
register_each [] h w = w
register_each (ref ∷ refs) h w = register_each refs h (register_logon_handler ref h w)

abbrev pub register_meta : Option Handler → World → World
register_meta none w = w
register_meta (some h) w = register_each (get_all_sessions w) h w

-- `registerLogonHandlers()`, where there is an acceptor
unfoldable pub register_logon_handlers : List FixMetadata → World → World
register_logon_handlers [] w = w
register_logon_handlers (meta ∷ metas) w =
    register_logon_handlers metas (register_meta meta.on_logon_handler w)

abbrev initiator_of :
    {C D R : Type 0}
    → Option (FixConfig C)
    → Providers D R
    → Option (InitiatorParts C R)
    → Option (InitiatorParts C R)
initiator_of none providers old = old
initiator_of (some config) providers old = create_initiator config providers.room_manager

module _ {C D R : Type 0} where
  abbrev pub handlers_if : Option (AcceptorParts C D R) → List FixMetadata → World → World
  handlers_if none metas w = w
  handlers_if (some a) metas w = register_logon_handlers metas w

  abbrev acceptor_of :
      Option (FixConfig C)
      → Providers D R
      → Option (AcceptorParts C D R)
      → Option (AcceptorParts C D R)
  acceptor_of none providers old = old
  acceptor_of (some config) providers old = create_acceptor config providers

  abbrev start_with :
      Option (Providers D R) → List FixMetadata → FixModule C D R → World → FixModule C D R × World
  start_with none metas m w = (m, w)
  start_with (some p) metas m w =
      let acceptor = acceptor_of m.storage.acceptor_config p m.acceptor in
      (
        record {
          acceptor = acceptor;
          initiator = initiator_of m.storage.initiator_config p m.initiator;
          storage = empty_storage;
        },
        handlers_if acceptor metas w,
      )

  -- `onApplicationBootstrap()`; `metas` is what `explore()` finds
  unfoldable pub on_application_bootstrap :
      List FixMetadata → FixModule C D R → World → FixModule C D R × World
  unfolding create_acceptor create_initiator register_logon_handlers
  on_application_bootstrap metas m w = start_with m.storage.providers metas m w
