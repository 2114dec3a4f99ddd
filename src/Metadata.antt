-- ===== src/Metadata.antt =====
-- src/decorators/fix.decorators.ts and src/services/fix.metadata.explorer.ts: which methods of the
-- application are called on which event. The methods of an instance, and the instances that the
-- framework's `DiscoveryService` holds, are given; `Reflect` reads what the decorators have set.
pub mod Setup
pub mod Found
pub mod Only
use nest_quickfix.Prelude.{
  Bool, true, false, Option, none, some, List, [], ◌∷◌, ◌++◌, if◌then◌else◌,
}
use nest_quickfix.Text.{Text}
use nest_quickfix.World.{Handler}

-- What the decorators have set on a method, under the keys of `FIX_METADATA`.
pub record Marks : Type 0 where
  pub logon : Bool
  pub logout : Bool
  pub connected : Bool
  pub disconnected : Bool
  pub message : Bool
  pub message_type : Option Text

abbrev pub unmarked : Marks
unmarked = record {
  logon = false;
  logout = false;
  connected = false;
  disconnected = false;
  message = false;
  message_type = none;
}

-- The decorators `OnLogon`, `OnLogout`, `OnConnected` and `OnDisconnected`
abbrev pub on_logon : Marks → Marks
on_logon m = record m { logon = true }

abbrev pub on_logout : Marks → Marks
on_logout m = record m { logout = true }

abbrev pub on_connected : Marks → Marks
on_connected m = record m { connected = true }

abbrev pub on_disconnected : Marks → Marks
on_disconnected m = record m { disconnected = true }

-- `OnFixMessage(msgType)`: an empty type is as good as none.
abbrev pub on_fix_message : Option Text → Marks → Marks
on_fix_message none m = record m { message = true }
on_fix_message (some []) m = record m { message = true }
on_fix_message (some (c ∷ t)) m = record m { message = true; message_type = some (c ∷ t) }

-- A method, bound to its instance.
pub record Method : Type 0 where
  pub handler : Handler
  pub marks : Marks

-- `interface FixMetadata`
pub record FixMetadata : Type 0 where
  pub on_logon_handler : Option Handler
  pub on_logout_handler : Option Handler
  pub on_connected_handler : Option Handler
  pub on_disconnected_handler : Option Handler
  pub on_message_handler : Option (Handler × Option Text)

abbrev pub only_if {ℓ} : {A : Type ℓ} → Bool → A → Option A
only_if true a = some a
only_if false a = none

-- `extractMethodMetadata(instance, method)`
unfoldable pub extract_method_metadata : Method → FixMetadata
extract_method_metadata m = record {
  on_logon_handler = only_if m.marks.logon m.handler;
  on_logout_handler = only_if m.marks.logout m.handler;
  on_connected_handler = only_if m.marks.connected m.handler;
  on_disconnected_handler = only_if m.marks.disconnected m.handler;
  on_message_handler = only_if m.marks.message (m.handler, m.marks.message_type);
}

abbrev is_some {ℓ} : {A : Type ℓ} → Option A → Bool
is_some none = false
is_some (some a) = true

-- `Object.keys(meta).length > 0`
unfoldable pub has_keys : FixMetadata → Bool
has_keys d =
    if is_some d.on_logon_handler
    then true
    else if is_some d.on_logout_handler
    then true
    else if is_some d.on_connected_handler
    then true
    else if is_some d.on_disconnected_handler
    then true
    else is_some d.on_message_handler

unfoldable pub extract_from_methods : List Method → List FixMetadata
unfolding extract_method_metadata has_keys
extract_from_methods [] = []
extract_from_methods (m ∷ ms) =
    let meta = extract_method_metadata m in
    let rest = extract_from_methods ms in if has_keys meta then meta ∷ rest else rest

-- `extractMetadataFromInstances(instances)`
unfoldable pub extract_from_instances : List (List Method) → List FixMetadata
unfolding extract_from_methods
extract_from_instances [] = []
extract_from_instances (ms ∷ rest) = extract_from_methods ms ++ extract_from_instances rest

-- `getAllInstances()`: the wrappers that hold an instance
unfoldable pub instances_of : List (Option (List Method)) → List (List Method)
instances_of [] = []
instances_of (none ∷ ws) = instances_of ws
instances_of (some ms ∷ ws) = ms ∷ instances_of ws

-- `explore()`
unfoldable pub explore :
    List (Option (List Method)) → List (Option (List Method)) → List FixMetadata
unfolding instances_of extract_from_instances
explore providers controllers = extract_from_instances (instances_of (providers ++ controllers))
