-- ===== src/Metadata/Found.antt =====
-- Which methods of the application a new session calls.
use nest_quickfix.Prelude.{
  ◌≡◌, refl, sym, ap, ◌∙◌, append-nil, append_assoc, Bool, true, false, ◌||◌, ◌&&◌, Option, List,
  [], ◌∷◌, ◌++◌, ◌==◌, nat_Eq, arith, Bool-cases, inl, inr, if◌then◌else◌, ℕ,
}
use nest_quickfix.OrderedSet.{contains}
use nest_quickfix.World.{World, Handler, Handlers, MessageHandler}
use nest_quickfix.Metadata.{
  only_if, Marks, Method, extract_method_metadata, has_keys, extract_from_methods,
  extract_from_instances, instances_of, explore,
}
use nest_quickfix.Metadata.Setup.{
  with_method, with_methods, messages_given, handlers_of, setup_session_handlers, handlers-setup,
}

-- The methods of all instances.
abbrev pub methods_of : List (List Method) → List Method
methods_of [] = []
methods_of (ms ∷ rest) = ms ++ methods_of rest

extract_from_methods-append :
    (xs ys : List Method)
    → extract_from_methods (xs ++ ys) ≡ extract_from_methods xs ++ extract_from_methods ys
unfolding extract_from_methods
extract_from_methods-append [] ys = refl
extract_from_methods-append (x ∷ xs) ys = ground (arith, extract_from_methods-append xs ys)

extract_from_instances_lem :
    (is : List (List Method)) → extract_from_instances is ≡ extract_from_methods (methods_of is)
unfolding extract_from_instances extract_from_methods
extract_from_instances_lem [] = refl
extract_from_instances_lem (ms ∷ is) =
    ap (λ l. extract_from_methods ms ++ l) (extract_from_instances_lem is)
    ∙ sym (extract_from_methods-append ms (methods_of is))

-- A method without a mark is passed over, which makes no difference.
with_method_unmarked :
    (m : Method) (hs : Handlers)
    → has_keys (extract_method_metadata m) ≡ false
    → with_method (extract_method_metadata m) hs ≡ hs
unfolding has_keys extract_method_metadata
with_method_unmarked m hs h = ground (arith, append-nil hs.message)

with_methods-extract :
    (m : Method) (ms : List Method) (hs : Handlers)
    → with_methods (extract_from_methods (m ∷ ms)) hs
      ≡ with_methods (extract_from_methods ms) (with_method (extract_method_metadata m) hs)
unfolding extract_from_methods
with_methods-extract m ms hs = elim (Bool-cases (has_keys (extract_method_metadata m))) [
  | inl e ↦ rw e refl
  | inr e ↦ rw (e, with_method_unmarked m hs e) refl
]

-- The method `h` is among the methods and has the mark.
abbrev pub is_marked : (Marks → Bool) → Handler → List Method → Bool
is_marked mark h [] = false
is_marked mark h (m ∷ ms) = mark m.marks && m.handler == h || is_marked mark h ms

-- The methods that want messages, in their order.
abbrev pub message_methods : List Method → List MessageHandler
message_methods [] = []
message_methods (m ∷ ms) =
    (if m.marks.message
      then record { handler = m.handler; msg_type = m.marks.message_type } ∷ []
      else [])
    ++ message_methods ms

message-with_methods :
    (ms : List Method) (hs : Handlers)
    → (with_methods (extract_from_methods ms) hs).message ≡ hs.message ++ message_methods ms
unfolding extract_method_metadata
message-with_methods [] hs = unfold extract_from_methods in sym (append-nil hs.message)
message-with_methods (m ∷ ms) hs =
    ap (λ x. x.message) (with_methods-extract m ms hs)
    ∙ message-with_methods ms (with_method (extract_method_metadata m) hs)
    ∙ regroup m.marks.message
  where
    regroup :
        (b : Bool)
        → (hs.message ++ messages_given (only_if b (m.handler, m.marks.message_type)))
            ++ message_methods ms
          ≡ hs.message
            ++ ((if b
                  then record { handler = m.handler; msg_type = m.marks.message_type } ∷ []
                  else [])
                ++ message_methods ms)
    regroup true = append_assoc hs.message _ (message_methods ms)
    regroup false = append_assoc hs.message [] (message_methods ms)

-- All methods of the application.
abbrev pub application_methods :
    List (Option (List Method)) → List (Option (List Method)) → List Method
application_methods providers controllers = methods_of (instances_of (providers ++ controllers))

-- The four sets hold the function `h` afterwards if they held it before, or if it is one of the
-- methods with the mark of that set.
abbrev pub Gains : List Method → Handler → Handlers → Handlers → Type 0
Gains ms h before after =
    (contains after.logon h ≡ (contains before.logon h || is_marked (λ k. k.logon) h ms))
    × (contains after.logout h ≡ (contains before.logout h || is_marked (λ k. k.logout) h ms))
    × (contains after.connected h
        ≡ (contains before.connected h || is_marked (λ k. k.connected) h ms))
    × (contains after.disconnected h
        ≡ (contains before.disconnected h || is_marked (λ k. k.disconnected) h ms))

-- The methods that `OnFixMessage` marks are added behind the message handlers of the session, in
-- the order of the application, each with the type that its decorator names.
pub message-setup :
    (providers controllers : List (Option (List Method))) (ref : ℕ) (w : World)
    → (handlers_of ref (setup_session_handlers ref (explore providers controllers) w)).message
      ≡ (handlers_of ref w).message ++ message_methods (application_methods providers controllers)
unfolding explore
message-setup providers controllers ref w =
    rw
      (handlers-setup ref _ w, extract_from_instances_lem (instances_of (providers ++ controllers)))
      (message-with_methods (application_methods providers controllers) (handlers_of ref w))
