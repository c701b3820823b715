-- ===== src/Notifier/Wired.antt =====
-- What the injector makes of NotifyServerModule: the server, and a handler for each request.
use guicpp.Base.{
  if◌then◌else◌, length, ℕ, ℕ_discrete, suc, ◌≡◌, refl, List, [], ◌∷◌, ◌++◌, Bool, true, false,
  none, some,
}
use guicpp.CType.{CType-discrete, named, ptr, plain, scope_setup_context}
use guicpp.Annotations
use guicpp.Annotations.{empty_annotations, normal_inject, not_labelled, Label, user_label}
use guicpp.Entries.{
  TypeId, label_helper, TypeId-discrete, BindType-discrete, Entry, bind_to_type_entry,
  pointer_table_entry, value_table_entry, bind_to_provider_entry, cleanup_entry,
}
use guicpp.Values.{
  Pointer, null, the_injector, object, factory_object, Value, pointer, plain as plain_value,
  lazy_singleton, user_provider, delete_pointer, invoke_cleanup,
}
use guicpp.CType.{CType}
use guicpp.Outcome.{Outcome, ok}
use guicpp.Table.{BindTable}
use guicpp.LocalContext.{empty_context}
use guicpp.Scope.{lock, unlock}
use guicpp.Scope.State.{Store, Event, constructed, provided}
use guicpp.Injector.Ownership.{context_entry}
use guicpp.Inject.Parameters.{Compiler}
use guicpp.Inject.Run.{factory_get}
use guicpp.Notifier.Wiring.{
  get_server, notify_server, notify_request_dispatcher, logger, notify_request_handler,
  simple_http_server, sms_sender, real_sms_sender, email_sender, notifier, email_notifier,
  sms_notifier, contact_list, int, email_instance, notifier_program,
}

-- A compiler with RTTI that passes on the value where InvokeGet has no return statement, and
-- evaluates the arguments of a call from the left or from the right.
abbrev pub compiler : Bool → Compiler
compiler left_to_right = record {
  rtti = true;
  earlier = λ es xs. if left_to_right then 0 else length xs;
  flow_off_end = some;
}

-- A class bound with a label to another one.
abbrev pub to_type : Label → CType → CType → TypeId × Entry
to_type l t d = (
  label_helper normal_inject l t,
  bind_to_type_entry (ptr plain t) empty_annotations (ptr plain d),
)

-- The entries of NotifyServerModule, between those of the wrapper.
abbrev pub module_entries : ℕ → Pointer → List (TypeId × Entry)
module_entries port contacts =
    to_type not_labelled sms_sender real_sms_sender
    ∷ to_type (user_label 1) notifier sms_notifier
    ∷ to_type (user_label 2) notifier email_notifier
    ∷ (label_helper normal_inject (user_label 0) int, value_table_entry int (plain_value port))
    ∷ (
      label_helper normal_inject not_labelled contact_list,
      pointer_table_entry (ptr plain contact_list) contacts delete_pointer,
    )
    ∷ (
      label_helper normal_inject not_labelled real_sms_sender,
      bind_to_provider_entry (ptr plain real_sms_sender) (lazy_singleton 0 real_sms_sender)
          delete_pointer,
    )
    ∷ (
      label_helper normal_inject not_labelled email_sender,
      bind_to_provider_entry (ptr plain email_sender) (user_provider 0) delete_pointer,
    )
    ∷ []

abbrev pub entries_of : List (TypeId × Entry) → List Entry
entries_of [] = []
entries_of (p ∷ ps) = p.1 ∷ entries_of ps

abbrev pub server_table : ℕ → Pointer → BindTable Entry
server_table port contacts = record {
  bind_map =
      (label_helper normal_inject not_labelled (named plain scope_setup_context), context_entry)
      ∷ module_entries port contacts;
  cleanup_list =
      context_entry
      ∷ (entries_of (module_entries port contacts) ++ cleanup_entry invoke_cleanup ∷ []);
}

-- The store before the RealSmsSender was made, and behind that, with the sender at `p`.
abbrev pub before_sender : ℕ → List Event → Store
before_sender n es = record {
  next_object = n;
  events = es;
  providers =
      record { called = false; injector = the_injector; object = null; is_deleted = false } ∷ [];
  context = some (record {
    injector = the_injector;
    init_list = 0 ∷ [];
    locked = false;
    cleanup_list = none ∷ [];
    cleanup_list_size = 0;
  });
}

abbrev pub with_sender : ℕ → Pointer → List Event → Store
with_sender n p es = record {
  next_object = n;
  events = es;
  providers =
      record { called = true; injector = the_injector; object = p; is_deleted = false } ∷ [];
  context = some (record {
    injector = the_injector;
    init_list = 0 ∷ [];
    locked = false;
    cleanup_list = some 0 ∷ [];
    cleanup_list_size = 1;
  });
}

abbrev pub made : ℕ → Value
made n = pointer (object n)

-- The server's events: the SimpleHttpServer is object `h`, the dispatcher `d`.
abbrev pub server_event : ℕ → ℕ → ℕ → Event
server_event port h d = constructed 2 notify_server (made h ∷ made d ∷ plain_value port ∷ [])

abbrev pub dispatcher_event : ℕ → Event
dispatcher_event d =
    constructed d notify_request_dispatcher (pointer (factory_object empty_annotations 0) ∷ [])

abbrev pub server_events : Bool → ℕ → List Event
server_events true port =
    server_event port 0 1 ∷ dispatcher_event 1 ∷ constructed 0 simple_http_server [] ∷ []
server_events false port =
    server_event port 1 0 ∷ constructed 1 simple_http_server [] ∷ dispatcher_event 0 ∷ []

pub get_server-eq-ok :
    (b : Bool) (port : ℕ) (contacts : Pointer)
    → get_server (compiler b) port contacts
      ≡ ok (
        record {
          table = server_table port contacts;
          store = before_sender 3 (server_events b port);
        },
        made 2,
      )
unfolding get_server TypeId-discrete CType-discrete ℕ_discrete BindType-discrete empty_annotations
    empty_context Annotations.entries lock unlock
get_server-eq-ok true port contacts = refl
get_server-eq-ok false port contacts = refl

module _ (contacts : Pointer) where
  abbrev pub handler_event : Pointer → ℕ → ℕ → ℕ → ℕ → Event
  handler_event request n high low log =
      constructed n notify_request_handler (pointer request ∷ made high ∷ made low ∷ made log ∷ [])

  abbrev pub sms_event : ℕ → Pointer → Event
  sms_event n sender = constructed n sms_notifier (pointer contacts ∷ pointer sender ∷ [])

  abbrev pub email_event : ℕ → Event
  email_event n = constructed n email_notifier (pointer contacts ∷ pointer email_instance ∷ [])

  abbrev pub logger_event : Pointer → ℕ → Event
  logger_event request n = constructed n logger (pointer request ∷ [])

  -- What a handler's making logs, newest first, from the object number `n` on.
  abbrev pub later_events : Bool → ℕ → Pointer → Pointer → List Event → List Event
  later_events true n p r es =
      handler_event r (suc (suc (suc n))) n (suc n) (suc (suc n))
      ∷ logger_event r (suc (suc n))
      ∷ email_event (suc n)
      ∷ provided 0 []
      ∷ sms_event n p
      ∷ es
  later_events false n p r es =
      handler_event r (suc (suc (suc n))) (suc (suc n)) (suc n) n
      ∷ sms_event (suc (suc n)) p
      ∷ email_event (suc n)
      ∷ provided 0 []
      ∷ logger_event r n
      ∷ es

  -- The same with the making of the RealSmsSender in it.
  abbrev pub first_events : Bool → ℕ → Pointer → List Event → List Event
  first_events true n r es =
      later_events true (suc n) (object n) r (constructed n real_sms_sender [] ∷ es)
  first_events false n r es =
      handler_event r (suc (suc (suc (suc n)))) (suc (suc (suc n))) (suc n) n
      ∷ sms_event (suc (suc (suc n))) (object (suc (suc n)))
      ∷ constructed (suc (suc n)) real_sms_sender []
      ∷ email_event (suc n)
      ∷ provided 0 []
      ∷ logger_event r n
      ∷ es

  abbrev pub sender_at : Bool → ℕ → Pointer
  sender_at true n = object n
  sender_at false n = object (suc (suc n))

  module _ (port : ℕ) where
    abbrev pub make : Bool → Pointer → Store → Outcome (Value × Store)
    make b r s =
        factory_get (compiler b) notifier_program (server_table port contacts) 9 empty_annotations 0
          (pointer r ∷ []) s

    pub first_handler :
        (b : Bool) (n : ℕ) (es : List Event) (r : Pointer)
        → make b r (before_sender n es)
          ≡ ok (
            made (suc (suc (suc (suc n)))),
            with_sender (suc (suc (suc (suc (suc n))))) (sender_at b n) (first_events b n r es),
          )
    unfolding factory_get notifier_program TypeId-discrete CType-discrete ℕ_discrete
        BindType-discrete empty_annotations empty_context Annotations.entries lock unlock
    first_handler true n es r = refl
    first_handler false n es r = refl

    pub later_handler :
        (b : Bool) (n : ℕ) (p : Pointer) (es : List Event) (r : Pointer)
        → make b r (with_sender n p es)
          ≡ ok (
            made (suc (suc (suc n))),
            with_sender (suc (suc (suc (suc n)))) p (later_events b n p r es),
          )
    unfolding factory_get notifier_program TypeId-discrete CType-discrete ℕ_discrete
        BindType-discrete empty_annotations empty_context Annotations.entries lock unlock
    later_handler true n p es r = refl
    later_handler false n p es r = refl
