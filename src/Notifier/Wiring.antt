-- ===== src/Notifier/Wiring.antt =====
-- How the notifier is put together: the inject macros of examples/notifier (nfe_guicpp.h,
-- nfe_server.h, nfe_request_handler.h, messengers/notifiers.h and message_sender.h), and
-- NotifyServerModule and EmailSenderProvider of notifier_frontend/nfe_module.cc.
use guicpp.Base.{ℕ, List, [], ◌∷◌, none, some, get_elem?}
use guicpp.CType.{CType, TypeName, user_class, primitive, factory, named, ptr, plain, const}
use guicpp.Annotations.{
  Annotation, not_annotated, at, label, user_label, inject, assisted, empty_annotations,
}
use guicpp.Values.{Pointer, user_object, Value, pointer, plain as plain_value, delete_pointer}
use guicpp.Outcome.{Outcome, ok, and_then, Action, pure, ◌>>=◌}
use guicpp.Table.{BindTable}
use guicpp.Entries.{Entry}
use guicpp.Scope.State.{Store}
use guicpp.Inject.Parameters.{
  Compiler, Program, DefaultEntry, not_injectable, inject_ctor, injectable,
}
use guicpp.Inject.Run.{injector_get, factory_get}
use guicpp.Binder.{
  Module, done, then_call, binds, binds_to_value, binds_to_instance, binds_to_scope,
  binds_to_provider,
}
use guicpp.Injector.{Injector, create_injector}

-- The classes, in the order of `macros`.
abbrev pub notify_server : CType
notify_server = named plain (user_class 0)

abbrev pub notify_request_dispatcher : CType
notify_request_dispatcher = named plain (user_class 1)

abbrev pub logger : CType
logger = named plain (user_class 2)

abbrev pub notify_request_handler : CType
notify_request_handler = named plain (user_class 3)

abbrev pub simple_http_server : CType
simple_http_server = named plain (user_class 4)

abbrev pub http_request : CType
http_request = named plain (user_class 5)

abbrev pub sms_sender : CType
sms_sender = named plain (user_class 6)

abbrev pub real_sms_sender : CType
real_sms_sender = named plain (user_class 7)

abbrev pub email_sender : CType
email_sender = named plain (user_class 8)

abbrev pub notifier : CType
notifier = named plain (user_class 9)

abbrev pub email_notifier : CType
email_notifier = named plain (user_class 10)

abbrev pub sms_notifier : CType
sms_notifier = named plain (user_class 11)

abbrev pub contact_list : CType
contact_list = named plain (user_class 12)

-- NotifyRequestHandlerFactory
abbrev pub request_handler_factory : CType
request_handler_factory = named plain (factory 0)

abbrev pub int : CType
int = named plain (primitive 0)

abbrev pub port_number_label : Annotation
port_number_label = label (user_label 0)

abbrev pub high_priority_notifier_label : Annotation
high_priority_notifier_label = label (user_label 1)

abbrev pub low_priority_notifier_label : Annotation
low_priority_notifier_label = label (user_label 2)

-- The inject macros.
abbrev notify_server_macro : DefaultEntry
notify_server_macro = inject_ctor (
    not_annotated (ptr plain simple_http_server)
    ∷ not_annotated (ptr plain notify_request_dispatcher)
    ∷ at port_number_label int
    ∷ [])

abbrev dispatcher_macro : DefaultEntry
dispatcher_macro = inject_ctor (not_annotated (ptr plain request_handler_factory) ∷ [])

abbrev logger_macro : DefaultEntry
logger_macro = inject_ctor (at (inject assisted) (ptr plain http_request) ∷ [])

abbrev request_handler_macro : DefaultEntry
request_handler_macro = inject_ctor (
    at (inject assisted) (ptr plain http_request)
    ∷ at high_priority_notifier_label (ptr plain notifier)
    ∷ at low_priority_notifier_label (ptr plain notifier)
    ∷ not_annotated (ptr plain logger)
    ∷ [])

abbrev simple_http_server_macro : DefaultEntry
simple_http_server_macro = inject_ctor []

abbrev http_request_macro : DefaultEntry
http_request_macro = injectable

abbrev sms_sender_macro : DefaultEntry
sms_sender_macro = injectable

abbrev real_sms_sender_macro : DefaultEntry
real_sms_sender_macro = inject_ctor []

abbrev email_sender_macro : DefaultEntry
email_sender_macro = injectable

abbrev notifier_macro : DefaultEntry
notifier_macro = injectable

abbrev email_notifier_macro : DefaultEntry
email_notifier_macro =
    inject_ctor
      (not_annotated (ptr plain contact_list) ∷ not_annotated (ptr plain email_sender) ∷ [])

abbrev sms_notifier_macro : DefaultEntry
sms_notifier_macro = inject_ctor (
    not_annotated (ptr plain contact_list)
    ∷ not_annotated (ptr plain (named const (user_class 6)))
    ∷ [])

abbrev contact_list_macro : DefaultEntry
contact_list_macro = injectable

-- The macro of each class, in the order of their numbers.
unfoldable pub macros : List DefaultEntry
macros =
    notify_server_macro ∷ dispatcher_macro ∷ logger_macro ∷ request_handler_macro
    ∷ simple_http_server_macro ∷ http_request_macro ∷ sms_sender_macro ∷ real_sms_sender_macro
    ∷ email_sender_macro ∷ notifier_macro ∷ email_notifier_macro ∷ sms_notifier_macro
    ∷ contact_list_macro ∷ []

-- EmailSender::singlton_, to which EmailSender::GetInstance returns the pointer.
abbrev pub email_instance : Pointer
email_instance = user_object 0

-- The classes with their macros, EmailSenderProvider::Get and NotifyRequestHandlerFactory.
unfoldable pub notifier_program : Program
unfolding macros
notifier_program = record {
  default_entry = λ n. by n;
  provider_args = λ n. [];
  provider_get = λ n vs es. pointer email_instance;
  factory_return = λ n. ptr plain notify_request_handler;
  factory_args = λ n. not_annotated (ptr plain http_request) ∷ [];
}
  where
    by : TypeName → DefaultEntry
    by (user_class n) = elim (get_elem? macros n) [ none ↦ not_injectable | some d ↦ d ]
    by _ = not_injectable

-- NotifyServerModule::Configure with port_, and with what ContactList::Load returned.
unfoldable pub notify_server_module : ℕ → Pointer → Module
notify_server_module port contacts =
    then_call (binds (not_annotated sms_sender) (not_annotated real_sms_sender)) (
      then_call (binds (at high_priority_notifier_label notifier) (not_annotated sms_notifier)) (
        then_call (binds (at low_priority_notifier_label notifier) (not_annotated email_notifier)) (
          then_call (binds_to_value (at port_number_label int) (plain_value port)) (
            then_call (binds_to_instance (not_annotated contact_list) contacts delete_pointer) (
              then_call (binds_to_scope (not_annotated real_sms_sender)) (
                then_call (binds_to_provider (not_annotated email_sender) 0 delete_pointer)
                  done))))))

-- main of nfe_main.cc up to the server: CreateInjector and Get<NotifyServer*>.
unfoldable pub get_server : Compiler → ℕ → Pointer → Outcome (Injector × Value)
unfolding create_injector injector_get notify_server_module notifier_program
get_server k port contacts =
    and_then (create_injector k.rtti (notify_server_module port contacts)) λ i.
      and_then
        (injector_get k notifier_program i.table 9 (not_annotated (ptr plain notify_server))
          i.store)
        λ r. ok (record i { store = r.1 }, r.0)

-- req_handler_factory_->Get(request), for one request after the other.
unfoldable pub get_handlers : Compiler → BindTable Entry → List Pointer → Action Store (List Value)
unfolding factory_get notifier_program
get_handlers k table [] = pure []
get_handlers k table (request ∷ rs) =
    factory_get k notifier_program table 9 empty_annotations 0 (pointer request ∷ []) >>= λ h.
    get_handlers k table rs >>= λ hs. pure (h ∷ hs)
