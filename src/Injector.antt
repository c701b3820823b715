-- ===== src/Injector.antt =====
-- Injector: include/guicpp/guicpp_injector.h and src/guicpp_injector.cc; CreateInjector and WrapperModule
-- of src/guicpp_tools.cc; the destructors of the entries in
-- include/guicpp/internal/guicpp_entries.h, which ~Injector runs through ~BindTable.
pub mod Ownership
pub mod Created
pub mod SetUp
pub mod Gets
pub mod Owned
pub mod Ended
pub mod Deletes
pub mod Lifecycle
pub mod Errors
use guicpp.Base.{List, [], ◌∷◌, none, some, Bool, true, ◌==◌, if◌then◌else◌}
use guicpp.CType.{named, plain, scope_setup_context}
use guicpp.Annotations.{not_annotated}
use guicpp.Values.{
  Pointer, null, scope_context, the_injector, provider_object, lazy_singleton, CleanupAction,
  delete_pointer, do_nothing, user_action, CleanupCall, invoke_cleanup, user_cleanup,
}
use guicpp.Entries.{
  Entry, pointer_table_entry, reference_table_entry, bind_to_provider_entry, cleanup_entry,
}
use guicpp.Outcome.{Outcome, ok, injector_errors, Action, pure, check, and_then, ◌>>=◌, ◌>>◌, fatal}
use guicpp.Table
use guicpp.Table.{BindTable}
use guicpp.Scope.{context_init, context_cleanup}
use guicpp.Scope.State.{
  Store, new_context, deleted, action_called, cleanup_called, record_event, get_context,
  get_provider, put_provider, is_null, delete_once,
}
use guicpp.Binder.{
  Binder, Module, done, then_call, binds_to_instance, installs, adds_cleanup_action, configure,
}

-- An injector: the bind table that it owns, and the store.
pub record Injector : Type 0 where
  pub table : BindTable Entry
  pub store : Store

-- Binder::Binder on the new, empty table
abbrev pub new_binder : Store → Binder
new_binder s = record { table = Table.empty; num_errors = 0; store = s }

-- Injector::Create
unfoldable pub injector_create : Bool → Module → Store → Outcome Injector
unfolding configure Table.empty
injector_create rtti m s = and_then (configure rtti m (new_binder s)) λ r.
    if r.1.num_errors == 0
    then ok (record { table = r.1.table; store = r.1.store })
    else fatal (injector_errors r.1.num_errors)

-- WrapperModule::Configure
unfoldable pub wrapper_module : Module → Module
wrapper_module m =
    then_call
      (binds_to_instance (not_annotated (named plain scope_setup_context)) scope_context
        delete_pointer)
      (then_call (installs m) (then_call (adds_cleanup_action invoke_cleanup) done))

-- A store before anything was made.
unfoldable pub empty_store : Store
empty_store = record { next_object = 0; events = []; providers = []; context = none }

-- guicpp::CreateInjector
unfoldable pub create_injector : Bool → Module → Outcome Injector
unfolding injector_create wrapper_module empty_store new_context context_init
create_injector rtti m =
    and_then
      (injector_create rtti (wrapper_module m) (record empty_store { context = some new_context }))
      λ i. and_then (context_init the_injector i.store) λ r. ok (record i { store = r.1 })

-- `delete p`. A LazySingletonProvider's destructor checks that its object is gone; the context's does
-- nothing but end it; another object ends once.
unfoldable pub delete_object : Pointer → Action Store (Unit {0})
unfolding record_event get_provider put_provider is_null get_context delete_once
delete_object null = pure tt
delete_object (provider_object (lazy_singleton i t)) = do
  p ← get_provider i
  check (is_null p.object)
  put_provider i (record p { is_deleted = true })
  record_event (deleted (provider_object (lazy_singleton i t)))
delete_object scope_context = do
  c ← get_context
  λ s. ok (tt, record s { context = none })
  record_event (deleted scope_context)
delete_object p = delete_once p

-- cleanup_action_(p): DeletePointer, DoNothing or the user's function.
unfoldable pub cleanup_action : CleanupAction → Pointer → Action Store (Unit {0})
unfolding delete_object record_event
cleanup_action delete_pointer p = delete_object p
cleanup_action do_nothing p = pure tt
cleanup_action (user_action n) p = record_event (action_called n p)

-- cleanup_action_() of a CleanupEntry: InvokeCleanup calls the context's Cleanup.
unfoldable pub cleanup_call : CleanupCall → Action Store (Unit {0})
unfolding context_cleanup record_event
cleanup_call invoke_cleanup = context_cleanup
cleanup_call (user_cleanup n) = record_event (cleanup_called n)

-- The destructor of each class of entry.
unfoldable pub delete_entry : Entry → Action Store (Unit {0})
unfolding cleanup_action cleanup_call
delete_entry (pointer_table_entry t p a) = cleanup_action a p
delete_entry (reference_table_entry t p a) = cleanup_action a p
delete_entry (bind_to_provider_entry t p a) = cleanup_action a (provider_object p)
delete_entry (cleanup_entry c) = cleanup_call c
delete_entry _ = pure tt

-- The loop of BindTable::~BindTable.
unfoldable pub delete_entries : List Entry → Action Store (Unit {0})
unfolding delete_entry
delete_entries [] = pure tt
delete_entries (e ∷ es) = delete_entry e >> delete_entries es

-- Injector::~Injector: scoped_ptr deletes the bind table.
unfoldable pub delete_injector : Injector → Outcome Store
unfolding Table.deletions delete_entries
delete_injector i = and_then (delete_entries (Table.deletions i.table) i.store) λ r. ok r.1
