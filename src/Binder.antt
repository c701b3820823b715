-- ===== src/Binder.antt =====
-- Binder: include/guicpp/guicpp_binder.h and src/guicpp_binder.cc; LazySingleton::ConfigureScope of
-- include/guicpp/guicpp_singleton.h; Module::Configure of include/guicpp/guicpp_module.h, whose body,
-- the user's, is a list of calls of the binder.
pub mod Extends
pub mod Registers
pub mod Keeps
pub mod Owns
pub mod Bindings
pub mod Covered
pub mod Recorded
pub mod Errors
use guicpp.Base.{ℕ, suc, [], ◌∷◌, ◌++◌, none, some, Bool, false, length, if◌then◌else◌, same}
use guicpp.CType.{CType, ptr, ref, named, plain, scope_setup_context}
use guicpp.Annotations.{
  Annotations, Annotated, not_annotated, at, label, annotations, actual_type, arg_type,
}
use guicpp.Values.{
  Pointer, null, Value, pointer, Provider, lazy_singleton, user_provider, CleanupAction,
  delete_pointer, CleanupCall,
}
use guicpp.Entries.{
  TypeId, Entry, bind_to_type_entry, pointer_table_entry, value_table_entry, reference_table_entry,
  bind_to_provider_entry, cleanup_entry, get_bind_type, bind_to_instance, BindType-discrete,
}
use guicpp.Outcome.{
  ok, undefined, not_bound_to_instance, no_scope_context, Action, pure, fail, lift, and_then, ◌>>=◌,
  ◌>>◌,
}
use guicpp.Table
use guicpp.Table.{BindTable}
use guicpp.Reader.{read}
use guicpp.Scope.{add_to_init_list, as_pointer}
use guicpp.Scope.State.{Store, LazyProvider, is_null}
use guicpp.Inject.Ids.{get_bind_id, label_of}

-- The binder, with the bind table that bind_table_ points to and the store of the objects.
pub record Binder : Type 0 where
  pub table : BindTable Entry
  pub num_errors : ℕ
  pub store : Store

-- Binder::AddBindEntry
unfoldable pub add_bind_entry : TypeId → Entry → Action Binder (Unit {0})
unfolding Table.add_entry
add_bind_entry tid e b =
    let (t, added) = Table.add_entry tid e b.table in
    ok (tt, record b { table = t; num_errors = if added then b.num_errors else suc b.num_errors })

-- A binding that computes its id and adds its entry.
abbrev pub bind_entry : Annotations → CType → Entry → Action Binder (Unit {0})
bind_entry xs t e = lift (get_bind_id xs t) >>= λ tid. add_bind_entry tid e

-- Binder::Bind<Interface, Implementation>
unfoldable pub bind : Annotated → Annotated → Action Binder (Unit {0})
unfolding get_bind_id add_bind_entry annotations arg_type
bind interface implementation =
    let lhs = ptr plain (arg_type interface) in
    let rhs = ptr plain (arg_type implementation) in
    bind_entry (annotations interface) lhs (bind_to_type_entry lhs (annotations implementation) rhs)

-- Binder::BindValueType<T, D>
unfoldable pub bind_value_type : Annotated → Annotated → Action Binder (Unit {0})
unfolding get_bind_id add_bind_entry annotations actual_type
bind_value_type t d =
    bind_entry (annotations t) (actual_type t)
      (bind_to_type_entry (actual_type t) (annotations d) (actual_type d))

-- Binder::BindToInstance<T>
unfoldable pub bind_to_instance_of : Annotated → Pointer → CleanupAction → Action Binder (Unit {0})
unfolding get_bind_id add_bind_entry annotations arg_type
bind_to_instance_of t p a =
    let lhs = ptr plain (arg_type t) in bind_entry (annotations t) lhs (pointer_table_entry lhs p a)

-- Binder::BindToValue<T>
unfoldable pub bind_to_value : Annotated → Value → Action Binder (Unit {0})
unfolding get_bind_id add_bind_entry annotations actual_type
bind_to_value t v = bind_entry (annotations t) (actual_type t) (value_table_entry (actual_type t) v)

-- Binder::BindRefToPointed<T>
unfoldable pub bind_ref_to_pointed : Annotated → Pointer → CleanupAction → Action Binder (Unit {0})
unfolding get_bind_id add_bind_entry annotations arg_type
bind_ref_to_pointed t p a =
    let lhs = ref (arg_type t) in bind_entry (annotations t) lhs (reference_table_entry lhs p a)

-- Binder::BindToProvider<T>
unfoldable pub bind_to_provider : Annotated → Provider → CleanupAction → Action Binder (Unit {0})
unfolding get_bind_id add_bind_entry annotations arg_type
bind_to_provider t p a =
    let lhs = ptr plain (arg_type t) in
    bind_entry (annotations t) lhs (bind_to_provider_entry lhs p a)

-- Binder::BindValueToProvider<T>
unfoldable pub bind_value_to_provider :
    Annotated → Provider → CleanupAction → Action Binder (Unit {0})
unfolding get_bind_id add_bind_entry annotations actual_type
bind_value_to_provider t p a =
    bind_entry (annotations t) (actual_type t) (bind_to_provider_entry (actual_type t) p a)

-- Binder::AddCleanupAction
unfoldable pub add_cleanup_action : CleanupCall → Action Binder (Unit {0})
unfolding Table.add_to_cleanup_list
add_cleanup_action c b =
    ok (tt, record b { table = Table.add_to_cleanup_list (cleanup_entry c) b.table })

-- An action on the store, as one on the binder.
abbrev pub on_store : {A : Type 0} → Action Store A → Action Binder A
on_store m b = and_then (m b.store) λ r. ok (r.0, record b { store = r.1 })

-- Entry::Get of an entry that is bound to an instance; it needs no injector.
abbrev pub instance_get : Entry → Action Binder Value
instance_get (pointer_table_entry t p a) = pure (pointer p)
instance_get _ = lift undefined

-- Binder::GetBoundInstance<T>
unfoldable pub get_bound_instance : Bool → Annotated → Action Binder Pointer
unfolding get_bind_id Table.find_entry get_bind_type read annotations arg_type as_pointer
get_bound_instance rtti t = do
  tid ← lift (get_bind_id (annotations t) (ptr plain (arg_type t)))
  b ← λ s. ok (s, s)
  elim (Table.find_entry tid b.table) [
    | none ↦ pure null
    | some e ↦
        if same BindType-discrete (get_bind_type e) bind_to_instance
        then (read rtti instance_get (ptr plain (arg_type t)) e >>= λ v. lift (as_pointer v))
        else fail not_bound_to_instance
  ]

-- LazySingletonProvider<T>::LazySingletonProvider; the new provider is the last of the store.
unfoldable pub new_provider : Action Store ℕ
unfolding add_to_init_list
new_provider s =
    let i = length s.providers in
    let p : LazyProvider = record {
      called = false;
      injector = null;
      object = null;
      is_deleted = false;
    } in
    and_then (add_to_init_list i (record s { providers = s.providers ++ p ∷ [] })) λ r. ok (i, r.1)

-- LazySingleton::ConfigureScope<L, T>
unfoldable pub configure_scope : Bool → Annotations → CType → Action Binder (Unit {0})
unfolding label_of get_bound_instance new_provider bind_to_provider is_null
configure_scope rtti xs t = do
  l ← lift (label_of xs)
  context ← get_bound_instance rtti (not_annotated (named plain scope_setup_context))
  if is_null context
      then fail no_scope_context
      else on_store new_provider >>= λ i.
          bind_to_provider (at (label l) t) (lazy_singleton i t) delete_pointer

-- Binder::BindToScope<T, LazySingleton>
unfoldable pub bind_to_scope : Bool → Annotated → Action Binder (Unit {0})
unfolding annotations arg_type configure_scope
bind_to_scope rtti t = configure_scope rtti (annotations t) (arg_type t)

-- What a module's Configure may do, call by call; Install is given another module.
mutual
  pub data Call : Type 0 where
    binds binds_value_type : Annotated → Annotated → Call
    binds_to_instance : Annotated → Pointer → CleanupAction → Call
    binds_to_value : Annotated → Value → Call
    binds_ref_to_pointed : Annotated → Pointer → CleanupAction → Call
    binds_to_provider binds_value_to_provider : Annotated → ℕ → CleanupAction → Call
    binds_to_scope : Annotated → Call
    adds_cleanup_action : CleanupCall → Call
    installs : Module → Call

  pub data Module : Type 0 where
    done : Module
    then_call : Call → Module → Module

unfoldable mutual
  unfolding bind bind_value_type bind_to_instance_of bind_to_value bind_ref_to_pointed
      bind_to_provider bind_value_to_provider bind_to_scope add_cleanup_action

  -- One call of the binder. Binder::Install calls the other module's Configure.
  pub call : Bool → Call → Action Binder (Unit {0})
  call rtti (binds t d) = bind t d
  call rtti (binds_value_type t d) = bind_value_type t d
  call rtti (binds_to_instance t p a) = bind_to_instance_of t p a
  call rtti (binds_to_value t v) = bind_to_value t v
  call rtti (binds_ref_to_pointed t p a) = bind_ref_to_pointed t p a
  call rtti (binds_to_provider t n a) = bind_to_provider t (user_provider n) a
  call rtti (binds_value_to_provider t n a) = bind_value_to_provider t (user_provider n) a
  call rtti (binds_to_scope t) = bind_to_scope rtti t
  call rtti (adds_cleanup_action c) = add_cleanup_action c
  call rtti (installs m) = configure rtti m

  -- Module::Configure
  pub configure : Bool → Module → Action Binder (Unit {0})
  configure rtti done = pure tt
  configure rtti (then_call c m) = call rtti c >> configure rtti m
