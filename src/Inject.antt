-- ===== src/Inject.antt =====
-- InjectorUtil and its handlers: include/guicpp/internal/guicpp_inject_util.h, with the Get methods of
-- the entries (guicpp_entries.h, guicpp_builder.h, guicpp_local_context.h), the calls of constructors
-- (guicpp_create_helpers.h) and of providers (guicpp_provider.h, guicpp_provider_helpers.h). The
-- recursion through the entries is open here, an argument `get_actual`; Inject.Run closes it.
pub mod Ids
pub mod Order
pub mod Parameters
pub mod Run
pub mod Requests
pub mod Allowed
pub mod Stays
pub mod Ends
pub mod SetUp
pub mod Unbound
pub mod Singleton
pub mod Frames
pub mod Keeps
pub mod Bound
pub mod SharedIds
use guicpp.Base.{ℕ, suc, List, [], ◌∷◌, Option, none, some, Bool, true, false, if◌then◌else◌}
use guicpp.CType.{CType, ptr, named, plain as no_quals, TypeName, is_class_or_union, is_internal}
use guicpp.CType.Info.{type_specifier}
use guicpp.Annotations.{
  Annotations, Annotated, annotations, actual_type, Label, InjectType, normal_inject, assisted, at,
  un_scoped, label,
}
use guicpp.Values.{
  Pointer, Value, Provider, lazy_singleton, user_provider, pointer, reference, plain, object,
  the_injector, factory_object,
}
use guicpp.Entries.{
  TypeId, Entry, bind_to_type_entry, pointer_table_entry, value_table_entry, reference_table_entry,
  bind_to_provider_entry, bind_to_function, factory_argument_entry, invalid_entry, cleanup_entry,
}
use guicpp.Outcome.{
  Outcome, ok, undefined, ill_formed, fatal, missing_binding, missing_assisted, and_then, Action,
  pure, fail, lift, ◌>>=◌, ◌>>◌, check,
}
use guicpp.Table
use guicpp.Table.{BindTable}
use guicpp.LocalContext
use guicpp.LocalContext.{LocalContext, empty_context}
use guicpp.Scope.{provider_get}
use guicpp.Scope.State.{Store, Event, constructed, provided, is_null}
use guicpp.Reader.{read}
use Ids.{
  Handler, normal_handler, missing_default_handler, assisted_handler, internal_handler, handler_of,
  normal_id, assisted_id,
}
use Order.{in_order, arranged}
use Parameters.{Compiler, Program, DefaultEntry, not_injectable, inject_ctor, injectable}

-- GuicppGetDefaultEntry(TypeKey<T>(), ...) as the inject macros define it.
unfoldable pub default_entry : Program → CType → Outcome Entry
default_entry prog (named q n) = elim (prog.default_entry n) [
  | not_injectable ↦ ill_formed
  | inject_ctor xs ↦ ok (bind_to_function (named q n) xs)
  | injectable ↦ ok invalid_entry
]
default_entry prog _ = ill_formed

module _ (k : Compiler) (prog : Program) (table : BindTable Entry)
    (get_actual : Annotations → CType → LocalContext → Action Store Value) where
  -- InjectorUtil::GetWithContext<T>
  unfoldable pub get_with_context : Annotated → LocalContext → Action Store Value
  unfolding annotations actual_type
  get_with_context x c = get_actual (annotations x) (actual_type x) c

  -- Requests one after the other.
  unfoldable pub get_all : List Annotated → LocalContext → Action Store (List Value)
  unfolding get_with_context
  get_all [] c = pure []
  get_all (x ∷ xs) c = get_with_context x c >>= λ v. get_all xs c >>= λ vs. pure (v ∷ vs)

  -- The arguments of a constructor or of a provider's Get, in the compiler's order of evaluation.
  unfoldable pub inject_args : List Annotated → LocalContext → Action Store (List Value)
  unfolding get_all in_order arranged
  inject_args xs c s =
      let earlier = k.earlier s.events in
      (get_all (in_order earlier xs) c >>= λ vs. pure (arranged earlier xs vs)) s

  -- *ptr_ of a ReferenceTableEntry
  unfoldable pub dereference : Pointer → Outcome Value
  unfolding is_null
  dereference p = if is_null p then undefined else ok (reference p)

  -- CreateHelpers::Create: `new T(...)` after its arguments.
  unfoldable pub create : CType → List Annotated → LocalContext → Action Store Value
  unfolding inject_args
  create t xs c = inject_args xs c >>= λ vs s. ok (
    pointer (object s.next_object),
    record s {
      next_object = suc s.next_object;
      events = constructed s.next_object t vs ∷ s.events;
    },
  )

  -- ProviderGet<R(A1, ...)>::GetInvoker, for a provider of the user's.
  unfoldable pub get_invoker : ℕ → LocalContext → Action Store Value
  unfolding inject_args
  get_invoker n c = inject_args (prog.provider_args n) c >>= λ vs s.
      ok (prog.provider_get n vs s.events, record s { events = provided n vs ∷ s.events })

  -- Injector::Get<At<UnScoped, T*> >() with its own empty context.
  unfoldable pub get_unscoped : CType → Action Store Value
  unfolding get_with_context empty_context
  get_unscoped t = get_with_context (at (label un_scoped) (ptr no_quals t)) empty_context

  -- What the caller of a function that has no return statement receives.
  abbrev pub returned : Value → Outcome Value
  returned v = elim (k.flow_off_end v) [ none ↦ undefined | some w ↦ ok w ]

  -- AbstractProvider::InvokeGet calls get_invoker_fp_ and has no return statement.
  unfoldable pub invoke_get : Provider → LocalContext → Action Store Value
  unfolding get_invoker get_unscoped provider_get
  invoke_get (lazy_singleton i t) c = provider_get (get_unscoped t) i >>= λ v. lift (returned v)
  invoke_get (user_provider n) c = get_invoker n c >>= λ v. lift (returned v)

  -- Get(injector, local_context) of each class of entry; InvalidEntry has none.
  unfoldable pub entry_get : LocalContext → Entry → Action Store Value
  unfolding create invoke_get dereference
  entry_get c (bind_to_type_entry t xs d) = get_actual xs d c
  entry_get c (pointer_table_entry t p a) = pure (pointer p)
  entry_get c (value_table_entry t v) = pure v
  entry_get c (reference_table_entry t p a) = lift (dereference p)
  entry_get c (bind_to_provider_entry t p a) = invoke_get p c
  entry_get c (bind_to_function t xs) = create t xs c
  entry_get c (factory_argument_entry t v) = pure v
  entry_get c invalid_entry = lift ill_formed
  entry_get c (cleanup_entry a) = lift ill_formed

  -- TableEntryReader<T>::Get at the entry that a lookup returned, or else what follows its NULL test.
  unfoldable pub read_found :
      Option Entry → CType → LocalContext → Action Store Value → Action Store Value
  unfolding read entry_get
  read_found (some e) t c otherwise = read k.rtti (entry_get c) t e
  read_found none t c otherwise = otherwise

  -- NormalInjectHandler::GetHelper: the reader at the default entry.
  unfoldable pub read_default : CType → LocalContext → Action Store Value
  unfolding default_entry read entry_get
  read_default t c =
      lift (default_entry prog (type_specifier t)) >>= λ e. read k.rtti (entry_get c) t e

  -- NormalInjectHandler::Get
  unfoldable pub normal_get : Annotations → CType → LocalContext → Action Store Value
  unfolding normal_id Table.find_entry read_found read_default
  normal_get xs t c = lift (normal_id xs t) >>= λ tid.
      read_found (Table.find_entry tid table) t c (read_default t c)

  -- MissingDefaultTypeHandler::Get
  unfoldable pub missing_default_get : Annotations → CType → LocalContext → Action Store Value
  unfolding normal_id Table.find_entry read_found
  missing_default_get xs t c = lift (normal_id xs t) >>= λ tid.
      read_found (Table.find_entry tid table) t c (fail missing_binding)

  -- AssistedInjectHandler::Get
  unfoldable pub assisted_get : Annotations → CType → LocalContext → Action Store Value
  unfolding assisted_id LocalContext.find_entry read_found
  assisted_get xs t c =
      lift (and_then (assisted_id xs t) λ tid. LocalContext.find_entry tid c) >>= λ found.
      read_found found t c (fail missing_assisted)

  -- InternalTypeInjectHandler::Get: only Injector* and a factory's pointer have a GetHelper.
  unfoldable pub internal_get : Annotations → CType → Action Store Value
  internal_get xs (ptr q (named r TypeName.injector)) = pure (pointer the_injector)
  internal_get xs (ptr q (named r (TypeName.factory n))) = pure (pointer (factory_object xs n))
  internal_get xs _ = lift ill_formed

  -- The Get of the handler that GuicppGetInjectHandler returns.
  unfoldable pub handle : Handler → Annotations → CType → LocalContext → Action Store Value
  unfolding normal_get missing_default_get assisted_get internal_get
  handle normal_handler xs t c = normal_get xs t c
  handle missing_default_handler xs t c = missing_default_get xs t c
  handle assisted_handler xs t c = assisted_get xs t c
  handle internal_handler xs t c = internal_get xs t

  -- InjectorUtil::GetActualType
  unfoldable pub get_actual_type : Annotations → CType → LocalContext → Action Store Value
  unfolding handler_of handle
  get_actual_type xs t c = lift (handler_of xs t) >>= λ h. handle h xs t c
