-- ===== src/Entries.antt =====
-- The classes derived from TableEntryBase: include/guicpp/internal/guicpp_entries.h, the entry of
-- guicpp_builder.h, FactoryArgumentEntry of guicpp_local_context.h and InvalidEntry of guicpp_table.h.
-- An entry of class TableEntry<T> begins with its bound type T.
use guicpp.Base.{ℕ_discrete, List}
use guicpp.CType.{CType, ptr, plain}
use guicpp.Annotations.{Annotations, Annotated, InjectType, Label}
use guicpp.Values.{Pointer, Value, Provider, CleanupAction, CleanupCall}
use guicpp.Outcome.{Outcome, ok, fatal, check_failed}

-- The address of TypeIdProvider<X>::type_id_, where X is a type specifier or a
-- LabelHelper<I, L, ActualType>. There is one such variable for each X, so the address is X.
pub data TypeId : Type 0 where
  type_of : CType → TypeId
  label_helper : InjectType → Label → CType → TypeId

unfoldable pub TypeId-discrete : Discrete TypeId
TypeId-discrete = hlevel ℕ_discrete

-- TableEntryBase::BindType
pub data BindType : Type 0 where
  bind_to_ctor bind_to_type bind_to_instance bind_to_value bind_to_pointed bind_to_provider
        bind_factory_argument invalid_bind :
      BindType

unfoldable pub BindType-discrete : Discrete BindType
BindType-discrete = hlevel

pub data Entry : Type 0 where
  bind_to_type_entry : CType → Annotations → CType → Entry
  pointer_table_entry : CType → Pointer → CleanupAction → Entry
  value_table_entry : CType → Value → Entry
  reference_table_entry : CType → Pointer → CleanupAction → Entry
  bind_to_provider_entry : CType → Provider → CleanupAction → Entry
  bind_to_function : CType → List Annotated → Entry
  factory_argument_entry : CType → Value → Entry
  invalid_entry : Entry
  cleanup_entry : CleanupCall → Entry

-- GetBindType()
unfoldable pub get_bind_type : Entry → BindType
get_bind_type (bind_to_type_entry t xs d) = bind_to_type
get_bind_type (pointer_table_entry t p c) = bind_to_instance
get_bind_type (value_table_entry t v) = bind_to_value
get_bind_type (reference_table_entry t p c) = bind_to_pointed
get_bind_type (bind_to_provider_entry t p c) = bind_to_provider
get_bind_type (bind_to_function t xs) = bind_to_ctor
get_bind_type (factory_argument_entry t v) = bind_factory_argument
get_bind_type invalid_entry = invalid_bind
get_bind_type (cleanup_entry c) = invalid_bind

-- The T of the class TableEntry<T> that the entry derives from; BindToFunction<T, Fp> is a
-- TableEntry<T*>. An InvalidEntry derives from none, and each of its accessors calls Invalid<>(),
-- which fails a check.
unfoldable pub bound_type : Entry → Outcome CType
bound_type (bind_to_type_entry t xs d) = ok t
bound_type (pointer_table_entry t p c) = ok t
bound_type (value_table_entry t v) = ok t
bound_type (reference_table_entry t p c) = ok t
bound_type (bind_to_provider_entry t p c) = ok t
bound_type (bind_to_function t xs) = ok (ptr plain t)
bound_type (factory_argument_entry t v) = ok t
bound_type invalid_entry = fatal check_failed
bound_type (cleanup_entry c) = fatal check_failed
