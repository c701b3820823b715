-- ===== src/FactoryUser.antt =====
-- examples/illustrations/factory: the classes and inject macros of factoryuser.h, and main.cc up to
-- the deletions.
pub mod Users
use guicpp.Base.{ℕ, List, [], ◌∷◌, none, some, get_elem?}
use guicpp.CType.{CType, TypeName, user_class, factory, named, ptr, plain}
use guicpp.Annotations.{Annotated, not_annotated, at, inject, assisted, empty_annotations}
use guicpp.Values.{Pointer, Value, pointer}
use guicpp.Outcome.{Outcome, ok, and_then, Action, pure, ◌>>=◌}
use guicpp.Scope.State.{Store}
use guicpp.Inject.Parameters.{Compiler, Program, DefaultEntry, not_injectable, inject_ctor}
use guicpp.Table.{BindTable}
use guicpp.Entries.{Entry}
use guicpp.Inject.Run.{injector_get, factory_get}
use guicpp.Binder.{Module, done}
use guicpp.Injector.{Injector, create_injector}

abbrev pub simple_class : CType
simple_class = named plain (user_class 0)

abbrev pub example_arg_type : CType
example_arg_type = named plain (user_class 1)

abbrev pub factory_arg_user : CType
factory_arg_user = named plain (user_class 2)

abbrev pub pointer_argument_factory : CType
pointer_argument_factory = named plain (factory 0)

abbrev simple_class_macro : DefaultEntry
simple_class_macro = inject_ctor []

abbrev example_arg_type_macro : DefaultEntry
example_arg_type_macro = inject_ctor []

abbrev pub user_arguments : List Annotated
user_arguments =
    not_annotated (ptr plain simple_class) ∷ at (inject assisted) (ptr plain example_arg_type) ∷ []

abbrev factory_arg_user_macro : DefaultEntry
factory_arg_user_macro = inject_ctor user_arguments

abbrev class_macros : List DefaultEntry
class_macros = simple_class_macro ∷ example_arg_type_macro ∷ factory_arg_user_macro ∷ []

-- The classes, and the Get of PointerArgumentFactory; there are no providers.
unfoldable pub user_program : Program
user_program = record {
  default_entry = λ n. by n;
  provider_args = λ n. [];
  provider_get = λ n vs es. pointer Pointer.null;
  factory_return = λ n. ptr plain factory_arg_user;
  factory_args = λ n. not_annotated (ptr plain example_arg_type) ∷ [];
}
  where
    by : TypeName → DefaultEntry
    by (user_class n) = elim (get_elem? class_macros n) [ none ↦ not_injectable | some d ↦ d ]
    by _ = not_injectable

-- RefExampleModule::Configure
unfoldable pub example_module : Module
example_module = done

-- CreateInjector and Get<PointerArgumentFactory*>
unfoldable pub get_factory : Compiler → Outcome (Injector × Value)
unfolding create_injector injector_get example_module user_program
get_factory k = and_then (create_injector k.rtti example_module) λ i.
    and_then
      (injector_get k user_program i.table 9 (not_annotated (ptr plain pointer_argument_factory))
        i.store)
      λ r. ok (record i { store = r.1 }, r.0)

-- factory->Get(arg), for one argument after the other.
unfoldable pub get_users : Compiler → BindTable Entry → List Pointer → Action Store (List Value)
unfolding factory_get user_program
get_users k table [] = pure []
get_users k table (arg ∷ args) =
    factory_get k user_program table 9 empty_annotations 0 (pointer arg ∷ []) >>= λ u.
    get_users k table args >>= λ us. pure (u ∷ us)
