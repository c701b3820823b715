-- ===== src/Tests/Sample.antt =====
-- Classes 1, 2 and 3, as in testing/test/guicpp_singleton_test.cc: class 1 is an interface bound to
-- class 2, class 2 takes a class 3 pointer, class 3 is a lazy singleton, and an int is bound.
use guicpp.Base.{ℕ, length, zero, suc, [], ◌∷◌, some, true, none}
use guicpp.CType.{CType, named, ptr, plain, TypeName, user_class, primitive}
use guicpp.Annotations.{not_labelled, normal_inject, Annotated, not_annotated}
use guicpp.Values.{plain as plain_value, user_cleanup}
use guicpp.Entries.{TypeId, label_helper}
use guicpp.Outcome.{Outcome, and_then}
use guicpp.Scope.State.{Store}
use guicpp.Inject.Parameters.{
  Compiler, Program, DefaultEntry, inject_ctor, injectable, not_injectable,
}
use guicpp.Inject.Run.{injector_get}
use guicpp.Binder.{
  Module, done, then_call, binds, binds_to_scope, binds_to_value, adds_cleanup_action,
}
use guicpp.Injector.{create_injector, delete_injector}

abbrev pub class_type : ℕ → CType
class_type n = named plain (user_class n)

-- The ids of the class n and of int, with no label.
abbrev pub class_id : ℕ → TypeId
class_id n = label_helper normal_inject not_labelled (class_type n)

abbrev pub int_id : TypeId
int_id = label_helper normal_inject not_labelled (named plain (primitive 0))

abbrev pub class : ℕ → Annotated
class n = not_annotated (named plain (user_class n))

abbrev pub pointer_to : ℕ → Annotated
pointer_to n = not_annotated (ptr plain (named plain (user_class n)))

abbrev pub int : Annotated
int = not_annotated (named plain (primitive 0))

abbrev pub sample_default : TypeName → DefaultEntry
sample_default (user_class zero) = injectable
sample_default (user_class (suc zero)) = injectable
sample_default (user_class (suc (suc zero))) = inject_ctor (pointer_to 3 ∷ int ∷ [])
sample_default (user_class (suc (suc (suc zero)))) = inject_ctor []
sample_default _ = not_injectable

abbrev pub sample : Program
sample = record {
  default_entry = sample_default;
  provider_args = λ n. [];
  provider_get = λ n vs es. plain_value n;
  factory_return = λ n. ptr plain (named plain (user_class n));
  factory_args = λ n. [];
}

abbrev pub gcc : Compiler
gcc = record { rtti = true; earlier = λ es xs. length xs; flow_off_end = some }

abbrev pub bindings : Module
bindings = then_call (binds (class 1) (class 2)) (
    then_call (binds_to_scope (class 3)) (
      then_call (binds_to_value int (plain_value 7))
        (then_call (adds_cleanup_action (user_cleanup 4)) done)))

abbrev pub empty_heap : Store
empty_heap = record { next_object = 0; events = []; providers = []; context = none }

use_twice : Outcome Store
use_twice = and_then (create_injector true bindings) λ i.
    and_then (injector_get gcc sample i.table 9 (pointer_to 1) i.store) λ r.
      and_then (injector_get gcc sample i.table 9 (pointer_to 1) r.1)
        λ q. delete_injector (record { table = i.table; store = q.1 })
