-- ===== src/Tests/SingletonWitnesses.antt =====
-- The theorems of lazy singletons at concrete inputs, as in testing/test/guicpp_singleton_test.cc.
use guicpp.Base.{
  ℕ, ℕ_discrete, ◌≡◌, refl, [], ◌∷◌, none, some, true, false, All, map, reverse, ◌++◌,
}
use guicpp.CType.{CType-discrete, ptr, plain}
use guicpp.Annotations
use guicpp.Annotations.{
  Annotated, Annotation, Annotations, empty_annotations, label, inject, user_label, un_scoped,
  not_labelled, assisted, Label, actual_type, normal_inject, at, at2, label_type, inject_type,
  annotations, get_at,
}
use guicpp.Values.{pointer, object, null, the_injector, lazy_singleton, delete_pointer, Pointer}
use guicpp.Entries.{TypeId-discrete, BindType-discrete, Entry, bind_to_provider_entry}
use guicpp.Outcome.{ok}
use guicpp.Table
use guicpp.Table.{BindTable, empty, add_entry, deletions, find}
use guicpp.LocalContext.{empty_context}
use guicpp.Scope.State.{was_deleted, Store, constructed}
use guicpp.Inject.Ids.{get_bind_id}
use guicpp.Inject.Run.{run}
use guicpp.Tests.Sample.{sample, gcc, class_type, class_id}
use guicpp.Scope.Cleanup.{HasNoObject, context_cleanup-AreMade}
use guicpp.Scope.{lock, unlock, context_cleanup}
use guicpp.Inject.Singleton.{Reaches, here, request, run-singleton}
use guicpp.Scope.State.{deleted, LazyProvider, ScopeSetupContext, is_null}

-- Class 3 is bound to a lazy singleton.
abbrev pub class_3_entry : Entry
class_3_entry =
    bind_to_provider_entry (ptr plain (class_type 3)) (lazy_singleton 0 (class_type 3))
      delete_pointer

abbrev pub singleton_table : BindTable Entry
singleton_table = record {
  bind_map = (class_id 3, class_3_entry) ∷ [];
  cleanup_list = class_3_entry ∷ [];
}

abbrev pub before_use : Store
before_use = record {
  next_object = 0;
  events = [];
  providers =
      record { called = false; injector = the_injector; object = null; is_deleted = false } ∷ [];
  context = some (record {
    injector = the_injector;
    init_list = 0 ∷ [];
    locked = false;
    cleanup_list = none ∷ [];
    cleanup_list_size = 0;
  });
}

abbrev pub used_provider : LazyProvider
used_provider = record {
  called = true;
  injector = the_injector;
  object = object 0;
  is_deleted = false;
}

abbrev pub used_context : ScopeSetupContext
used_context = record {
  injector = the_injector;
  init_list = 0 ∷ [];
  locked = false;
  cleanup_list = some 0 ∷ [];
  cleanup_list_size = 1;
}

abbrev pub after_use : Store
after_use = record {
  next_object = 1;
  events = constructed 0 (class_type 3) [] ∷ [];
  providers = used_provider ∷ [];
  context = some used_context;
}

pub first_use :
    run gcc sample singleton_table 3 empty_annotations
      (ptr plain (class_type 3))
      empty_context
      before_use
    ≡ ok (pointer (object 0), after_use)
unfolding run TypeId-discrete CType-discrete ℕ_discrete BindType-discrete empty_annotations
    empty_context Annotations.entries lock unlock
first_use = refl

second_use :
    run gcc sample singleton_table 1 empty_annotations
      (ptr plain (class_type 3))
      empty_context
      after_use
    ≡ ok (pointer (object 0), after_use)
unfolding run TypeId-discrete CType-discrete ℕ_discrete BindType-discrete empty_annotations
    empty_context Annotations.entries
second_use = refl

served : Reaches gcc sample singleton_table before_use after_use
served =
    request 3 empty_annotations (ptr plain (class_type 3)) empty_context (pointer (object 0))
      before_use after_use after_use first_use (here after_use)

still_served : Reaches gcc sample singleton_table after_use after_use
still_served =
    request 1 empty_annotations (ptr plain (class_type 3)) empty_context (pointer (object 0))
      after_use after_use after_use second_use (here after_use)

run-singleton_example :
    run gcc sample singleton_table 1 empty_annotations
      (ptr plain (class_type 3))
      empty_context
      after_use
    ≡ ok (pointer (object 0), after_use)
unfolding get_bind_id Table.find_entry TypeId-discrete CType-discrete ℕ_discrete empty_annotations
    Annotations.entries
run-singleton_example =
    run-singleton gcc sample singleton_table empty_annotations (ptr plain (class_type 3))
      (class_id 3) (ptr plain (class_type 3)) 0 (class_type 3) delete_pointer refl refl 2 0
      empty_context empty_context before_use after_use after_use (pointer (object 0)) first_use
      still_served

-- The cleanup of the one singleton.
context_cleanup-AreMade_example :
    (t : Store) × (context_cleanup after_use ≡ ok (tt, t))
    × (t.events
        ≡ map (λ (x : ℕ × Pointer). deleted x.1) (reverse ((0, object 0) ∷ [])) ++ after_use.events)
    × All (λ (x : ℕ × Pointer). HasNoObject x.0 t) ((0, object 0) ∷ [])
unfolding is_null was_deleted
context_cleanup-AreMade_example =
    context_cleanup-AreMade ((0, object 0) ∷ []) [] used_context after_use refl refl refl refl (
      record {
        provider = used_provider;
        there = refl;
        is_called = refl;
        not_deleted = refl;
        holds = refl;
      },
      refl,
      refl,
      tt,
      tt,
    )
