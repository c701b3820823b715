-- ===== src/Tests/BinderWitnesses.antt =====
-- The theorems of the binder and of CreateInjector at concrete inputs, as in
-- testing/test/guicpp_binder_test.cc.
use guicpp.Base.{same, ◌≡◌, refl, ℕ, List, [], ◌∷◌, some, true, false, ℕ_discrete}
use guicpp.CType.{CType-discrete, ptr, plain, named, scope_setup_context}
use guicpp.Annotations
use guicpp.Annotations.{empty_annotations, normal_inject, not_labelled}
use guicpp.Values.{the_injector, invoke_cleanup}
use guicpp.Entries.{TypeId, TypeId-discrete, Entry, bind_to_type_entry, cleanup_entry, label_helper}
use guicpp.Table
use guicpp.Outcome.{ok}
use guicpp.Inject.Ids.{get_bind_id}
use guicpp.Binder.{Binder, Module, configure, then_call, binds, done}
use guicpp.Binder.Recorded.{repeats}
use guicpp.Binder.Errors.{module_ids}
use guicpp.Injector.{wrapper_module}
use guicpp.Injector.Created.{start_store}
use guicpp.Injector.Errors.{context_id, Verdict, create_injector_lem}
use guicpp.Injector.{Injector, create_injector}
use guicpp.Injector.Ownership.{configure-find_entry, context_entry}
use guicpp.Tests.Sample.{class, class_type, class_id, empty_heap}

-- Class 1 is bound to class n.
abbrev to_class : ℕ → Entry
to_class n =
    bind_to_type_entry (ptr plain (class_type 1)) empty_annotations (ptr plain (class_type n))

abbrev bound_once : Binder
bound_once = record {
  table = record { bind_map = (class_id 1, to_class 2) ∷ []; cleanup_list = to_class 2 ∷ [] };
  num_errors = 0;
  store = empty_heap;
}

abbrev bound_twice : Binder
bound_twice = record {
  table = record {
    bind_map = (class_id 1, to_class 2) ∷ [];
    cleanup_list = to_class 2 ∷ to_class 3 ∷ [];
  };
  num_errors = 1;
  store = empty_heap;
}

abbrev binds_again : Module
binds_again = then_call (binds (class 1) (class 3)) done

configure-find_entry_example : Table.find_entry (class_id 1) bound_twice.table ≡ some (to_class 2)
unfolding configure Table.find_entry get_bind_id Annotations.entries TypeId-discrete CType-discrete
    ℕ_discrete empty_annotations
configure-find_entry_example =
    configure-find_entry true binds_again bound_once bound_twice (class_id 1) (to_class 2) refl refl

abbrev created : Injector
created = record {
  table = record {
    bind_map =
        (label_helper normal_inject not_labelled (named plain scope_setup_context), context_entry)
        ∷ (class_id 1, to_class 3)
        ∷ [];
    cleanup_list = context_entry ∷ to_class 3 ∷ cleanup_entry invoke_cleanup ∷ [];
  };
  store = record {
    next_object = 0;
    events = [];
    providers = [];
    context = some (record {
      injector = the_injector;
      init_list = [];
      locked = false;
      cleanup_list = [];
      cleanup_list_size = 0;
    });
  };
}

abbrev binds_twice : Module
binds_twice = then_call (binds (class 1) (class 2)) binds_again

abbrev refused : Binder
refused = record {
  table = record {
    bind_map = (context_id, context_entry) ∷ (class_id 1, to_class 2) ∷ [];
    cleanup_list = context_entry ∷ to_class 2 ∷ to_class 3 ∷ cleanup_entry invoke_cleanup ∷ [];
  };
  num_errors = 1;
  store = start_store;
}

create_injector_lem_example :
    (is : List TypeId) × (module_ids binds_twice ≡ ok is)
    × Verdict (create_injector true binds_twice) (repeats (same TypeId-discrete context_id) is)
unfolding configure wrapper_module get_bind_id Annotations.entries TypeId-discrete CType-discrete
    ℕ_discrete empty_annotations Table.empty Annotations.annotations Annotations.arg_type
create_injector_lem_example = create_injector_lem true binds_twice refused refl
