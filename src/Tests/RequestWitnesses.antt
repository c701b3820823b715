-- ===== src/Tests/RequestWitnesses.antt =====
-- The theorems of unbound requests and of providers at concrete inputs, as in
-- testing/test/guicpp_injector_death_test.cc.
use guicpp.Inject.Parameters.{Compiler}
use guicpp.Base.{ℕ_discrete, ◌≡◌, ◌≢◌, refl, [], ◌∷◌, none, true}
use guicpp.CType.{CType-discrete, named, plain, user_class, primitive}
use guicpp.Annotations
use guicpp.Annotations.{
  Annotated, not_annotated, user_label, label, inject, assisted, at, Annotations, Annotation,
  Annotations, empty_annotations, label, inject, user_label, un_scoped, not_labelled, assisted,
  Label, actual_type, normal_inject, at, at2, label_type, inject_type, annotations, get_at,
}
use guicpp.Values.{user_provider, plain as plain_value, delete_pointer}
use guicpp.Entries.{TypeId-discrete, Entry, bind_to_provider_entry}
use guicpp.Outcome.{missing_binding, ok, fatal}
use guicpp.Table
use guicpp.Table.{BindTable, empty, add_entry, deletions, find}
use guicpp.LocalContext.{empty_context}
use guicpp.Reader.Laws.{const_reference, formed}
use guicpp.Inject.Ids.{get_bind_id}
use guicpp.Inject.Run.{run}
use guicpp.Tests.Sample.{empty_heap, sample, gcc, class_id, int_id}
use guicpp.Inject.Unbound.{run_unbound, run_no_default, run-provider, by_default}

-- A reference to the unbound class 2, which can be had only as a pointer.
run_unbound_example :
    run gcc sample empty 4 empty_annotations
      (formed const_reference (user_class 2))
      empty_context
      empty_heap
    ≡ by_default gcc sample empty 3 empty_context empty_heap
        (sample.default_entry (user_class 2))
        const_reference
        (user_class 2)
unfolding get_bind_id Table.find_entry empty empty_annotations Annotations.entries formed
run_unbound_example =
    run_unbound gcc sample empty 3 empty_context empty_heap empty_annotations const_reference 2
      (class_id 2) refl refl

run_no_default_example :
    run gcc sample empty 4 empty_annotations (named plain (primitive 0)) empty_context empty_heap
    ≡ fatal missing_binding
unfolding get_bind_id Table.find_entry empty empty_annotations Annotations.entries
run_no_default_example =
    run_no_default gcc sample empty 3 empty_annotations (named plain (primitive 0)) empty_context
      empty_heap int_id refl refl refl

-- A compiler whose programs do not survive the end of a function without a return statement.
abbrev strict : Compiler
strict = record { rtti = true; earlier = λ es xs. 0; flow_off_end = λ v. none }

abbrev provider_entry : Entry
provider_entry = bind_to_provider_entry (named plain (primitive 0)) (user_provider 5) delete_pointer

abbrev provider_table : BindTable Entry
provider_table = record { bind_map = (int_id, provider_entry) ∷ []; cleanup_list = [] }

run-provider_example :
    run strict sample provider_table 4 empty_annotations
      (named plain (primitive 0))
      empty_context
      empty_heap
    ≢ ok (plain_value 5, empty_heap)
unfolding get_bind_id Table.find_entry TypeId-discrete CType-discrete ℕ_discrete empty_annotations
    Annotations.entries
run-provider_example =
    run-provider strict sample provider_table 3 empty_annotations (named plain (primitive 0))
      empty_context empty_heap int_id refl (named plain (primitive 0)) (user_provider 5)
      delete_pointer (plain_value 5, empty_heap) (λ v. refl) refl
