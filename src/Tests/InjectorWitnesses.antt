-- ===== src/Tests/InjectorWitnesses.antt =====
-- The theorems of the reader and of the injector at concrete inputs, as in
-- testing/test/guicpp_injector_test.cc and guicpp_singleton_test.cc.
use guicpp.Base.{
  ℕ, ◌<◌, ◌≡◌, ◌≢◌, ◌↔◌, refl, ap, ◌∙◌, same-eq, zero, suc, [], ◌∷◌, some, true, All, arith,
}
use guicpp.CType.{CType, named, ptr, ref, plain, const, user_class, primitive}
use guicpp.CType.Info.{type_specifier}
use guicpp.Annotations
use guicpp.Annotations.{
  Annotation, Annotations, empty_annotations, label, inject, user_label, un_scoped, not_labelled,
  assisted, Label, actual_type, normal_inject, at, at2, label_type, inject_type, annotations,
  get_at,
}
use guicpp.Values.{plain as plain_value, user_object, do_nothing}
use guicpp.Entries
use guicpp.Entries.{
  TypeId, TypeId-discrete, BindType-discrete, label_helper, Entry, value_table_entry,
  bind_to_type_entry, bind_to_provider_entry, factory_argument_entry, reference_table_entry,
  pointer_table_entry, bind_to_function,
}
use guicpp.Outcome.{ok, out_of_fuel}
use guicpp.Table
use guicpp.Table.{BindTable, empty, add_entry, deletions, find}
use guicpp.LocalContext.{empty_context}
use guicpp.Reader.{read}
use guicpp.Reader.Laws.{value, const_reference, formed, verdict, answer, read_lem}
use guicpp.Inject.Ids.{get_bind_id, label_of, inject_type_of}
use guicpp.Inject.{default_entry, entry_get}
use guicpp.Inject.Requests.{IsRanked, entry_requests}
use guicpp.Inject.Run.{run}
use guicpp.Inject.Ends.{run_ends}
use guicpp.Inject.SharedIds.{normal_id-eq-ok, get_bind_id_iff}
use guicpp.Tests.Sample.{empty_heap, sample, gcc, class_type, class_id, int_id}

-- A const reference bound for a class, which a request for the value can not read.
abbrev const_reference_entry : Entry
const_reference_entry =
    reference_table_entry (ref (named const (user_class 1))) (user_object 0) do_nothing

read_lem_example :
    read true
      (entry_get gcc sample empty (run gcc sample empty 0) empty_context)
      (formed value (user_class 1))
      const_reference_entry
      empty_heap
    ≡ answer true
        (entry_get gcc sample empty (run gcc sample empty 0) empty_context)
        (verdict value const_reference)
        (formed value (user_class 1))
        const_reference_entry
        empty_heap
unfolding Entries.bound_type formed
read_lem_example =
    read_lem true (entry_get gcc sample empty (run gcc sample empty 0) empty_context) value
      const_reference (user_class 1) const_reference_entry empty_heap refl

-- Class 1 is bound to class 2, whose constructor takes a class 3 pointer and an int; an int is bound.
abbrev class_1_entry : Entry
class_1_entry =
    bind_to_type_entry (ptr plain (class_type 1)) empty_annotations (ptr plain (class_type 2))

abbrev int_entry : Entry
int_entry = value_table_entry (named plain (primitive 0)) (plain_value 7)

abbrev table : BindTable Entry
table = record {
  bind_map = (class_id 1, class_1_entry) ∷ (int_id, int_entry) ∷ [];
  cleanup_list = class_1_entry ∷ int_entry ∷ [];
}

abbrev class_rank : CType → ℕ
class_rank (named q (user_class (suc zero))) = 3
class_rank (named q (user_class (suc (suc zero)))) = 2
class_rank (named q (user_class (suc (suc (suc zero))))) = 1
class_rank _ = 0

abbrev rank : Annotations → CType → ℕ
rank xs t = class_rank (type_specifier t)

entry_falls :
    (l : Label) (u : CType) (e : Entry)
    → find (label_helper normal_inject l u) table.bind_map ≡ some e
    → All (λ d. rank d.0 d.1 < class_rank u) (entry_requests sample e)
unfolding find entry_requests type_specifier
entry_falls l u e h = ground (
  arith,
  same-eq TypeId-discrete (class_id 1) (label_helper normal_inject l u),
  same-eq TypeId-discrete int_id (label_helper normal_inject l u),
)

default_falls :
    (u : CType) (e : Entry)
    → default_entry sample u ≡ ok e
    → All (λ d. rank d.0 d.1 < class_rank u) (entry_requests sample e)
unfolding default_entry entry_requests type_specifier annotations actual_type
default_falls (named q (user_class zero)) e h = ground arith
default_falls (named q (user_class (suc zero))) e h = ground arith
default_falls (named q (user_class (suc (suc zero)))) e h = ground arith
default_falls (named q (user_class (suc (suc (suc zero))))) e h = ground arith
default_falls (named q (user_class (suc (suc (suc (suc n)))))) e h = cc
default_falls (named q n) e h = ground arith
default_falls (ptr q t) e h = cc
default_falls (ref t) e h = cc

table-IsRanked : IsRanked sample table rank
unfolding Table.find_entry
table-IsRanked = record {
  bound = λ xs t tid e n f.
      let (l, found, id) = normal_id-eq-ok xs t tid n in
      entry_falls l (type_specifier t) e (ap (λ i. find i table.bind_map) id ∙ f);
  default = λ xs t tid e n f d. default_falls (type_specifier t) e d;
}

run_ends_example :
    run gcc sample table 4 empty_annotations (ptr plain (class_type 1)) empty_context empty_heap
    ≢ out_of_fuel
unfolding type_specifier empty_context
run_ends_example =
    run_ends gcc sample table rank table-IsRanked 4 empty_annotations (ptr plain (class_type 1))
      empty_context empty_heap (omega arith) tt

-- A request for a const pointer has the id of a request for the class.
get_bind_id_iff_example :
    (get_bind_id empty_annotations (ptr plain (named const (user_class 1))) ≡ ok (class_id 1)) ↔ (
      (label_of empty_annotations ≡ label_of empty_annotations)
      × (type_specifier (ptr plain (named const (user_class 1))) ≡ type_specifier (class_type 1))
      × (inject_type_of normal_inject empty_annotations ≡ ok normal_inject))
unfolding get_bind_id empty_annotations Annotations.entries
get_bind_id_iff_example =
    get_bind_id_iff empty_annotations empty_annotations (class_type 1)
      (ptr plain (named const (user_class 1))) (class_id 1) refl
