-- ===== src/Tests/Witnesses.antt =====
-- The theorems at concrete inputs: the tables and contexts of testing/test/guicpp_table_test.cc,
-- guicpp_local_context_test.cc and guicpp_singleton_test.cc.
use guicpp.Base.{ℕ, ◌≡◌, ◌↔◌, List, [], ◌∷◌, reverse, map, none, some, true, same, if◌then◌else◌}
use guicpp.CType.{named, ref, plain, const, user_class, primitive}
use guicpp.CType.Info.{is_const, referred_type}
use guicpp.CType.Info.Laws.{is_const-has_const, has_const}
use guicpp.Annotations.{
  label, inject, user_label, not_labelled, assisted, at2, label_type, annotations, get_at,
}
use guicpp.Annotations.Laws.{get_at-swap}
use guicpp.Values.{plain as plain_value}
use guicpp.Entries.{TypeId, TypeId-discrete, factory_argument_entry}
use guicpp.Outcome.{ok}
use guicpp.Table
use guicpp.Table.{BindTable, empty, add_entry, deletions, find}
use guicpp.Table.Laws.{or_else, find_entry-add_entry, add_entry_lem}
use guicpp.Table.History.{add_entries, HasDistinctIds, add_entries-refines}
use guicpp.LocalContext
use guicpp.LocalContext.{TypeIdArgumentPair, LocalContext, empty_context}
use guicpp.LocalContext.Laws.{first_match, find_entry-first_match}
use guicpp.Tests.Sample.{class_type, class_id, int_id}

-- Two entries for one id, and one for another.
abbrev history : List (TypeId × ℕ)
history = (class_id 1, 10) ∷ (int_id, 20) ∷ (class_id 1, 30) ∷ []

add_entries-refines_example :
    ((j : TypeId) → Table.find_entry j (add_entries history empty).0 ≡ find j history)
    × (deletions (add_entries history empty).0 ≡ reverse (map (λ p. p.1) history))
    × ((add_entries history empty).1 ≡ 0 ↔ HasDistinctIds history)
add_entries-refines_example = add_entries-refines history

abbrev small_table : BindTable ℕ
small_table = record { bind_map = (class_id 1, 10) ∷ []; cleanup_list = 10 ∷ [] }

find_entry-add_entry_example :
    Table.find_entry (class_id 1) (add_entry (class_id 1) 30 small_table).0
    ≡ or_else
        (Table.find_entry (class_id 1) small_table)
        (if same TypeId-discrete (class_id 1) (class_id 1) then some 30 else none)
find_entry-add_entry_example = find_entry-add_entry (class_id 1) (class_id 1) 30 small_table

add_entry_lem_example :
    ((add_entry (class_id 1) 30 small_table).1 ≡ true
      ↔ Table.find_entry (class_id 1) small_table ≡ none)
    × (deletions (add_entry (class_id 1) 30 small_table).0 ≡ 30 ∷ deletions small_table)
add_entry_lem_example = add_entry_lem (class_id 1) 30 small_table

abbrev int_argument : ℕ → TypeIdArgumentPair
int_argument n = record {
  type_id = int_id;
  entry = factory_argument_entry (named plain (primitive 0)) (plain_value n);
}

find_entry-first_match_example :
    LocalContext.find_entry int_id
      (record { args = int_argument 5 ∷ int_argument 6 ∷ []; num_args = 2 })
    ≡ ok (first_match int_id (int_argument 5 ∷ int_argument 6 ∷ []))
find_entry-first_match_example =
    find_entry-first_match int_id (int_argument 5 ∷ int_argument 6 ∷ [])

get_at-swap_example :
    get_at
      (annotations (at2 (label (user_label 1)) (inject assisted) (class_type 1)))
      label_type
      (label not_labelled)
    ≡ get_at
        (annotations (at2 (inject assisted) (label (user_label 1)) (class_type 1)))
        label_type
        (label not_labelled)
get_at-swap_example =
    get_at-swap (label (user_label 1)) (inject assisted) (class_type 1) label_type
      (label not_labelled)

is_const-has_const_example :
    is_const (ref (named const (user_class 1)))
    ≡ has_const (referred_type (ref (named const (user_class 1))))
is_const-has_const_example = is_const-has_const (ref (named const (user_class 1)))
