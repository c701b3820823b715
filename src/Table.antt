-- ===== src/Table.antt =====
-- BindTable: include/guicpp/internal/guicpp_table.h and src/guicpp_table.cc. `bind_map_`, a std::map
-- from TypeId to entries, is an association list in the order of insertion: the code only finds and
-- inserts. The entries are values of any type E.
pub mod Laws
pub mod History
use guicpp.Base.{
  List, [], ◌∷◌, ◌++◌, reverse, Option, none, some, Bool, true, false, same, if◌then◌else◌,
}
use guicpp.Entries.{TypeId, TypeId-discrete}

pub record BindTable {ℓ} (E : Type ℓ) : Type ℓ where
  pub bind_map : List (TypeId × E)
  pub cleanup_list : List E

-- std::map::find
unfoldable pub find {ℓ} : {E : Type ℓ} → TypeId → List (TypeId × E) → Option E
find i [] = none
find i ((j, e) ∷ m) = if same TypeId-discrete j i then some e else find i m

-- std::map::insert: a key that is there keeps its value; the flag says whether the pair went in.
unfoldable pub insert {ℓ} : {E : Type ℓ} → TypeId → E → List (TypeId × E) → List (TypeId × E) × Bool
unfolding find
insert i e m = elim (find i m) [ none ↦ (m ++ (i, e) ∷ [], true) | some _ ↦ (m, false) ]

module _ {ℓ} {E : Type ℓ} where
  -- BindTable::BindTable
  unfoldable pub empty : BindTable E
  empty = record { bind_map = []; cleanup_list = [] }

  -- BindTable::FindEntry; `none` is NULL.
  unfoldable pub find_entry : TypeId → BindTable E → Option E
  unfolding find
  find_entry i t = find i t.bind_map

  -- BindTable::AddToCleanupList
  unfoldable pub add_to_cleanup_list : E → BindTable E → BindTable E
  add_to_cleanup_list e t = record t { cleanup_list = t.cleanup_list ++ e ∷ [] }

  -- BindTable::AddEntry
  unfoldable pub add_entry : TypeId → E → BindTable E → BindTable E × Bool
  unfolding add_to_cleanup_list insert
  add_entry i e t =
      let t' = add_to_cleanup_list e t in
      let (m, added) = insert i e t'.bind_map in (record t' { bind_map = m }, added)

  -- BindTable::~BindTable: the entries in the order in which they are deleted.
  unfoldable pub deletions : BindTable E → List E
  deletions t = reverse t.cleanup_list
