-- ===== src/Table/Laws.antt =====
-- What the table promises: the first binding of an id stands, every entry is owned.
use guicpp.Base.{
  ◌≡◌, refl, ◌∙◌, List, [], ◌∷◌, ◌++◌, Option, none, some, true, same, if◌then◌else◌, arith,
  same-eq, ◌↔◌, Option-cases, inl, inr,
}
use mathlib.Core.List.{reverse-append}
use guicpp.Entries.{TypeId, TypeId-discrete}
use guicpp.Table.{BindTable, add_to_cleanup_list, find, insert, find_entry, add_entry, deletions}

module _ {ℓ} {E : Type ℓ} where
  -- The map's answer, with a fallback.
  abbrev pub or_else : Option E → Option E → Option E
  or_else none o = o
  or_else (some e) o = some e

  find-append :
      (i : TypeId) (m n : List (TypeId × E)) → find i (m ++ n) ≡ or_else (find i m) (find i n)
  unfolding find
  find-append i [] n = refl
  find-append i ((j, e) ∷ m) n = ground (arith, find-append i m n)

  find-insert :
      (i j : TypeId) (e : E) (m : List (TypeId × E))
      → find j (insert i e m).0
        ≡ or_else (find j m) (if same TypeId-discrete i j then some e else none)
  unfolding insert
  find-insert i j e m = elim (Option-cases (find i m)) [
    | inl free ↦ rw (free, insert) (find-append j m ((i, e) ∷ []) ∙ refl)
    | inr (x, taken) ↦ rw (taken, insert) (ground (arith, same-eq TypeId-discrete i j))
  ]

  insert-flag :
      (i : TypeId) (e : E) (m : List (TypeId × E)) → ((insert i e m).1 ≡ true) ↔ (find i m ≡ none)
  unfolding insert
  insert-flag i e m = go (find i m) refl
    where
      go : (o : Option E) → find i m ≡ o → ((insert i e m).1 ≡ true) ↔ (find i m ≡ none)
      go none q = rw (q, insert) ((λ _. refl), λ _. refl)
      go (some x) q = rw (q, insert) ((λ h. cc), λ h. cc)

  -- After AddEntry of an entry under an id, a lookup of any id finds what it found before, or
  -- else, under the id that was added, the new entry, or else nothing.
  pub find_entry-add_entry :
      (i j : TypeId) (e : E) (t : BindTable E)
      → find_entry j (add_entry i e t).0
        ≡ or_else (find_entry j t) (if same TypeId-discrete i j then some e else none)
  unfolding find_entry add_entry
  find_entry-add_entry i j e t = find-insert i j e t.bind_map

  -- AddEntry returns true exactly when its id was not bound, and in both cases the destructor will
  -- delete the entry, before all that were added earlier.
  pub add_entry_lem :
      (i : TypeId) (e : E) (t : BindTable E)
      → ((add_entry i e t).1 ≡ true ↔ find_entry i t ≡ none)
        × (deletions (add_entry i e t).0 ≡ e ∷ deletions t)
  unfolding find_entry add_entry deletions
  add_entry_lem i e t = (insert-flag i e t.bind_map, reverse-append t.cleanup_list (e ∷ []))

  pub deletions-add_to_cleanup_list :
      (e : E) (t : BindTable E) → deletions (add_to_cleanup_list e t) ≡ e ∷ deletions t
  unfolding deletions add_to_cleanup_list
  deletions-add_to_cleanup_list e t = reverse-append t.cleanup_list (e ∷ [])
