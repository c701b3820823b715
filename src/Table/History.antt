-- ===== src/Table/History.antt =====
-- A table that a sequence of AddEntry calls fills.
use mathlib.Core.List.{reverse-cons, append-nil, append_assoc}
use guicpp.Base.{
  ◌≡◌, refl, ◌∙◌, List, [], ◌∷◌, ◌++◌, reverse, map, none, true, if◌then◌else◌, arith, same-eq,
  same_refl, ℕ, suc, ◌↔◌, ◌⊎◌, Bool-cases, inl, inr,
}
use guicpp.Entries.{TypeId, TypeId-discrete}
use guicpp.Table.{BindTable, find, empty, find_entry, add_entry, deletions}
use guicpp.Table.Laws.{or_else, find_entry-add_entry, add_entry_lem}

module _ {ℓ} {E : Type ℓ} where
  -- A history of AddEntry calls, and the number of them that are refused.
  unfoldable pub add_entries : List (TypeId × E) → BindTable E → BindTable E × ℕ
  unfolding add_entry
  add_entries [] t = (t, 0)
  add_entries ((i, e) ∷ es) t =
      let (t', added) = add_entry i e t in
      let (u, refused) = add_entries es t' in (u, if added then refused else suc refused)

  find_entry-add_entries :
      (j : TypeId) (es : List (TypeId × E)) (t : BindTable E)
      → find_entry j (add_entries es t).0 ≡ or_else (find_entry j t) (find j es)
  unfolding add_entries find
  find_entry-add_entries j [] t = ground arith
  find_entry-add_entries j ((i, e) ∷ es) t =
      ground (arith, find_entry-add_entries j es (add_entry i e t).0, find_entry-add_entry i j e t)

  deletions-add_entries :
      (es : List (TypeId × E)) (t : BindTable E)
      → deletions (add_entries es t).0 ≡ reverse (map (λ p. p.1) es) ++ deletions t
  unfolding add_entries
  deletions-add_entries [] t = refl
  deletions-add_entries ((i, e) ∷ es) t =
      deletions-add_entries es (add_entry i e t).0
      ∙ rw (
        (add_entry_lem i e t).1,
        reverse-cons e (map (λ p. p.1) es),
        append_assoc (reverse (map (λ p. p.1) es)) (e ∷ []) (deletions t),
      )

  -- The ids of the history are distinct.
  abbrev pub HasDistinctIds : List (TypeId × E) → Type ℓ
  HasDistinctIds [] = Unit
  HasDistinctIds ((i, e) ∷ es) = (find i es ≡ none) × HasDistinctIds es

  -- The table binds none of the history's ids.
  abbrev IsFresh : BindTable E → List (TypeId × E) → Type ℓ
  IsFresh t es = (j : TypeId) → (find_entry j t ≡ none) ⊎ (find j es ≡ none)

  -- What one more accepted entry leaves fresh.
  IsFresh-cons :
      (i : TypeId) (e : E) (es : List (TypeId × E)) (t : BindTable E)
      → find_entry i t ≡ none
      → IsFresh (add_entry i e t).0 es
      → IsFresh t ((i, e) ∷ es)
  unfolding find
  IsFresh-cons i e es t free fresh j =
      ground (arith, fresh j, find_entry-add_entry i j e t, same-eq TypeId-discrete i j)

  IsFresh-tail :
      (i : TypeId) (e : E) (es : List (TypeId × E)) (t : BindTable E)
      → find i es ≡ none
      → IsFresh t ((i, e) ∷ es)
      → IsFresh (add_entry i e t).0 es
  unfolding find
  IsFresh-tail i e es t once fresh j =
      ground (arith, fresh j, find_entry-add_entry i j e t, same-eq TypeId-discrete i j)

  IsFresh-head :
      (i : TypeId) (e : E) (es : List (TypeId × E)) (t : BindTable E)
      → IsFresh t ((i, e) ∷ es)
      → find_entry i t ≡ none
  unfolding find
  IsFresh-head i e es t fresh = ground (arith, fresh i, same_refl TypeId-discrete i)

  once_of_fresh :
      (i : TypeId) (e : E) (es : List (TypeId × E)) (t : BindTable E)
      → find_entry i t ≡ none
      → IsFresh (add_entry i e t).0 es
      → find i es ≡ none
  once_of_fresh i e es t free fresh =
      ground (arith, fresh i, find_entry-add_entry i i e t, same_refl TypeId-discrete i)

  distinct_of_accepted :
      (es : List (TypeId × E)) (t : BindTable E)
      → (add_entries es t).1 ≡ 0
      → HasDistinctIds es × IsFresh t es
  unfolding add_entries
  distinct_of_accepted [] t h = (tt, λ j. inr refl)
  distinct_of_accepted ((i, e) ∷ es) t h = elim (Bool-cases (add_entry i e t).1) [
    | inl added ↦
        let free : find_entry i t ≡ none = (add_entry_lem i e t).0.0 added in
        let rest = distinct_of_accepted es (add_entry i e t).0 (ground arith) in
        ((once_of_fresh i e es t free rest.1, rest.0), IsFresh-cons i e es t free rest.1)
    | inr refused ↦ absurd (ground arith)
  ]

  accepted_of_distinct :
      (es : List (TypeId × E)) (t : BindTable E)
      → HasDistinctIds es
      → IsFresh t es
      → (add_entries es t).1 ≡ 0
  unfolding add_entries
  accepted_of_distinct [] t h f = refl
  accepted_of_distinct ((i, e) ∷ es) t h f =
      let added : (add_entry i e t).1 ≡ true =
        (add_entry_lem i e t).0.1 (IsFresh-head i e es t f) in
      ground (
        arith,
        added,
        accepted_of_distinct es (add_entry i e t).0 h.1 (IsFresh-tail i e es t h.0 f),
      )

  -- A table filled from empty by a history of AddEntry calls is the map that keeps the first entry
  -- of each id; it deletes every entry that it was given, the refused ones too, once and in
  -- reverse order; and it refuses none exactly when the ids of the history are distinct.
  pub add_entries-refines :
      (es : List (TypeId × E))
      → ((j : TypeId) → find_entry j (add_entries es empty).0 ≡ find j es)
        × (deletions (add_entries es empty).0 ≡ reverse (map (λ p. p.1) es))
        × ((add_entries es empty).1 ≡ 0 ↔ HasDistinctIds es)
  unfolding empty find_entry deletions find
  add_entries-refines es = (
    λ j. find_entry-add_entries j es empty,
    deletions-add_entries es empty ∙ append-nil _,
    (
      (λ h. (distinct_of_accepted es empty h).0),
      λ h. accepted_of_distinct es empty h (λ j. inl refl),
    ),
  )
