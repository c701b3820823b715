-- ===== src/Binder/Covered.antt =====
-- The bind table owns every entry that its bindings are found at.
use guicpp.Base.{Bool, ◌≡◌, refl, sym, subst, All, All-map, Has, inl, inr, List, ◌∷◌}
use guicpp.CType.{ptr, plain}
use guicpp.Values.{CleanupCall, lazy_singleton, delete_pointer}
use guicpp.Entries.{TypeId, Entry, cleanup_entry, bind_to_provider_entry}
use guicpp.Outcome.{Outcome, ok, fatal, undefined, ill_formed, out_of_fuel, Action, and_then, lift}
use guicpp.Outcome.Keeps.{Post, Keeps, IsPreorder, Keeps->>=, Keeps-lift}
use guicpp.Table
use guicpp.Table.{deletions}
use guicpp.Table.Laws.{add_entry_lem, deletions-add_to_cleanup_list}
use guicpp.Scope.State.{Store}
use guicpp.Inject.Ids.{get_bind_id}
use guicpp.Binder.{
  Binder, add_bind_entry, add_cleanup_action, on_store, new_provider, Module, configure,
}
use guicpp.Binder.Keeps.{IsFrame, any_module, configure-Keeps}
use guicpp.Binder.Registers.{insert-All}

-- Every binding's entry will be deleted.
abbrev pub IsCovered : Binder → Type 0
IsCovered b = All (λ p. Has p.1 (deletions b.table)) b.table.bind_map

abbrev pub StaysCovered : Binder → Binder → Type 0
StaysCovered b b' = IsCovered b → IsCovered b'

StaysCovered-IsPreorder : IsPreorder StaysCovered
StaysCovered-IsPreorder = record { reflexive = λ s h. h; transitive = λ s t u f g h. g (f h) }

-- More entries to delete.
covered_with :
    (e : Entry) (es fs : List Entry) (m : List (TypeId × Entry))
    → fs ≡ e ∷ es
    → All (λ p. Has p.1 es) m
    → All (λ p. Has p.1 fs) m
covered_with e es fs m q h =
    subst (λ xs. All (λ (p : TypeId × Entry). Has p.1 xs) m) (sym q) (All-map m (λ p k. inr k) h)

add_bind_entry-StaysCovered : (tid : TypeId) (e : Entry) → Keeps StaysCovered (add_bind_entry tid e)
add_bind_entry-StaysCovered tid e s =
    let grows = (add_entry_lem tid e s.table).1 in
    unfold add_bind_entry Table.add_entry Table.add_to_cleanup_list in
    λ h.
      insert-All (λ x. Has x (deletions (Table.add_entry tid e s.table).0)) tid e s.table.bind_map
        (subst (Has e) (sym grows) (inl refl))
        (covered_with e (deletions s.table) _ s.table.bind_map grows h)

add_cleanup_action-StaysCovered : (c : CleanupCall) → Keeps StaysCovered (add_cleanup_action c)
add_cleanup_action-StaysCovered c s =
    let grows = deletions-add_to_cleanup_list (cleanup_entry c) s.table in
    unfold add_cleanup_action Table.add_to_cleanup_list in
    λ h. covered_with (cleanup_entry c) (deletions s.table) _ s.table.bind_map grows h

on_store-StaysCovered : {A : Type 0} (m : Action Store A) → Keeps StaysCovered (on_store m)
on_store-StaysCovered {A} m s = go (m s.store)
  where
    go :
        (o : Outcome (A × Store))
        → Post (StaysCovered s) (and_then o λ r. ok (r.0, record s { store = r.1 }))
    go (ok r) = λ h. h
    go (fatal e) = tt
    go undefined = tt
    go ill_formed = tt
    go out_of_fuel = tt

StaysCovered-IsFrame : IsFrame (λ _. Unit) StaysCovered
StaysCovered-IsFrame = record {
  preorder = StaysCovered-IsPreorder;
  adds = λ e p h tid. add_bind_entry-StaysCovered tid e;
  cleans = λ c h. add_cleanup_action-StaysCovered c;
  makes = λ xs t u.
      Keeps->>= StaysCovered-IsPreorder (on_store new_provider) _
        (on_store-StaysCovered new_provider)
        λ i.
          Keeps->>= StaysCovered-IsPreorder (lift (get_bind_id xs (ptr plain t))) _
            (Keeps-lift StaysCovered-IsPreorder (get_bind_id xs (ptr plain t)))
            λ tid.
              add_bind_entry-StaysCovered tid
                (bind_to_provider_entry (ptr plain t) (lazy_singleton i u) delete_pointer);
}

pub configure-StaysCovered : (rtti : Bool) (m : Module) → Keeps StaysCovered (configure rtti m)
configure-StaysCovered rtti m = configure-Keeps StaysCovered-IsFrame rtti m (any_module m)
