-- ===== src/Binder/Bindings.antt =====
-- What holds of the entries that a module makes holds of the entries that its bindings are found at.
use guicpp.Base.{ℕ, Bool, All}
use guicpp.CType.{CType, ptr, plain}
use guicpp.Values.{CleanupCall, lazy_singleton, delete_pointer}
use guicpp.Entries.{TypeId, Entry, bind_to_provider_entry}
use guicpp.Outcome.{Outcome, ok, fatal, undefined, ill_formed, out_of_fuel, Action, and_then, lift}
use guicpp.Outcome.Keeps.{Post, Keeps, IsPreorder, Keeps->>=, Keeps-lift}
use guicpp.Table
use guicpp.Scope.State.{Store}
use guicpp.Inject.Ids.{get_bind_id}
use guicpp.Binder.{
  Binder, add_bind_entry, add_cleanup_action, on_store, new_provider, Module, configure,
}
use guicpp.Binder.Keeps.{IsFrame, ModuleHas, configure-Keeps}
use guicpp.Binder.Registers.{insert-All}

module _ (P : Entry → Type 0)
    (lazy : (i : ℕ) (t u : CType)
      → P (bind_to_provider_entry t (lazy_singleton i u) delete_pointer)) where
  -- It holds of every binding.
  abbrev pub AreAll : Binder → Type 0
  AreAll b = All (λ p. P p.1) b.table.bind_map

  abbrev pub StaysAll : Binder → Binder → Type 0
  StaysAll b b' = AreAll b → AreAll b'

  StaysAll-IsPreorder : IsPreorder StaysAll
  StaysAll-IsPreorder = record { reflexive = λ s h. h; transitive = λ s t u f g h. g (f h) }

  add_bind_entry-StaysAll : (tid : TypeId) (e : Entry) → P e → Keeps StaysAll (add_bind_entry tid e)
  add_bind_entry-StaysAll tid e p s =
      unfold add_bind_entry Table.add_entry Table.add_to_cleanup_list in
      λ h. insert-All (P) tid e s.table.bind_map p h

  add_cleanup_action-StaysAll : (c : CleanupCall) → Keeps StaysAll (add_cleanup_action c)
  add_cleanup_action-StaysAll c s = unfold add_cleanup_action Table.add_to_cleanup_list in λ h. h

  on_store-StaysAll : {A : Type 0} (m : Action Store A) → Keeps StaysAll (on_store m)
  on_store-StaysAll {A} m s = go (m s.store)
    where
      go :
          (o : Outcome (A × Store))
          → Post (StaysAll s) (and_then o λ r. ok (r.0, record s { store = r.1 }))
      go (ok r) = λ h. h
      go (fatal e) = tt
      go undefined = tt
      go ill_formed = tt
      go out_of_fuel = tt

  StaysAll-IsFrame : IsFrame P StaysAll
  StaysAll-IsFrame = record {
    preorder = StaysAll-IsPreorder;
    adds = λ e p h tid. add_bind_entry-StaysAll tid e h;
    cleans = λ c h. add_cleanup_action-StaysAll c;
    makes = λ xs t u.
        Keeps->>= StaysAll-IsPreorder (on_store new_provider) _ (on_store-StaysAll new_provider)
          λ i.
            Keeps->>= StaysAll-IsPreorder (lift (get_bind_id xs (ptr plain t))) _
              (Keeps-lift StaysAll-IsPreorder (get_bind_id xs (ptr plain t)))
              λ tid.
                add_bind_entry-StaysAll tid
                  (bind_to_provider_entry (ptr plain t) (lazy_singleton i u) delete_pointer)
                  (lazy i (ptr plain t) u);
  }

  pub configure-StaysAll :
      (rtti : Bool) (m : Module) → ModuleHas P m → Keeps StaysAll (configure rtti m)
  configure-StaysAll rtti m h = configure-Keeps StaysAll-IsFrame rtti m h
