-- ===== src/Binder/Owns.antt =====
-- What a module's Configure makes the table own: entries that are deleted in reverse order, each of the
-- kind that the module's calls ask for.
use mathlib.Core.List.{append_assoc}
use guicpp.Base.{ℕ, ◌≡◌, refl, sym, ap, ◌∙◌, List, [], ◌∷◌, ◌++◌, Bool, All, All-append}
use guicpp.CType.{ptr, plain, CType}
use guicpp.Values.{CleanupCall, lazy_singleton, delete_pointer}
use guicpp.Entries.{TypeId, Entry, cleanup_entry, bind_to_provider_entry}
use guicpp.Outcome.{Outcome, ok, fatal, undefined, ill_formed, out_of_fuel, Action, lift, and_then}
use guicpp.Outcome.Keeps.{Post, Keeps, IsPreorder, Keeps->>=, Keeps-lift}
use guicpp.Table.{deletions}
use guicpp.Table.Laws.{add_entry_lem, deletions-add_to_cleanup_list}
use guicpp.Scope.State.{Store}
use guicpp.Inject.Ids.{get_bind_id}
use guicpp.Binder.{
  Binder, add_bind_entry, add_cleanup_action, on_store, new_provider, Module, configure,
}
use guicpp.Binder.Keeps.{IsFrame, ModuleHas, configure-Keeps}

module _ (D : Entry → Type 0) where
  -- The later binder will delete new entries with `D` before what the earlier would delete.
  pub record Owns (b b' : Binder) : Type 0 where
    pub owned : List Entry
    pub deletes : deletions b'.table ≡ owned ++ deletions b.table
    pub suits : All D owned

  Owns-IsPreorder : IsPreorder Owns
  Owns-IsPreorder = record {
    reflexive = λ s. record { owned = []; deletes = refl; suits = tt };
    transitive = λ s t u a b. record {
      owned = b.owned ++ a.owned;
      deletes =
          b.deletes
          ∙ (ap (λ x. b.owned ++ x) a.deletes
              ∙ sym (append_assoc b.owned a.owned (deletions s.table)));
      suits = All-append D b.owned a.owned b.suits a.suits;
    };
  }

  add_bind_entry-Owns : (tid : TypeId) (e : Entry) → D e → Keeps Owns (add_bind_entry tid e)
  add_bind_entry-Owns tid e d s =
      unfold add_bind_entry in
      record { owned = e ∷ []; deletes = (add_entry_lem tid e s.table).1; suits = (d, tt) }

  add_cleanup_action-Owns :
      (c : CleanupCall) → D (cleanup_entry c) → Keeps Owns (add_cleanup_action c)
  add_cleanup_action-Owns c d s =
      unfold add_cleanup_action in
      record {
        owned = cleanup_entry c ∷ [];
        deletes = deletions-add_to_cleanup_list (cleanup_entry c) s.table;
        suits = (d, tt);
      }

  on_store-Owns : {A : Type 0} (m : Action Store A) → Keeps Owns (on_store m)
  on_store-Owns {A} m s = go (m s.store)
    where
      go :
          (o : Outcome (A × Store))
          → Post (Owns s) (and_then o λ r. ok (r.0, record s { store = r.1 }))
      go (ok r) = record { owned = []; deletes = refl; suits = tt }
      go (fatal e) = tt
      go undefined = tt
      go ill_formed = tt
      go out_of_fuel = tt

  -- `D` holds of every lazy singleton's entry.
  module _
      (lazy : (i : ℕ) (t u : CType)
        → D (bind_to_provider_entry t (lazy_singleton i u) delete_pointer)) where
    Owns-IsFrame : IsFrame D Owns
    Owns-IsFrame = record {
      preorder = Owns-IsPreorder;
      adds = λ e p d tid. add_bind_entry-Owns tid e d;
      cleans = λ c d. add_cleanup_action-Owns c d;
      makes = λ xs t u.
          Keeps->>= Owns-IsPreorder (on_store new_provider) _ (on_store-Owns new_provider) λ i.
            Keeps->>= Owns-IsPreorder (lift (get_bind_id xs (ptr plain t))) _
              (Keeps-lift Owns-IsPreorder (get_bind_id xs (ptr plain t)))
              λ tid.
                add_bind_entry-Owns tid
                  (bind_to_provider_entry (ptr plain t) (lazy_singleton i u) delete_pointer)
                  (lazy i (ptr plain t) u);
    }

    pub configure-Owns : (rtti : Bool) (m : Module) → ModuleHas D m → Keeps Owns (configure rtti m)
    configure-Owns rtti m h = configure-Keeps Owns-IsFrame rtti m h
