-- ===== src/Binder/Extends.antt =====
-- What a module's Configure can do to the binder: bindings stand, and errors add up.

use guicpp.Base.{ℕ, suc, ◌≤◌, ◌≡◌, refl, ◌∙◌, some, Bool, true, false, if◌then◌else◌, arith}
use guicpp.CType.{ptr, plain, CType}
use guicpp.Annotations.{Annotations}
use guicpp.Values.{CleanupCall, lazy_singleton, delete_pointer}
use guicpp.Entries.{TypeId, Entry, bind_to_provider_entry}
use guicpp.Outcome.{Outcome, ok, Action, lift, and_then, fatal, undefined, ill_formed, out_of_fuel}
use guicpp.Outcome.Keeps.{Post, Keeps, IsPreorder, Keeps->>=, Keeps-lift}
use guicpp.Table
use guicpp.Table.{BindTable, add_entry, deletions}
use guicpp.Table.Laws.{find_entry-add_entry}
use guicpp.Scope.State.{Store}
use guicpp.Inject.Ids.{get_bind_id}
use guicpp.Binder.Keeps.{IsFrame, configure-Keeps, any_module}
use guicpp.Binder.{
  Binder, add_bind_entry, bind_entry, add_cleanup_action, on_store, new_provider, Module, configure,
}

-- The later binder finds what the earlier found, and counts no fewer errors.
pub record Extends (b b' : Binder) : Type 0 where
  pub stands :
      (i : TypeId) (e : Entry)
      → Table.find_entry i b.table ≡ some e
      → Table.find_entry i b'.table ≡ some e
  pub errors_grow : b.num_errors ≤ b'.num_errors

pub Extends-IsPreorder : IsPreorder Extends
Extends-IsPreorder = record {
  reflexive = λ s. record { stands = λ i e h. h; errors_grow = omega arith };
  transitive = λ s t u a b. record {
    stands = λ i e h. b.stands i e (a.stands i e h);
    errors_grow = omega (arith, a.errors_grow, b.errors_grow);
  };
}

more_errors : (b : Bool) (n : ℕ) → n ≤ (if b then n else suc n)
more_errors true n = omega arith
more_errors false n = omega arith

add_bind_entry-Extends : (tid : TypeId) (e : Entry) → Keeps Extends (add_bind_entry tid e)
add_bind_entry-Extends tid e s =
    unfold add_bind_entry in
    record {
      stands = λ i x h. find_entry-add_entry tid i e s.table ∙ rw h refl;
      errors_grow = more_errors (add_entry tid e s.table).1 s.num_errors;
    }

bind_entry-Extends : (xs : Annotations) (t : CType) (e : Entry) → Keeps Extends (bind_entry xs t e)
bind_entry-Extends xs t e =
    Keeps->>= Extends-IsPreorder (lift (get_bind_id xs t)) (λ tid. add_bind_entry tid e)
      (Keeps-lift Extends-IsPreorder (get_bind_id xs t)) λ tid. add_bind_entry-Extends tid e

add_cleanup_action-Extends : (c : CleanupCall) → Keeps Extends (add_cleanup_action c)
add_cleanup_action-Extends c s =
    unfold add_cleanup_action Table.add_to_cleanup_list Table.find_entry deletions in
    record { stands = λ i x h. h; errors_grow = omega arith }

on_store-Extends : {A : Type 0} (m : Action Store A) → Keeps Extends (on_store m)
on_store-Extends {A} m s = go (m s.store)
  where
    go :
        (o : Outcome (A × Store))
        → Post (Extends s) (and_then o λ r. ok (r.0, record s { store = r.1 }))
    go (ok r) = record { stands = λ i e h. h; errors_grow = omega arith }
    go (fatal e) = tt
    go undefined = tt
    go ill_formed = tt
    go out_of_fuel = tt

-- What the calls of a module keep.
Extends-IsFrame : IsFrame (λ _. Unit) Extends
Extends-IsFrame = record {
  preorder = Extends-IsPreorder;
  adds = λ e p h tid. add_bind_entry-Extends tid e;
  cleans = λ c h. add_cleanup_action-Extends c;
  makes = λ xs t u.
      Keeps->>= Extends-IsPreorder (on_store new_provider) _ (on_store-Extends new_provider) λ i.
        bind_entry-Extends xs (ptr plain t)
          (bind_to_provider_entry (ptr plain t) (lazy_singleton i u) delete_pointer);
}

pub configure-Extends : (rtti : Bool) (m : Module) → Keeps Extends (configure rtti m)
configure-Extends rtti m = configure-Keeps Extends-IsFrame rtti m (any_module m)
