-- ===== src/Injector/Created.antt =====
-- The steps of a CreateInjector that returned.
use guicpp.Base.{◌≡◌, refl, ap, ◌∙◌, Bool, true, false, ◌==◌, if◌then◌else◌, some}
use guicpp.Values.{the_injector}
use guicpp.Outcome.{ok, fatal, injector_errors, and_then}
use guicpp.Outcome.Laws.{and_then-eq-ok}
use guicpp.Scope.{context_init}
use guicpp.Scope.State.{Store, new_context}
use guicpp.Binder.{Binder, Module, configure}
use guicpp.Injector.{
  Injector, create_injector, injector_create, wrapper_module, new_binder, empty_store,
}

pub ok_injective : {A : Type 0} {a b : A} → ok a ≡ ok b → a ≡ b
ok_injective h = cc

-- The store with the new context, from which the binder starts.
abbrev pub start_store : Store
start_store = record empty_store { context = some new_context }

-- A binder was configured without errors, its table taken over, and the context initialised.
pub record IsCreated (rtti : Bool) (m : Module) (i : Injector) : Type 0 where
  pub binder : Binder
  pub configured : configure rtti (wrapper_module m) (new_binder start_store) ≡ ok (tt, binder)
  pub no_errors : (binder.num_errors == 0) ≡ true
  pub same_table : binder.table ≡ i.table
  pub started : context_init the_injector binder.store ≡ ok (tt, i.store)

-- What Create made of the binder.
accepted :
    (b : Binder) (j : Injector) (t : Bool)
    → (if t
        then ok (record { table = b.table; store = b.store })
        else fatal (injector_errors b.num_errors))
      ≡ ok j
    → (t ≡ true) × (b.table ≡ j.table) × (b.store ≡ j.store)
accepted b j true e = (
  refl,
  ap (λ (x : Injector). x.table) (ok_injective e),
  ap (λ (x : Injector). x.store) (ok_injective e),
)
accepted b j false e = cc

pub create_injector-IsCreated :
    (rtti : Bool) (m : Module) (i : Injector) → create_injector rtti m ≡ ok i → IsCreated rtti m i
create_injector-IsCreated rtti m i h =
    let (j, created, set_up) =
      and_then-eq-ok (injector_create rtti (wrapper_module m) start_store)
        (λ j. and_then (context_init the_injector j.store) λ r. ok (record j { store = r.1 }))
        {b = i} (unfold create_injector in h) in
    let (r, runs, end) =
      and_then-eq-ok (context_init the_injector j.store) (λ r. ok (record j { store = r.1 }))
        {b = i} set_up in
    let (q, configured, checked) =
      and_then-eq-ok (configure rtti (wrapper_module m) (new_binder start_store))
        (λ r.
          if r.1.num_errors == 0
          then ok (record { table = r.1.table; store = r.1.store })
          else fatal (injector_errors r.1.num_errors))
        {b = j} (unfold injector_create in created) in
    let (none_wrong, table, store) = accepted q.1 j (q.1.num_errors == 0) checked in
    record {
      binder = q.1;
      configured = configured;
      no_errors = none_wrong;
      same_table = table ∙ ap (λ (x : Injector). x.table) (ok_injective end);
      started =
          ap (context_init the_injector) store
          ∙ runs
          ∙ ap (λ (s : Store). let x : Unit {0} × Store = (tt, s) in ok x)
              (ap (λ (x : Injector). x.store) (ok_injective end));
    }
