-- ===== src/Injector/Errors.antt =====
-- Which modules CreateInjector accepts, and what it reports of the others.
use guicpp.Base.{
  ◌+◌, ℕ, zero, suc, ◌≡◌, refl, sym, ap, ◌∙◌, List, [], ◌∷◌, ◌++◌, Bool, false, same, ◌==◌, arith,
}
use mathlib.Core.List.{append-nil}
use guicpp.CType.{named, plain, scope_setup_context}
use guicpp.Annotations
use guicpp.Annotations.{normal_inject, not_labelled}
use guicpp.Entries.{TypeId, TypeId-discrete, label_helper}
use guicpp.Outcome.{
  Outcome, ok, fatal, undefined, ill_formed, out_of_fuel, injector_errors, and_then,
}
use guicpp.Outcome.Keeps.{Post-ok}
use guicpp.Table
use guicpp.Inject.Ids.{get_bind_id}
use guicpp.Binder.{Binder, Module, configure}
use guicpp.Binder.Recorded.{repeats, has_id}
use guicpp.Binder.Errors.{module_ids, configure-Records}
use guicpp.Injector.{Injector, create_injector, injector_create, wrapper_module, new_binder}
use guicpp.Injector.Created.{start_store, ok_injective}
use guicpp.Injector.SetUp.{configured-IsSetUp, wrapped-IsConfigured}

-- The id that WrapperModule binds.
abbrev pub context_id : TypeId
context_id = label_helper normal_inject not_labelled (named plain scope_setup_context)

wrap_ids :
    (m : Module)
    → module_ids (wrapper_module m)
      ≡ and_then (and_then (module_ids m) λ is. ok (is ++ [])) λ js. ok (context_id ∷ js)
unfolding module_ids wrapper_module get_bind_id Annotations.entries Annotations.annotations
    Annotations.arg_type
wrap_ids m = refl

wrapped_ids :
    (o : Outcome (List TypeId)) (ws : List TypeId)
    → and_then (and_then o λ is. ok (is ++ [])) (λ js. ok (context_id ∷ js)) ≡ ok ws
    → (is : List TypeId) × (o ≡ ok is) × (ws ≡ context_id ∷ is)
wrapped_ids (ok is) ws h =
    (is, refl, ok_injective (sym h) ∙ ap (λ js. context_id ∷ js) (append-nil is))
wrapped_ids (fatal x) ws h = cc (h)
wrapped_ids undefined ws h = cc (h)
wrapped_ids ill_formed ws h = cc (h)
wrapped_ids out_of_fuel ws h = cc (h)

from_empty :
    (is : List TypeId)
    → 0 + repeats (has_id (new_binder start_store)) (context_id ∷ is)
      ≡ repeats (same TypeId-discrete context_id) is
unfolding Table.find_entry Table.find Table.empty
from_empty is = omega arith

-- The errors of the binder with which a module was configured.
wrapper_module-errors :
    (rtti : Bool) (m : Module) (b : Binder)
    → configure rtti (wrapper_module m) (new_binder start_store) ≡ ok (tt, b)
    → (is : List TypeId) × (module_ids m ≡ ok is)
      × (b.num_errors ≡ repeats (same TypeId-discrete context_id) is)
wrapper_module-errors rtti m b h =
    let (ws, ids, recorded) =
      Post-ok _ (configure rtti (wrapper_module m) (new_binder start_store)) (tt, b)
        (configure-Records rtti (wrapper_module m) (new_binder start_store)) h in
    let (is, own, shape) = wrapped_ids (module_ids m) ws (sym (wrap_ids m) ∙ ids) in
    (
      is,
      own,
      recorded.counts
          ∙ (ap (λ xs. 0 + repeats (has_id (new_binder start_store)) xs) shape ∙ from_empty is),
    )

-- An injector if there are no errors, else their number.
abbrev pub Verdict : Outcome Injector → ℕ → Type 0
Verdict o zero = (i : Injector) × (o ≡ ok i)
Verdict o (suc n) = o ≡ fatal (injector_errors (suc n))

decided :
    (rtti : Bool) (m : Module) (b : Binder)
    → configure rtti (wrapper_module m) (new_binder start_store) ≡ ok (tt, b)
    → (n : ℕ) → b.num_errors ≡ n
    → Verdict (create_injector rtti m) n
unfolding create_injector injector_create
decided rtti m b h zero e =
    let (t, runs, _, _) = configured-IsSetUp b (wrapped-IsConfigured rtti m b h) in
    (record { table = b.table; store = t }, rw (h) (rw (e) (rw (runs) refl)))
decided rtti m b h (suc n) e =
    let some_wrong : (suc n == 0) ≡ false = ground arith in rw (h) (rw (e) (rw some_wrong refl))

-- Let Configure of the wrapped module return. Then the ids of the module's bindings are known, and
-- CreateInjector aborts with the number of those that were bound before, by an earlier binding or
-- as the context's, if there are any; otherwise it returns an injector.
pub create_injector_lem :
    (rtti : Bool) (m : Module) (b : Binder)
    → configure rtti (wrapper_module m) (new_binder start_store) ≡ ok (tt, b)
    → (is : List TypeId) × (module_ids m ≡ ok is)
      × Verdict (create_injector rtti m) (repeats (same TypeId-discrete context_id) is)
create_injector_lem rtti m b h =
    let (is, own, errors) = wrapper_module-errors rtti m b h in
    (is, own, decided rtti m b h (repeats (same TypeId-discrete context_id) is) errors)
