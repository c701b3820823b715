-- ===== src/Binder/Errors.antt =====
-- The errors that a binder counts: the bindings whose id was bound before.
use guicpp.Base.{◌≡◌, refl, List, [], ◌∷◌, ◌++◌, Bool, true, false, if◌then◌else◌, arith}
use guicpp.CType.{CType, ptr, plain, named, scope_setup_context, ref}
use guicpp.Annotations.{
  Annotations, annotations, arg_type, actual_type, not_annotated, at, label, Label,
}
use guicpp.Values.{CleanupCall, lazy_singleton, delete_pointer}
use guicpp.Entries.{TypeId, Entry, bind_to_provider_entry}
use guicpp.Outcome.{
  Outcome, ok, fatal, undefined, ill_formed, out_of_fuel, fail, no_scope_context, and_then, Action,
  lift, ◌>>=◌,
}
use guicpp.Outcome.Keeps.{Post}
use guicpp.Table
use guicpp.Table.{BindTable, add_entry}
use guicpp.Scope.State.{is_null}
use guicpp.Inject.Ids.{get_bind_id, label_of}
use guicpp.Binder.{
  Binder, add_bind_entry, bind_entry, bind, bind_value_type, bind_to_instance_of, bind_to_value,
  bind_ref_to_pointed, bind_to_provider, bind_value_to_provider, add_cleanup_action,
  get_bound_instance, on_store, new_provider, configure_scope, bind_to_scope, Call, Module, call,
  configure, binds, binds_value_type, binds_to_instance, binds_to_value, binds_ref_to_pointed,
  binds_to_provider, binds_value_to_provider, binds_to_scope, adds_cleanup_action, installs, done,
  then_call,
}
use guicpp.Binder.Keeps.{get_bound_instance-Keeps}
use guicpp.Binder.Recorded.{
  has_id, Recorded, Records, Recorded-none, then-Records, Records->>=, on_store-Same,
  Same-IsPreorder, add_bind_entry-Recorded, or_false,
}

abbrev one_id : Outcome TypeId → Outcome (List TypeId)
one_id o = and_then o λ i. ok (i ∷ [])

-- The ids that a module binds, in order; an id that has no type id does not compile.
unfoldable mutual
  pub call_ids : Call → Outcome (List TypeId)
  call_ids (binds t d) = one_id (get_bind_id (annotations t) (ptr plain (arg_type t)))
  call_ids (binds_value_type t d) = one_id (get_bind_id (annotations t) (actual_type t))
  call_ids (binds_to_instance t p a) = one_id (get_bind_id (annotations t) (ptr plain (arg_type t)))
  call_ids (binds_to_value t v) = one_id (get_bind_id (annotations t) (actual_type t))
  call_ids (binds_ref_to_pointed t p a) = one_id (get_bind_id (annotations t) (ref (arg_type t)))
  call_ids (binds_to_provider t n a) = one_id (get_bind_id (annotations t) (ptr plain (arg_type t)))
  call_ids (binds_value_to_provider t n a) = one_id (get_bind_id (annotations t) (actual_type t))
  call_ids (binds_to_scope t) = and_then (label_of (annotations t)) λ l. one_id (
      get_bind_id (annotations (at (label l) (arg_type t)))
        (ptr plain (arg_type (at (label l) (arg_type t)))))
  call_ids (adds_cleanup_action c) = ok []
  call_ids (installs m) = module_ids m

  pub module_ids : Module → Outcome (List TypeId)
  module_ids done = ok []
  module_ids (then_call c m) =
      and_then (call_ids c) λ is. and_then (module_ids m) λ js. ok (is ++ js)

bind_entry-Records :
    (xs : Annotations) (t : CType) (e : Entry)
    → Records (one_id (get_bind_id xs t)) (bind_entry xs t e)
unfolding add_bind_entry
bind_entry-Records xs t e b = go (get_bind_id xs t)
  where
    go :
        (o : Outcome TypeId)
        → Post
            (λ b'. (is : List TypeId) × (one_id o ≡ ok is) × Recorded is b b')
            ((lift o >>= λ tid. add_bind_entry tid e) b)
    go (ok tid) = (tid ∷ [], refl, add_bind_entry-Recorded tid e b)
    go (fatal x) = tt
    go undefined = tt
    go ill_formed = tt
    go out_of_fuel = tt

add_cleanup_action-Records : (c : CleanupCall) → Records (ok []) (add_cleanup_action c)
unfolding add_cleanup_action Table.add_to_cleanup_list Table.find_entry
add_cleanup_action-Records c b =
    ([], refl, record { counts = omega arith; finds = λ i. or_false (has_id b i) })

-- ConfigureScope behind the label.
abbrev scoped : Bool → CType → Label → Action Binder (Unit {0})
scoped rtti t l = get_bound_instance rtti (not_annotated (named plain scope_setup_context)) >>= λ c.
    if is_null c
    then fail no_scope_context
    else on_store new_provider >>= λ i.
        bind_to_provider (at (label l) t) (lazy_singleton i t) delete_pointer

scoped-Records :
    (rtti : Bool) (t : CType) (l : Label)
    → Records
        (one_id
          (get_bind_id (annotations (at (label l) t)) (ptr plain (arg_type (at (label l) t)))))
        (scoped rtti t l)
unfolding bind_to_provider
scoped-Records rtti t l =
    Records->>= _ (get_bound_instance rtti (not_annotated (named plain scope_setup_context))) _
      (get_bound_instance-Keeps Same-IsPreorder rtti
        (not_annotated (named plain scope_setup_context)))
      λ c. found (is_null c)
  where
    found :
        (n : Bool)
        → Records
            (one_id
              (get_bind_id (annotations (at (label l) t)) (ptr plain (arg_type (at (label l) t)))))
            (if n
              then fail no_scope_context
              else on_store new_provider >>= λ i.
                  bind_to_provider (at (label l) t) (lazy_singleton i t) delete_pointer)
    found true = λ b. tt
    found false = Records->>= _ (on_store new_provider) _ (on_store-Same new_provider) λ i.
        bind_entry-Records (annotations (at (label l) t)) (ptr plain (arg_type (at (label l) t))) (
          bind_to_provider_entry (ptr plain (arg_type (at (label l) t))) (lazy_singleton i t)
            delete_pointer)

configure_scope-Records :
    (rtti : Bool) (xs : Annotations) (t : CType)
    → Records
        (and_then (label_of xs) λ l.
          one_id
            (get_bind_id (annotations (at (label l) t)) (ptr plain (arg_type (at (label l) t)))))
        (configure_scope rtti xs t)
unfolding configure_scope
configure_scope-Records rtti xs t = go (label_of xs)
  where
    go :
        (o : Outcome Label)
        → Records
            (and_then o λ l.
              one_id (
                get_bind_id (annotations (at (label l) t)) (ptr plain (arg_type (at (label l) t)))))
            (lift o >>= scoped rtti t)
    go (ok l) = scoped-Records rtti t l
    go (fatal x) = λ b. tt
    go undefined = λ b. tt
    go ill_formed = λ b. tt
    go out_of_fuel = λ b. tt

mutual
  unfolding call configure bind_to_scope bind bind_value_type bind_to_instance_of bind_to_value
      bind_ref_to_pointed bind_to_provider bind_value_to_provider call_ids module_ids

  call-Records : (rtti : Bool) (c : Call) → Records (call_ids c) (call rtti c)
  call-Records rtti (binds t d) = bind_entry-Records (annotations t) (ptr plain (arg_type t)) _
  call-Records rtti (binds_value_type t d) = bind_entry-Records (annotations t) (actual_type t) _
  call-Records rtti (binds_to_instance t p a) =
      bind_entry-Records (annotations t) (ptr plain (arg_type t)) _
  call-Records rtti (binds_to_value t v) = bind_entry-Records (annotations t) (actual_type t) _
  call-Records rtti (binds_ref_to_pointed t p a) =
      bind_entry-Records (annotations t) (ref (arg_type t)) _
  call-Records rtti (binds_to_provider t n a) =
      bind_entry-Records (annotations t) (ptr plain (arg_type t)) _
  call-Records rtti (binds_value_to_provider t n a) =
      bind_entry-Records (annotations t) (actual_type t) _
  call-Records rtti (binds_to_scope t) = configure_scope-Records rtti (annotations t) (arg_type t)
  call-Records rtti (adds_cleanup_action c) = add_cleanup_action-Records c
  call-Records rtti (installs m) = configure-Records rtti m

  pub configure-Records : (rtti : Bool) (m : Module) → Records (module_ids m) (configure rtti m)
  configure-Records rtti done = λ b. ([], refl, Recorded-none b)
  configure-Records rtti (then_call c m) =
      then-Records (call_ids c) (module_ids m) (call rtti c) (configure rtti m)
        (call-Records rtti c) (configure-Records rtti m)
