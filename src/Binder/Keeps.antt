-- ===== src/Binder/Keeps.antt =====
-- What every call of the binder keeps, if the additions of an entry, of a cleanup action and of a lazy
-- singleton keep it.

use guicpp.Base.{ℕ, ◌≡◌, refl, List, [], ◌∷◌, Option, none, some, Bool, same, if◌then◌else◌}
use guicpp.CType.{CType, ptr, plain, named, scope_setup_context, ref}
use guicpp.Annotations.{
  Annotated, Annotations, annotations, arg_type, actual_type, not_annotated, at, label,
}
use guicpp.Values.{CleanupCall, null, lazy_singleton, user_provider, delete_pointer}
use guicpp.Entries.{
  TypeId, Entry, get_bind_type, bind_to_instance, BindType-discrete, cleanup_entry,
  pointer_table_entry, bind_to_type_entry, value_table_entry, reference_table_entry,
  bind_to_provider_entry,
}
use guicpp.Outcome.{ok, lift, pure, fail, ◌>>=◌, not_bound_to_instance}
use guicpp.Outcome.Keeps.{Keeps, IsPreorder, Keeps->>=, Keeps-lift, Keeps-if}
use guicpp.Table
use guicpp.Table.{BindTable, add_entry, deletions}
use guicpp.Reader.{read}
use guicpp.Reader.Keeps.{read-Keeps}
use guicpp.Scope.{as_pointer}
use guicpp.Scope.State.{is_null}
use guicpp.Inject.Ids.{get_bind_id, label_of}
use guicpp.Binder.{
  Binder, add_bind_entry, bind_entry, bind, bind_value_type, bind_to_instance_of, bind_to_value,
  bind_ref_to_pointed, bind_to_provider, bind_value_to_provider, add_cleanup_action,
  get_bound_instance, instance_get, on_store, new_provider, configure_scope, bind_to_scope, Call,
  Module, call, configure, binds, binds_value_type, binds_to_instance, binds_to_value,
  binds_ref_to_pointed, binds_to_provider, binds_value_to_provider, binds_to_scope,
  adds_cleanup_action, installs, done, then_call,
}

instance_get-Keeps :
    {R : Binder → Binder → Type 0} → IsPreorder R → (e : Entry) → Keeps R (instance_get e)
instance_get-Keeps preorder (pointer_table_entry t p a) = preorder.reflexive
instance_get-Keeps preorder _ = λ s. tt

pub get_bound_instance-Keeps :
    {R : Binder → Binder → Type 0}
    → IsPreorder R
    → (rtti : Bool) (t : Annotated) → Keeps R (get_bound_instance rtti t)
unfolding get_bound_instance
get_bound_instance-Keeps {R} preorder rtti t =
    Keeps->>= preorder (lift (get_bind_id (annotations t) (ptr plain (arg_type t)))) _
      (Keeps-lift preorder _)
      λ tid.
        Keeps->>= preorder (λ s. ok (s, s)) _ preorder.reflexive
          λ b. found (Table.find_entry tid b.table)
  where
    found :
        (o : Option Entry)
        → Keeps R (elim o [
          | none ↦ pure null
          | some e ↦
              if same BindType-discrete (get_bind_type e) bind_to_instance
              then (read rtti instance_get (ptr plain (arg_type t)) e >>= λ v. lift (as_pointer v))
              else fail not_bound_to_instance
        ])
    found none = preorder.reflexive
    found (some e) =
        Keeps-if R (same BindType-discrete (get_bind_type e) bind_to_instance) _ _
          (Keeps->>= preorder (read rtti instance_get (ptr plain (arg_type t)) e)
            (λ v. lift (as_pointer v))
            (read-Keeps preorder rtti instance_get e (instance_get-Keeps preorder e)
              (ptr plain (arg_type t)))
            λ v. Keeps-lift preorder (as_pointer v))
          (λ s. tt)

-- The lazy singletons' providers that the entries own.
unfoldable pub lazies : List Entry → List ℕ
lazies [] = []
lazies (bind_to_provider_entry t (lazy_singleton i u) a ∷ es) = i ∷ lazies es
lazies (_ ∷ es) = lazies es

-- An entry that owns no lazy singleton.
abbrev pub IsPlain : Entry → Type 0
IsPlain e = lazies (e ∷ []) ≡ []

-- An addition of an entry under an id.
abbrev pub Adds : (Binder → Binder → Type 0) → Entry → Type 0
Adds R e = (tid : TypeId) → Keeps R (add_bind_entry tid e)

-- A preorder that the binder's steps keep, as long as `P` holds of the entries that the module makes.
pub record IsFrame (P : Entry → Type 0) (R : Binder → Binder → Type 0) : Type 0 where
  pub preorder : IsPreorder R
  pub adds : (e : Entry) → IsPlain e → P e → Adds R e
  pub cleans : (c : CleanupCall) → P (cleanup_entry c) → Keeps R (add_cleanup_action c)
  pub makes :
      (xs : Annotations) (t u : CType)
      → Keeps R (
          on_store new_provider >>= λ i.
          bind_entry xs
            (ptr plain t)
            (bind_to_provider_entry (ptr plain t) (lazy_singleton i u) delete_pointer))

-- The entries that a module makes, without those of the lazy singletons, satisfy `P`.
unfoldable mutual
  pub CallHas : (Entry → Type 0) → Call → Type 0
  CallHas P (binds t d) =
      P (bind_to_type_entry (ptr plain (arg_type t)) (annotations d) (ptr plain (arg_type d)))
  CallHas P (binds_value_type t d) =
      P (bind_to_type_entry (actual_type t) (annotations d) (actual_type d))
  CallHas P (binds_to_instance t p a) = P (pointer_table_entry (ptr plain (arg_type t)) p a)
  CallHas P (binds_to_value t v) = P (value_table_entry (actual_type t) v)
  CallHas P (binds_ref_to_pointed t p a) = P (reference_table_entry (ref (arg_type t)) p a)
  CallHas P (binds_to_provider t n a) =
      P (bind_to_provider_entry (ptr plain (arg_type t)) (user_provider n) a)
  CallHas P (binds_value_to_provider t n a) =
      P (bind_to_provider_entry (actual_type t) (user_provider n) a)
  CallHas P (binds_to_scope t) = Unit
  CallHas P (adds_cleanup_action c) = P (cleanup_entry c)
  CallHas P (installs m) = ModuleHas P m

  pub ModuleHas : (Entry → Type 0) → Module → Type 0
  ModuleHas P done = Unit
  ModuleHas P (then_call c m) = CallHas P c × ModuleHas P m

module _ {P : Entry → Type 0} {R : Binder → Binder → Type 0} (frame : IsFrame P R) where
  bind_entry-Keeps :
      (xs : Annotations) (t : CType) (e : Entry) → IsPlain e → P e → Keeps R (bind_entry xs t e)
  bind_entry-Keeps xs t e p h =
      Keeps->>= frame.preorder (lift (get_bind_id xs t)) (λ tid. add_bind_entry tid e)
        (Keeps-lift frame.preorder (get_bind_id xs t)) λ tid. frame.adds e p h tid

  configure_scope-Keeps :
      (rtti : Bool) (xs : Annotations) (t : CType) → Keeps R (configure_scope rtti xs t)
  unfolding configure_scope bind_to_provider
  configure_scope-Keeps rtti xs t =
      Keeps->>= frame.preorder (lift (label_of xs)) _ (Keeps-lift frame.preorder (label_of xs)) λ l.
        Keeps->>= frame.preorder
          (get_bound_instance rtti (not_annotated (named plain scope_setup_context))) _
          (get_bound_instance-Keeps frame.preorder rtti
            (not_annotated (named plain scope_setup_context)))
          λ c.
            Keeps-if R (is_null c) _ _ (λ s. tt)
              (frame.makes (annotations (at (label l) t)) (arg_type (at (label l) t)) t)

  mutual
    unfolding call configure bind_to_scope bind bind_value_type bind_to_instance_of bind_to_value
        bind_ref_to_pointed bind_to_provider bind_value_to_provider CallHas ModuleHas lazies

    call-Keeps : (rtti : Bool) (c : Call) → CallHas P c → Keeps R (call rtti c)
    call-Keeps rtti (binds t d) h =
        bind_entry-Keeps (annotations t) (ptr plain (arg_type t)) _ refl h
    call-Keeps rtti (binds_value_type t d) h =
        bind_entry-Keeps (annotations t) (actual_type t) _ refl h
    call-Keeps rtti (binds_to_instance t p a) h =
        bind_entry-Keeps (annotations t) (ptr plain (arg_type t)) _ refl h
    call-Keeps rtti (binds_to_value t v) h =
        bind_entry-Keeps (annotations t) (actual_type t) _ refl h
    call-Keeps rtti (binds_ref_to_pointed t p a) h =
        bind_entry-Keeps (annotations t) (ref (arg_type t)) _ refl h
    call-Keeps rtti (binds_to_provider t n a) h =
        bind_entry-Keeps (annotations t) (ptr plain (arg_type t)) _ refl h
    call-Keeps rtti (binds_value_to_provider t n a) h =
        bind_entry-Keeps (annotations t) (actual_type t) _ refl h
    call-Keeps rtti (binds_to_scope t) h = configure_scope-Keeps rtti (annotations t) (arg_type t)
    call-Keeps rtti (adds_cleanup_action c) h = frame.cleans c h
    call-Keeps rtti (installs m) h = configure-Keeps rtti m h

    pub configure-Keeps : (rtti : Bool) (m : Module) → ModuleHas P m → Keeps R (configure rtti m)
    configure-Keeps rtti done h = frame.preorder.reflexive
    configure-Keeps rtti (then_call c m) h =
        Keeps->>= frame.preorder (call rtti c) (λ _. configure rtti m) (call-Keeps rtti c h.0)
          λ _. configure-Keeps rtti m h.1

-- Where nothing is asked of the entries, every module will do.
mutual
  unfolding CallHas ModuleHas

  any_call : (c : Call) → CallHas (λ _. Unit) c
  any_call (binds t d) = tt
  any_call (binds_value_type t d) = tt
  any_call (binds_to_instance t p a) = tt
  any_call (binds_to_value t v) = tt
  any_call (binds_ref_to_pointed t p a) = tt
  any_call (binds_to_provider t n a) = tt
  any_call (binds_value_to_provider t n a) = tt
  any_call (binds_to_scope t) = tt
  any_call (adds_cleanup_action c) = tt
  any_call (installs m) = any_module m

  pub any_module : (m : Module) → ModuleHas (λ _. Unit) m
  any_module done = tt
  any_module (then_call c m) = (any_call c, any_module m)
