-- ===== src/Injector/Ownership.antt =====
-- What an injector made by CreateInjector owns, in the order in which it will be deleted.
use guicpp.Base.{ℕ, All, ◌≡◌, refl, subst, ap, ◌∙◌, List, [], ◌∷◌, ◌++◌, Bool, some}
use guicpp.CType.{CType, ptr, named, plain, scope_setup_context}
use guicpp.Annotations
use mathlib.Core.List.{reverse-append}
use guicpp.Inject.Ids.{get_bind_id}
use guicpp.Annotations.{not_annotated}
use guicpp.Values.{scope_context, delete_pointer, invoke_cleanup, lazy_singleton}
use guicpp.Entries.{TypeId, Entry, pointer_table_entry, cleanup_entry, bind_to_provider_entry}
use guicpp.Outcome.{ok}
use guicpp.Outcome.Laws.{and_then-eq-ok}
use guicpp.Outcome.Keeps.{Keeps-ok}
use guicpp.Table
use guicpp.Table.{deletions}
use guicpp.Scope.State.{Store}
use guicpp.Binder.{
  Binder, Module, configure, call, binds_to_instance, installs, adds_cleanup_action, then_call,
  done,
}
use guicpp.Binder.Keeps.{ModuleHas}
use guicpp.Binder.Owns.{Owns, configure-Owns}
use guicpp.Binder.Extends.{Extends, configure-Extends}
use guicpp.Injector.Created.{ok_injective}
use guicpp.Injector.{wrapper_module, new_binder}

-- If a module was configured with a binder, then every entry that the binder found under an id
-- before is found under it afterwards.
pub configure-find_entry :
    (rtti : Bool) (m : Module) (b b' : Binder) (i : TypeId) (e : Entry)
    → configure rtti m b ≡ ok (tt, b')
    → Table.find_entry i b.table ≡ some e
    → Table.find_entry i b'.table ≡ some e
configure-find_entry rtti m b b' i e h there =
    (Keeps-ok Extends (configure rtti m) b (tt, b') (configure-Extends rtti m) h).stands i e there

abbrev pub context_entry : Entry
context_entry =
    pointer_table_entry (ptr plain (named plain scope_setup_context)) scope_context delete_pointer

first_call :
    (rtti : Bool) (s : Store) (b : Unit {0} × Binder)
    → call rtti
        (binds_to_instance
          (not_annotated (named plain scope_setup_context))
          scope_context
          delete_pointer)
        (new_binder s)
      ≡ ok b
    → deletions b.1.table ≡ context_entry ∷ []
unfolding call get_bind_id Annotations.entries Table.empty deletions
first_call rtti s b h =
    subst (λ (x : Unit {0} × Binder). deletions x.1.table ≡ context_entry ∷ []) (ok_injective h)
      refl

last_call :
    (rtti : Bool) (c : Binder) (r : Unit {0} × Binder)
    → configure rtti (then_call (adds_cleanup_action invoke_cleanup) done) c ≡ ok r
    → deletions r.1.table ≡ cleanup_entry invoke_cleanup ∷ deletions c.table
unfolding configure deletions
last_call rtti c r h =
    subst
      (λ (x : Unit {0} × Binder).
        deletions x.1.table ≡ cleanup_entry invoke_cleanup ∷ deletions c.table)
      (ok_injective h) (reverse-append c.table.cleanup_list (cleanup_entry invoke_cleanup ∷ []))

-- What the wrapper makes the table own, of a kind `D` where the module's own entries are.
pub configure-wrapper_module :
    (D : Entry → Type 0)
    → ((i : ℕ) (t u : CType) → D (bind_to_provider_entry t (lazy_singleton i u) delete_pointer))
    → (rtti : Bool) (m : Module) (s : Store) (r : Unit {0} × Binder) → ModuleHas D m
    → configure rtti (wrapper_module m) (new_binder s) ≡ ok r
    → (owned : List Entry) × (deletions r.1.table
        ≡ cleanup_entry invoke_cleanup ∷ (owned ++ context_entry ∷ []))
      × All D owned
configure-wrapper_module D lazy rtti m s r suits h =
    let bind_context =
      binds_to_instance (not_annotated (named plain scope_setup_context)) scope_context
        delete_pointer in
    let rest = then_call (installs m) (then_call (adds_cleanup_action invoke_cleanup) done) in
    let (b, first, more) =
      and_then-eq-ok (call rtti bind_context (new_binder s)) (λ x. configure rtti rest x.1) {b = r}
        (unfold configure wrapper_module in h) in
    let (c, second, last) =
      and_then-eq-ok (configure rtti m b.1)
        (λ x. configure rtti (then_call (adds_cleanup_action invoke_cleanup) done) x.1) {b = r}
        (unfold configure call in more) in
    let grown =
      Keeps-ok (Owns D) (configure rtti m) b.1 c (configure-Owns D lazy rtti m suits) second in
    (
      grown.owned,
      last_call rtti c.1 r last
          ∙ ap (λ x. cleanup_entry invoke_cleanup ∷ x)
              (grown.deletes ∙ ap (λ x. grown.owned ++ x) (first_call rtti s b first)),
      grown.suits,
    )
