-- ===== src/Injector/Lifecycle.antt =====
-- An injector from CreateInjector to its destructor.
use guicpp.Base.{ℕ, ◌≡◌, List, true, false, some, none, All, Has, length, get_elem?}
use guicpp.CType.{CType}
use guicpp.Annotations.{Annotations}
use guicpp.Values.{null, scope_context}
use guicpp.Entries.{Entry}
use guicpp.Scope.State.{Store, LazyProvider, deleted, is_null}
use guicpp.Injector.{Injector}
use guicpp.Injector.Gets.{Gets}
use guicpp.Scope.Deletions.{AreFresh, IsHeldOnce, IsNotHeld}
use guicpp.Injector.Ended.{all_ended}

-- What is left of the scope of an injector that was deleted.
pub record IsOver (s t : Store) : Type 0 where
  pub no_context : t.context ≡ none
  pub len : length t.providers ≡ length s.providers
  pub all_deleted : All (λ p. (p.is_deleted ≡ true) × (p.object ≡ null)) t.providers
  pub no_leak :
      (i : ℕ) (p : LazyProvider)
      → get_elem? s.providers i ≡ some p
      → is_null p.object ≡ false
      → Has (deleted p.object) t.events
  pub context_deleted : Has (deleted scope_context) t.events

-- Among what the destructor ends, the objects that the lazy singletons hold and the pointers that were
-- bound with DeletePointer, nothing is there twice and nothing was deleted before.
pub record IsOwnedOnce (es : List Entry) (s : Store) : Type 0 where
  pub held : IsHeldOnce s
  pub apart : All (IsNotHeld s) (all_ended es)
  pub fresh : AreFresh (all_ended es) s.events
