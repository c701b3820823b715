-- ===== src/Scope/Deletions.antt =====
-- Which objects the log says were deleted, so that a second `delete` would be undefined.
use guicpp.Base.{◌≡◌, ◌≢◌, refl, List, [], ◌∷◌, false, All, same-ne, ℕ, get_elem?, some}
use guicpp.Values.{Pointer, Pointer-discrete}
use guicpp.Outcome.{ok}
use guicpp.Scope.State.{
  Store, Event, LazyProvider, deleted, was_deleted, delete_once, record_event, is_null,
}

pub delete_once_lem :
    (p : Pointer) (s : Store)
    → was_deleted p s.events ≡ false
    → delete_once p s ≡ ok (tt, record s { events = deleted p ∷ s.events })
unfolding delete_once record_event
delete_once_lem p s h = rw h refl

pub was_deleted-other :
    (p q : Pointer) (es : List Event)
    → p ≢ q
    → was_deleted p es ≡ false
    → was_deleted p (deleted q ∷ es) ≡ false
unfolding was_deleted
was_deleted-other p q es n h = rw (same-ne Pointer-discrete p q n) h

-- Pointers that are not the same and were not deleted.
abbrev pub AreFresh : List Pointer → List Event → Type 0
AreFresh [] es = Unit
AreFresh (p ∷ ps) es = (was_deleted p es ≡ false) × All (λ q. q ≢ p) ps × AreFresh ps es

pub AreFresh-weaken :
    (ps : List Pointer) (es fs : List Event)
    → All (λ p. was_deleted p es ≡ false → was_deleted p fs ≡ false) ps
    → AreFresh ps es
    → AreFresh ps fs
AreFresh-weaken [] es fs w h = tt
AreFresh-weaken (p ∷ ps) es fs w (h, apart, rest) =
    (w.0 h, apart, AreFresh-weaken ps es fs w.1 rest)

pub AreFresh-deleted :
    (ps : List Pointer) (q : Pointer) (es : List Event)
    → All (λ p. p ≢ q) ps
    → AreFresh ps es
    → AreFresh ps (deleted q ∷ es)
AreFresh-deleted [] q es n h = tt
AreFresh-deleted (p ∷ ps) q es n (h, apart, rest) =
    (was_deleted-other p q es n.0 h, apart, AreFresh-deleted ps q es n.1 rest)

-- No object has two lazy singletons that hold it, and none that is held was deleted.
pub record IsHeldOnce (s : Store) : Type 0 where
  pub one_owner :
      (i j : ℕ) (p q : LazyProvider)
      → get_elem? s.providers i ≡ some p
      → get_elem? s.providers j ≡ some q
      → is_null p.object ≡ false
      → p.object ≡ q.object
      → i ≡ j
  pub live :
      (i : ℕ) (p : LazyProvider)
      → get_elem? s.providers i ≡ some p
      → is_null p.object ≡ false
      → was_deleted p.object s.events ≡ false

-- No lazy singleton holds the object.
abbrev pub IsNotHeld : Store → Pointer → Type 0
IsNotHeld s x =
    (i : ℕ) (p : LazyProvider)
    → get_elem? s.providers i ≡ some p
    → is_null p.object ≡ false
    → p.object ≢ x
