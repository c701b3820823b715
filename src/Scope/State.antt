-- ===== src/Scope/State.antt =====
-- The store of the model: what `new` and `delete` make and end, the lazy singletons' providers, and the
-- ScopeSetupContext. Fields are those of include/guicpp/guicpp_singleton.h.
use guicpp.Base.{
  ℕ, List, [], ◌∷◌, Option, none, some, Bool, true, false, ◌||◌, ◌==◌, get_elem?, set, same,
  if◌then◌else◌,
}
use guicpp.CType.{CType}
use guicpp.Values.{Pointer, Pointer-discrete, null, the_injector, Value}
use guicpp.Outcome.{Outcome, ok, undefined, Action}

-- ScopeSetupContext: `cleanup_list` is the array of the scoped_array, a cell `none` until it is
-- written; `locked` is Mutex::locked_ of mu_.
pub record ScopeSetupContext : Type 0 where
  pub injector : Pointer
  pub init_list : List ℕ
  pub locked : Bool
  pub cleanup_list : List (Option ℕ)
  pub cleanup_list_size : ℕ

-- ScopeSetupContext::ScopeSetupContext
unfoldable pub new_context : ScopeSetupContext
new_context = record {
  injector = null;
  init_list = [];
  locked = false;
  cleanup_list = [];
  cleanup_list_size = 0;
}

-- LazySingletonProvider<T>: `called` is GoogleOnceDynamic::called_ of once_.
pub record LazyProvider : Type 0 where
  pub called : Bool
  pub injector : Pointer
  pub object : Pointer
  pub is_deleted : Bool

-- What the outside can see: an injected constructor ran, a user's provider ran, an object was deleted
-- or a user's cleanup function was called.
pub data Event : Type 0 where
  constructed : ℕ → CType → List Value → Event
  provided : ℕ → List Value → Event
  deleted : Pointer → Event
  action_called : ℕ → Pointer → Event
  cleanup_called : ℕ → Event

-- `events` is newest first; `context` is `none` where there is no ScopeSetupContext.
pub record Store : Type 0 where
  pub next_object : ℕ
  pub events : List Event
  pub providers : List LazyProvider
  pub context : Option ScopeSetupContext

unfoldable pub is_null : Pointer → Bool
is_null null = true
is_null _ = false

-- Pointers to an injector are null or the one injector.
unfoldable pub same_injector : Pointer → Pointer → Bool
same_injector null null = true
same_injector the_injector the_injector = true
same_injector _ _ = false

-- std::find on a vector of providers.
unfoldable pub member : ℕ → List ℕ → Bool
member i [] = false
member i (j ∷ r) = i == j || member i r

-- An access through a pointer that is null or dangling is undefined.
unfoldable pub get_context : Action Store ScopeSetupContext
get_context s = elim s.context [ none ↦ undefined | some c ↦ ok (c, s) ]

unfoldable pub put_context : ScopeSetupContext → Action Store (Unit {0})
put_context c s = ok (tt, record s { context = some c })

abbrev pub live : LazyProvider → Bool → Store → Outcome (LazyProvider × Store)
live p true s = undefined
live p false s = ok (p, s)

unfoldable pub get_provider : ℕ → Action Store LazyProvider
get_provider i s = elim (get_elem? s.providers i) [
  | none ↦ undefined
  | some p ↦ live p p.is_deleted s
]

unfoldable pub put_provider : ℕ → LazyProvider → Action Store (Unit {0})
put_provider i p s = ok (tt, record s { providers = set s.providers i p })

unfoldable pub record_event : Event → Action Store (Unit {0})
record_event e s = ok (tt, record s { events = e ∷ s.events })

unfoldable pub was_deleted : Pointer → List Event → Bool
unfolding Pointer-discrete
was_deleted p [] = false
was_deleted p (deleted q ∷ es) = same Pointer-discrete p q || was_deleted p es
was_deleted p (_ ∷ es) = was_deleted p es

-- `delete p` where p is not null: an object that was deleted before is undefined behaviour.
unfoldable pub delete_once : Pointer → Action Store (Unit {0})
unfolding was_deleted record_event
delete_once p s = if was_deleted p s.events then undefined else record_event (deleted p) s
