-- ===== src/Scope.antt =====
-- The lazy singleton scope: ScopeSetupContext and LazySingletonProvider of
-- include/guicpp/guicpp_singleton.h and src/guicpp_singleton.cc, with Mutex and GoogleOnceDynamic of
-- include/guicpp/internal/guicpp_port.h. The objects live in a store, which every action is given.
pub mod State
pub mod Ends
pub mod Cleanup
pub mod Keeps
pub mod Once
pub mod SetUp
pub mod Steps
pub mod Account
pub mod Init
pub mod Empties
pub mod Deletions
pub mod Bounds
use guicpp.Base.{
  ℕ, zero, suc, ◌+◌, List, [], ◌∷◌, ◌++◌, Option, none, some, Bool, true, false, not, ◌||◌, same,
  length, get_elem?, set, replicate, if◌then◌else◌,
}
use guicpp.CType.{CType}
use guicpp.Values.{Pointer, null, Value, pointer, reference, copied, plain}
use guicpp.Outcome.{Outcome, ok, undefined, ill_formed, Action, pure, check, lift, ◌>>=◌, ◌>>◌}
use State.{
  ScopeSetupContext, LazyProvider, Store, Event, deleted, get_context, put_context, get_provider,
  put_provider, delete_once, is_null, member, same_injector,
}

-- Mutex::Lock and Mutex::Unlock
unfoldable pub lock : Action Store (Unit {0})
lock = do c ← get_context; check (not c.locked); put_context (record c { locked = true })

unfoldable pub unlock : Action Store (Unit {0})
unlock = do c ← get_context; check c.locked; put_context (record c { locked = false })

-- ScopeSetupContext::AddToInitList
unfoldable pub add_to_init_list : ℕ → Action Store (Unit {0})
unfolding get_context put_context member
add_to_init_list i = do
  c ← get_context
  check (not (member i c.init_list))
  put_context (record c { init_list = c.init_list ++ i ∷ [] })

-- LazySingletonProvider::Init
unfoldable pub provider_init : ℕ → Pointer → Action Store (Unit {0})
unfolding get_provider put_provider is_null same_injector
provider_init i injector = do
  p ← get_provider i
  check (is_null p.injector || same_injector p.injector injector)
  put_provider i (record p { injector = injector })

-- ScopeSetupContext::InvokeInitNow
unfoldable pub invoke_init_now : ℕ → Action Store (Unit {0})
unfolding get_context is_null provider_init
invoke_init_now i = do c ← get_context; check (not (is_null c.injector)); provider_init i c.injector

-- cleanup_list_[n] = i; a write behind the array is undefined.
unfoldable pub write_cell : List (Option ℕ) → ℕ → ℕ → Outcome (List (Option ℕ))
write_cell cells n i = elim (get_elem? cells n) [
  | none ↦ undefined
  | some _ ↦ ok (set cells n (some i))
]

-- ScopeSetupContext::AddToCleanupList; the lock is held to the end of the body.
unfoldable pub add_to_cleanup_list : ℕ → Action Store (Unit {0})
unfolding get_context put_context member write_cell
add_to_cleanup_list i = do
  c ← get_context
  check (member i c.init_list)
  lock
  d ← get_context
  cells ← lift (write_cell d.cleanup_list d.cleanup_list_size i)
  put_context (record d { cleanup_list = cells; cleanup_list_size = suc d.cleanup_list_size })
  unlock

-- The loop of ScopeSetupContext::Init over the rest of init_list_.
unfoldable pub init_all : List ℕ → Pointer → Action Store (Unit {0})
unfolding provider_init
init_all [] injector = pure tt
init_all (i ∷ r) injector = provider_init i injector >> init_all r injector

-- ScopeSetupContext::Init
unfoldable pub context_init : Pointer → Action Store (Unit {0})
unfolding get_context put_context init_all
context_init injector = do
  c ← get_context
  put_context (record c { injector = injector; cleanup_list = replicate (length c.init_list) none })
  init_all c.init_list injector

-- LazySingletonProvider::Cleanup: `delete` of a null pointer does nothing.
unfoldable pub provider_cleanup : ℕ → Action Store (Unit {0})
unfolding get_provider put_provider delete_once is_null
provider_cleanup i = do
  p ← get_provider i
  if is_null p.object then pure tt else delete_once p.object
  put_provider i (record p { object = null })

-- A read of cleanup_list_[n]; a cell that was never written is indeterminate.
unfoldable pub read_cell : List (Option ℕ) → ℕ → Outcome ℕ
read_cell cells n = elim (get_elem? cells n) [
  | none ↦ undefined
  | some o ↦ elim o [ none ↦ undefined | some i ↦ ok i ]
]

-- The loop of ScopeSetupContext::Cleanup, from i = n - 1 down to 0.
unfoldable pub cleanup_loop : ℕ → Action Store (Unit {0})
unfolding get_context read_cell provider_cleanup
cleanup_loop zero = pure tt
cleanup_loop (suc n) = do
  c ← get_context
  i ← lift (read_cell c.cleanup_list n)
  provider_cleanup i
  cleanup_loop n

-- ScopeSetupContext::Cleanup
unfoldable pub context_cleanup : Action Store (Unit {0})
unfolding get_context lock unlock cleanup_loop
context_cleanup = do lock; c ← get_context; cleanup_loop c.cleanup_list_size; unlock

-- What the source's types guarantee: a T* is a pointer.
unfoldable pub as_pointer : Value → Outcome Pointer
as_pointer (pointer p) = ok p
as_pointer _ = ill_formed

-- LazySingletonProvider<T>::Create up to the call of the injector, through a pointer that must not be
-- null.
unfoldable pub prepare : ℕ → Action Store (Unit {0})
unfolding invoke_init_now get_provider is_null
prepare i = do
  invoke_init_now i
  p ← get_provider i
  if is_null p.injector then lift undefined else pure tt

-- LazySingletonProvider<T>::Create behind the call of the injector.
unfoldable pub finish : ℕ → Value → Action Store (Unit {0})
unfolding as_pointer get_provider put_provider add_to_cleanup_list
finish i v = do
  object ← lift (as_pointer v)
  q ← get_provider i
  put_provider i (record q { object = object })
  add_to_cleanup_list i

-- The end of GoogleOnceDynamic::Init: called_ is set after the call.
unfoldable pub mark_called : ℕ → Action Store (Unit {0})
unfolding get_provider put_provider
mark_called i = do q ← get_provider i; put_provider i (record q { called = true })

-- The value that Get returns.
unfoldable pub get_object : ℕ → Action Store Value
unfolding get_provider
get_object i = get_provider i >>= λ p. pure (pointer p.object)

module _ (get_unscoped : Action Store Value) where
  -- LazySingletonProvider<T>::Create. `get_unscoped` is injector->Get<At<UnScoped, T*> >().
  unfoldable pub create : ℕ → Action Store (Unit {0})
  unfolding prepare finish
  create i = prepare i >> (get_unscoped >>= finish i)

  -- GoogleOnceDynamic::Init(&Create, this)
  unfoldable pub once_init : ℕ → Action Store (Unit {0})
  unfolding get_provider create mark_called
  once_init i = get_provider i >>= λ p. if p.called then pure tt else (create i >> mark_called i)

  -- LazySingletonProvider<T>::Get
  unfoldable pub provider_get : ℕ → Action Store Value
  unfolding once_init get_object
  provider_get i = once_init i >> get_object i
