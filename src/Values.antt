-- ===== src/Values.antt =====
-- What the injector hands about: pointers, values, and the actions that are taken at cleanup.
use guicpp.Base.{ℕ, ℕ_discrete}
use guicpp.CType.{CType}
use guicpp.Annotations.{Annotations}

-- A provider object: the n-th LazySingletonProvider<T> in the order of binding, or one that the user
-- wrote.
pub data Provider : Type 0 where
  lazy_singleton : ℕ → CType → Provider
  user_provider : ℕ → Provider

-- `object n` is the n-th object made by an injected constructor, `user_object n` one that user code
-- made; `factory xs n` is a RealFactory for the factory class n, made for a request annotated xs.
pub data Pointer : Type 0 where
  null scope_context the_injector : Pointer
  object user_object : ℕ → Pointer
  provider_object : Provider → Pointer
  factory_object : Annotations → ℕ → Pointer

-- Two RealFactories that were made for the same request are one pointer here.
unfoldable pub Pointer-discrete : Discrete Pointer
Pointer-discrete = hlevel ℕ_discrete

-- `plain n` is a value, and `copied p` one that was copied from the object that p points to.
pub data Value : Type 0 where
  pointer reference copied : Pointer → Value
  plain : ℕ → Value

-- The CleanupAction of a binding: DeletePointer, DoNothing, or a function of the user's.
pub data CleanupAction : Type 0 where
  delete_pointer do_nothing : CleanupAction
  user_action : ℕ → CleanupAction

-- What AddCleanupAction registers: InvokeCleanup of guicpp_tools.cc, or a function of the user's.
pub data CleanupCall : Type 0 where
  invoke_cleanup : CleanupCall
  user_cleanup : ℕ → CleanupCall
