-- ===== src/Scope/Ends.antt =====
-- The actions of the scope have no unbounded recursion of their own.
use guicpp.Base.{ℕ, arith}
use guicpp.Values.{Value, Pointer}
use guicpp.Outcome.{Action, pure}
use guicpp.Outcome.Laws.{Ends, Ends->>=, Ends-if}
use guicpp.Scope.State.{Store, get_context, get_provider}
use guicpp.Scope.{
  invoke_init_now, provider_init, lock, unlock, add_to_cleanup_list, prepare, finish, mark_called,
  get_object, create, once_init, provider_get,
}

get_provider-Ends : (i : ℕ) → Ends (get_provider i)
unfolding get_provider
get_provider-Ends i s = ground arith

get_context-Ends : Ends get_context
unfolding get_context
get_context-Ends s = ground arith

provider_init-Ends : (i : ℕ) (p : Pointer) → Ends (provider_init i p)
unfolding provider_init
provider_init-Ends i p s = ground arith

prepare-Ends : (i : ℕ) → Ends (prepare i)
unfolding prepare invoke_init_now
prepare-Ends i s = ground arith

add_to_cleanup_list-Ends : (i : ℕ) → Ends (add_to_cleanup_list i)
unfolding add_to_cleanup_list lock unlock
add_to_cleanup_list-Ends i s = ground arith

finish-Ends : (i : ℕ) (v : Value) → Ends (finish i v)
unfolding finish lock unlock
finish-Ends i v s = ground arith

mark_called-Ends : (i : ℕ) → Ends (mark_called i)
unfolding mark_called
mark_called-Ends i s = ground arith

get_object-Ends : (i : ℕ) → Ends (get_object i)
unfolding get_object
get_object-Ends i s = ground arith

-- A provider's Get ends if the request that it makes ends.
pub provider_get-Ends : (m : Action Store Value) (i : ℕ) → Ends m → Ends (provider_get m i)
unfolding provider_get once_init create
provider_get-Ends m i h =
    Ends->>= (once_init m i) (λ _. get_object i)
      (Ends->>= (get_provider i) _ (get_provider-Ends i) λ p.
        Ends-if p.called (pure tt) _ (λ s q. cc)
          (Ends->>= (create m i) (λ _. mark_called i)
            (Ends->>= (prepare i) _ (prepare-Ends i) λ _. Ends->>= m (finish i) h (finish-Ends i))
            λ _. mark_called-Ends i))
      λ _. get_object-Ends i
