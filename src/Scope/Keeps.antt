-- ===== src/Scope/Keeps.antt =====
-- What a provider's Get does to the store, step by step.
use guicpp.Base.{ℕ, Bool, true, false, not, ◌||◌, Option, none, some, get_elem?}
use guicpp.Values.{Value, Pointer}
use guicpp.Outcome.{ok, undefined, Action, pure, lift, check}
use guicpp.Outcome.Keeps.{Post, Keeps, IsPreorder, Keeps->>=, Keeps-lift, Keeps-check, Keeps-if}
use guicpp.Scope.State.{
  Store, LazyProvider, ScopeSetupContext, get_context, put_context, get_provider, put_provider,
  live, member, is_null, same_injector,
}
use guicpp.Scope.{
  lock, unlock, write_cell, invoke_init_now, provider_init, add_to_cleanup_list, prepare, finish,
  mark_called, get_object, create, once_init, provider_get, as_pointer,
}

-- A preorder that the writes of the provider `i` and of the context follow is followed by its Get, if
-- it is by the request that the Get makes.
module _ {R : Store → Store → Type 0} (preorder : IsPreorder R) (i : ℕ)
    (writes : (p : LazyProvider) → Keeps R (put_provider i p))
    (context_writes : (c : ScopeSetupContext) → Keeps R (put_context c)) where
  get_provider-Keeps : Keeps R (get_provider i)
  unfolding get_provider
  get_provider-Keeps s = go (get_elem? s.providers i)
    where
      keep : (p : LazyProvider) (b : Bool) → Keeps R (live p b)
      keep p true s = tt
      keep p false s = preorder.reflexive s

      go :
          (o : Option LazyProvider)
          → Post (R s) (elim o [ none ↦ undefined | some p ↦ live p p.is_deleted s ])
      go none = tt
      go (some p) = keep p p.is_deleted s

  get_context-Keeps : Keeps R get_context
  unfolding get_context
  get_context-Keeps s = go s.context
    where
      go :
          (o : Option ScopeSetupContext)
          → Post (R s) (elim o [ none ↦ undefined | some c ↦ ok (c, s) ])
      go none = tt
      go (some c) = preorder.reflexive s

  provider_init-Keeps : (p : Pointer) → Keeps R (provider_init i p)
  unfolding provider_init
  provider_init-Keeps p = Keeps->>= preorder (get_provider i) _ get_provider-Keeps λ q.
      Keeps->>= preorder (check (is_null q.injector || same_injector q.injector p))
        (λ _. put_provider i (record q { injector = p })) (Keeps-check preorder _)
        λ _. writes (record q { injector = p })

  prepare-Keeps : Keeps R (prepare i)
  unfolding prepare invoke_init_now
  prepare-Keeps =
      Keeps->>= preorder (invoke_init_now i) _
        (Keeps->>= preorder get_context _ get_context-Keeps λ c.
          Keeps->>= preorder (check (not (is_null c.injector))) _ (Keeps-check preorder _)
            λ _. provider_init-Keeps c.injector)
        λ _.
          Keeps->>= preorder (get_provider i) _ get_provider-Keeps
            λ p. Keeps-if R (is_null p.injector) _ _ (λ s. tt) preorder.reflexive

  lock-Keeps : Keeps R lock
  unfolding lock
  lock-Keeps = Keeps->>= preorder get_context _ get_context-Keeps λ c.
      Keeps->>= preorder (check (not c.locked)) _ (Keeps-check preorder _) λ _. context_writes _

  unlock-Keeps : Keeps R unlock
  unfolding unlock
  unlock-Keeps =
      Keeps->>= preorder get_context _ get_context-Keeps
        λ c. Keeps->>= preorder (check c.locked) _ (Keeps-check preorder _) λ _. context_writes _

  add_to_cleanup_list-Keeps : Keeps R (add_to_cleanup_list i)
  unfolding add_to_cleanup_list
  add_to_cleanup_list-Keeps = Keeps->>= preorder get_context _ get_context-Keeps λ c.
      Keeps->>= preorder (check (member i c.init_list)) _ (Keeps-check preorder _) λ _.
        Keeps->>= preorder lock _ lock-Keeps λ _.
          Keeps->>= preorder get_context _ get_context-Keeps λ d.
            Keeps->>= preorder (lift (write_cell d.cleanup_list d.cleanup_list_size i)) _
              (Keeps-lift preorder _)
              λ cells. Keeps->>= preorder (put_context _) _ (context_writes _) λ _. unlock-Keeps

  finish-Keeps : (v : Value) → Keeps R (finish i v)
  unfolding finish
  finish-Keeps v = Keeps->>= preorder (lift (as_pointer v)) _ (Keeps-lift preorder _) λ o.
      Keeps->>= preorder (get_provider i) _ get_provider-Keeps
        λ q. Keeps->>= preorder (put_provider i _) _ (writes _) λ _. add_to_cleanup_list-Keeps

  mark_called-Keeps : Keeps R (mark_called i)
  unfolding mark_called
  mark_called-Keeps = Keeps->>= preorder (get_provider i) _ get_provider-Keeps λ q. writes _

  pub provider_get-Keeps : (m : Action Store Value) → Keeps R m → Keeps R (provider_get m i)
  unfolding provider_get once_init create get_object
  provider_get-Keeps m h =
      Keeps->>= preorder (once_init m i) (λ _. get_object i)
        (Keeps->>= preorder (get_provider i) _ get_provider-Keeps λ p.
          Keeps-if R p.called (pure tt) _ preorder.reflexive (
            Keeps->>= preorder (create m i) (λ _. mark_called i)
              (Keeps->>= preorder (prepare i) _ prepare-Keeps
                λ _. Keeps->>= preorder m (finish i) h finish-Keeps)
              λ _. mark_called-Keeps))
        λ _. Keeps->>= preorder (get_provider i) _ get_provider-Keeps λ p. preorder.reflexive
