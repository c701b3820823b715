-- ===== src/Scope/Steps.antt =====
-- The steps of a lazy singleton's Get at a store where nothing is null, dangling or locked.
use guicpp.Base.{
  ℕ, suc, ◌<◌, ◌≡◌, refl, List, true, false, Option, some, get_elem?, set, length, get_elem?-set,
  arith, get_elem?-below,
}
use guicpp.Values.{Pointer, the_injector, pointer}
use guicpp.Outcome.{ok}
use guicpp.Scope.State.{
  ScopeSetupContext, LazyProvider, Store, member, get_context, put_context, get_provider,
  put_provider, is_null, same_injector,
}
use guicpp.Scope.{
  lock, unlock, invoke_init_now, provider_init, add_to_cleanup_list, write_cell, prepare, finish,
  mark_called,
}
use guicpp.Scope.SetUp.{IsReady}

pub get_provider_lem :
    (i : ℕ) (s : Store) (p : LazyProvider)
    → get_elem? s.providers i ≡ some p
    → p.is_deleted ≡ false
    → get_provider i s ≡ ok (p, s)
unfolding get_provider
get_provider_lem i s p e d = ground (arith, e, d)

pub get_context_lem :
    (s : Store) (c : ScopeSetupContext) → s.context ≡ some c → get_context s ≡ ok (c, s)
unfolding get_context
get_context_lem s c e = ground (arith, e)

pub write_cell_lem :
    (cells : List (Option ℕ)) (n i : ℕ)
    → n < length cells
    → write_cell cells n i ≡ ok (set cells n (some i))
unfolding write_cell
write_cell_lem cells n i h = let (x, e) = get_elem?-below cells n h in ground (arith, e)

pub lock_lem :
    (s : Store) (c : ScopeSetupContext)
    → s.context ≡ some c
    → c.locked ≡ false
    → lock s ≡ ok (tt, record s { context = some (record c { locked = true }) })
unfolding lock get_context put_context
lock_lem s c e free = ground (arith, e, free)

pub unlock_lem :
    (s : Store) (c : ScopeSetupContext)
    → s.context ≡ some c
    → c.locked ≡ true
    → unlock s ≡ ok (tt, record s { context = some (record c { locked = false }) })
unfolding unlock get_context put_context
unlock_lem s c e held = ground (arith, e, held)

pub add_to_cleanup_list_lem :
    (i : ℕ) (s : Store) (c : ScopeSetupContext)
    → s.context ≡ some c
    → c.locked ≡ false
    → member i c.init_list ≡ true
    → c.cleanup_list_size < length c.cleanup_list
    → add_to_cleanup_list i s
      ≡ ok (
        tt,
        record s {
          context = some (record c {
            cleanup_list = set c.cleanup_list c.cleanup_list_size (some i);
            cleanup_list_size = suc c.cleanup_list_size;
            locked = false;
          });
        },
      )
unfolding add_to_cleanup_list put_context
add_to_cleanup_list_lem i s c e free known room =
    let filled : ScopeSetupContext = record c {
      cleanup_list = set c.cleanup_list c.cleanup_list_size (some i);
      cleanup_list_size = suc c.cleanup_list_size;
      locked = true;
    } in
    rw (get_context_lem s c e, known)
      (rw (lock_lem s c e free) (
        rw (write_cell_lem c.cleanup_list c.cleanup_list_size i room)
          (rw (unlock_lem (record s { context = some filled }) filled refl refl) refl)))

pub prepare_lem :
    (i : ℕ) (s : Store) (p : LazyProvider) (c : ScopeSetupContext)
    → s.context ≡ some c
    → c.injector ≡ the_injector
    → get_elem? s.providers i ≡ some p
    → IsReady p
    → prepare i s
      ≡ ok (tt, record s { providers = set s.providers i (record p { injector = the_injector }) })
unfolding prepare invoke_init_now provider_init put_provider is_null same_injector
prepare_lem i s p c e inj at (alive, own) =
    let q : LazyProvider = record p { injector = the_injector } in
    let t : Store = record s { providers = set s.providers i q } in
    let here : get_elem? t.providers i ≡ some q = get_elem?-set s.providers i p q at in
    rw (get_context_lem s c e) (
      rw (inj) (
        rw (get_provider_lem i s p at alive)
          (rw (own) (rw (get_provider_lem i t q here alive) refl))))

pub finish_lem :
    (i : ℕ) (o : Pointer) (s : Store) (p : LazyProvider) (c : ScopeSetupContext)
    → s.context ≡ some c
    → c.locked ≡ false
    → member i c.init_list ≡ true
    → c.cleanup_list_size < length c.cleanup_list
    → get_elem? s.providers i ≡ some p
    → p.is_deleted ≡ false
    → finish i (pointer o) s
      ≡ ok (
        tt,
        record s {
          providers = set s.providers i (record p { object = o });
          context = some (record c {
            cleanup_list = set c.cleanup_list c.cleanup_list_size (some i);
            cleanup_list_size = suc c.cleanup_list_size;
            locked = false;
          });
        },
      )
unfolding finish put_provider
finish_lem i o s p c e free known room at alive = rw (get_provider_lem i s p at alive) (
    add_to_cleanup_list_lem i (record s { providers = set s.providers i (record p { object = o }) })
      c e free known room)

pub mark_called_lem :
    (i : ℕ) (s : Store) (p : LazyProvider)
    → get_elem? s.providers i ≡ some p
    → p.is_deleted ≡ false
    → mark_called i s
      ≡ ok (tt, record s { providers = set s.providers i (record p { called = true }) })
unfolding mark_called put_provider
mark_called_lem i s p at alive = rw (get_provider_lem i s p at alive) refl
