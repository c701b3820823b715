-- ===== src/Injector/Ended.antt =====
-- Which objects the destructors of the entries end, and that each entry of the user's ends its own and
-- only writes to the log.
use mathlib.Core.List.{append_assoc}
use guicpp.Base.{
  ℕ, ◌≡◌, refl, sym, ap, subst, ◌∙◌, List, [], ◌∷◌, ◌++◌, false, All, All-append, All-map,
  All-places, Has, inr,
}
use guicpp.CType.{CType}
use guicpp.Values.{
  Pointer, null, scope_context, the_injector, object, user_object, provider_object, factory_object,
  lazy_singleton, user_provider, CleanupAction, delete_pointer, do_nothing, user_action,
  invoke_cleanup,
}
use guicpp.Entries.{
  Entry, cleanup_entry, pointer_table_entry, bind_to_type_entry, value_table_entry,
  reference_table_entry, bind_to_provider_entry, bind_to_function, factory_argument_entry,
  invalid_entry,
}
use guicpp.Outcome.{ok, Action, pure}
use guicpp.Scope.State.{
  Store, Event, deleted, record_event, was_deleted, delete_once, action_called,
}
use guicpp.Scope.Deletions.{AreFresh, AreFresh-weaken, AreFresh-deleted, delete_once_lem}
use guicpp.Injector.{delete_object, cleanup_action}

-- A pointer that a module may bind: not the context, the injector or a lazy singleton's provider.
abbrev pub IsUsers : Pointer → Type 0
IsUsers scope_context = ⊥
IsUsers the_injector = ⊥
IsUsers (provider_object (lazy_singleton i t)) = ⊥
IsUsers _ = Unit

-- What an action may be taken with.
abbrev pub MayRun : CleanupAction → Pointer → Type 0
MayRun delete_pointer p = IsUsers p
MayRun _ p = Unit

-- An entry that a module may make the table own.
abbrev pub IsDeletable : Entry → Type 0
IsDeletable (pointer_table_entry t p a) = MayRun a p
IsDeletable (reference_table_entry t p a) = MayRun a p
IsDeletable (bind_to_provider_entry t (lazy_singleton i u) a) = a ≡ delete_pointer
IsDeletable (cleanup_entry invoke_cleanup) = ⊥
IsDeletable _ = Unit

-- The later log has what the earlier had.
abbrev pub Logs : List Event → List Event → Type 0
Logs es fs = (e : Event) → Has e es → Has e fs

-- The pointers whose objects DeletePointer ends. The context and the lazy singletons' providers are
-- ended with checks of their own.
abbrev ended : Pointer → List Pointer
ended null = []
ended scope_context = []
ended (provider_object (lazy_singleton i t)) = []
ended p = p ∷ []

abbrev ended_by : CleanupAction → Pointer → List Pointer
ended_by delete_pointer p = ended p
ended_by _ p = []

abbrev pub ended_with : Entry → List Pointer
ended_with (pointer_table_entry t p a) = ended_by a p
ended_with (reference_table_entry t p a) = ended_by a p
ended_with (bind_to_provider_entry t p a) = ended_by a (provider_object p)
ended_with _ = []

abbrev pub all_ended : List Entry → List Pointer
all_ended [] = []
all_ended (e ∷ es) = ended_with e ++ all_ended es

pub all_ended-append : (es fs : List Entry) → all_ended (es ++ fs) ≡ all_ended es ++ all_ended fs
all_ended-append [] fs = refl
all_ended-append (e ∷ es) fs =
    ap (λ x. ended_with e ++ x) (all_ended-append es fs)
    ∙ sym (append_assoc (ended_with e) (all_ended es) (all_ended fs))

-- None of them is a lazy singleton's provider.
abbrev IsNoLazy : Pointer → Type 0
IsNoLazy (provider_object (lazy_singleton i t)) = ⊥
IsNoLazy _ = Unit

ended-IsNoLazy : (p : Pointer) → All IsNoLazy (ended p)
ended-IsNoLazy null = tt
ended-IsNoLazy scope_context = tt
ended-IsNoLazy (provider_object (lazy_singleton i t)) = tt
ended-IsNoLazy (provider_object (user_provider n)) = (tt, tt)
ended-IsNoLazy the_injector = (tt, tt)
ended-IsNoLazy (object n) = (tt, tt)
ended-IsNoLazy (user_object n) = (tt, tt)
ended-IsNoLazy (factory_object xs n) = (tt, tt)

ended_by-IsNoLazy : (a : CleanupAction) (p : Pointer) → All IsNoLazy (ended_by a p)
ended_by-IsNoLazy delete_pointer p = ended-IsNoLazy p
ended_by-IsNoLazy do_nothing p = tt
ended_by-IsNoLazy (user_action n) p = tt

ended_with-IsNoLazy : (e : Entry) → All IsNoLazy (ended_with e)
ended_with-IsNoLazy (pointer_table_entry t p a) = ended_by-IsNoLazy a p
ended_with-IsNoLazy (reference_table_entry t p a) = ended_by-IsNoLazy a p
ended_with-IsNoLazy (bind_to_provider_entry t p a) = ended_by-IsNoLazy a (provider_object p)
ended_with-IsNoLazy (bind_to_type_entry t xs d) = tt
ended_with-IsNoLazy (value_table_entry t v) = tt
ended_with-IsNoLazy (bind_to_function t xs) = tt
ended_with-IsNoLazy (factory_argument_entry t v) = tt
ended_with-IsNoLazy invalid_entry = tt
ended_with-IsNoLazy (cleanup_entry c) = tt

pub all_ended-IsNoLazy : (es : List Entry) → All IsNoLazy (all_ended es)
all_ended-IsNoLazy [] = tt
all_ended-IsNoLazy (e ∷ es) =
    All-append IsNoLazy (ended_with e) (all_ended es) (ended_with-IsNoLazy e)
      (all_ended-IsNoLazy es)

-- The end of a provider leaves the pointers fresh.
pub AreFresh-lazy :
    (ps : List Pointer) (i : ℕ) (t : CType) (es : List Event)
    → All IsNoLazy ps
    → AreFresh ps es
    → AreFresh ps (deleted (provider_object (lazy_singleton i t)) ∷ es)
AreFresh-lazy ps i t es h =
    AreFresh-deleted ps (provider_object (lazy_singleton i t)) es
      (All-map ps (λ p k e. subst IsNoLazy e k) h)

-- A step that only writes to the log, and ends the pointers `xs`.
abbrev pub OnlyLogs : Action Store (Unit {0}) → List Pointer → Type 0
OnlyLogs m xs =
    (s : Store) (ps : List Pointer)
    → AreFresh (xs ++ ps) s.events
    → (fs : List Event) × (m s ≡ ok (tt, record s { events = fs }))
      × Logs s.events fs
      × AreFresh ps fs

delete_once-OnlyLogs : (p : Pointer) → OnlyLogs (delete_once p) (p ∷ [])
delete_once-OnlyLogs p s ps (h, apart, rest) = (
  deleted p ∷ s.events,
  delete_once_lem p s h,
  λ e k. inr k,
  AreFresh-deleted ps p s.events apart rest,
)

pub no_change : OnlyLogs (pure tt) []
no_change s ps h = (s.events, refl, λ e k. k, h)

-- A call of the user's is in the log.
pub logs_call :
    (e : Event)
    → ((p : Pointer) (es : List Event) → was_deleted p es ≡ false → was_deleted p (e ∷ es) ≡ false)
    → OnlyLogs (record_event e) []
unfolding record_event
logs_call e spares s ps h = (
  e ∷ s.events,
  refl,
  λ x k. inr k,
  AreFresh-weaken ps s.events (e ∷ s.events)
      (All-places (λ p. was_deleted p s.events ≡ false → was_deleted p (e ∷ s.events) ≡ false) ps
        λ i p at. spares p s.events)
      h,
)

delete_object-OnlyLogs : (p : Pointer) → IsUsers p → OnlyLogs (delete_object p) (ended p)
unfolding delete_object
delete_object-OnlyLogs null h = no_change
delete_object-OnlyLogs scope_context h = absurd h
delete_object-OnlyLogs the_injector h = absurd h
delete_object-OnlyLogs (provider_object (lazy_singleton i t)) h = absurd h
delete_object-OnlyLogs (provider_object (user_provider n)) h =
    delete_once-OnlyLogs (provider_object (user_provider n))
delete_object-OnlyLogs (object n) h = delete_once-OnlyLogs (object n)
delete_object-OnlyLogs (user_object n) h = delete_once-OnlyLogs (user_object n)
delete_object-OnlyLogs (factory_object xs n) h = delete_once-OnlyLogs (factory_object xs n)

pub cleanup_action-OnlyLogs :
    (a : CleanupAction) (p : Pointer) → MayRun a p → OnlyLogs (cleanup_action a p) (ended_by a p)
unfolding cleanup_action was_deleted
cleanup_action-OnlyLogs delete_pointer p h = delete_object-OnlyLogs p h
cleanup_action-OnlyLogs do_nothing p h = no_change
cleanup_action-OnlyLogs (user_action n) p h = logs_call (action_called n p) λ q es k. k
