-- ===== src/Injector/Deletes.antt =====
-- ~Injector behind ScopeSetupContext::Cleanup: the entries' destructors end every lazy singleton's
-- provider once, the newest first.

use guicpp.Base.{
  ℕ, zero, suc, ◌<◌, ◌≤◌, ◌≡◌, refl, sym, ap, subst, ◌∙◌, List, [], ◌∷◌, ◌++◌, true, false, some,
  All, Has, length, length-set, get_elem?, set, get_elem?-below, get_elem?-set_cases, arith, ◌⊎◌,
  inl, inr, All-set, get_elem?-All,
}
use guicpp.CType.{CType}
use guicpp.Values.{
  null, provider_object, lazy_singleton, user_provider, CleanupAction, delete_pointer, do_nothing,
  user_action, invoke_cleanup, user_cleanup,
}
use guicpp.Entries.{
  Entry, cleanup_entry, pointer_table_entry, bind_to_type_entry, value_table_entry,
  reference_table_entry, bind_to_provider_entry, bind_to_function, factory_argument_entry,
  invalid_entry,
}
use guicpp.Outcome.{ok}
use guicpp.Scope.State.{
  Store, Event, LazyProvider, ScopeSetupContext, deleted, record_event, put_provider, was_deleted,
  cleanup_called,
}
use guicpp.Scope.Steps.{get_provider_lem}
use guicpp.Scope.Deletions.{AreFresh}
use guicpp.Binder.Keeps.{lazies}
use guicpp.Binder.Registers.{downto}
use guicpp.Injector.{delete_object, cleanup_action, cleanup_call, delete_entry, delete_entries}
use guicpp.Injector.Ended.{
  MayRun, IsDeletable, Logs, ended_with, all_ended, all_ended-IsNoLazy, AreFresh-lazy, OnlyLogs,
  no_change, logs_call, cleanup_action-OnlyLogs,
}

-- A lazy singleton's entry, or one that only writes to the log.
abbrev Kind : Entry → Type 0
Kind e =
    ((i : ℕ) × (t : CType) × (u : CType) × (e
        ≡ bind_to_provider_entry t (lazy_singleton i u) delete_pointer))
    ⊎ (OnlyLogs (delete_entry e) (ended_with e) × ((es : List Entry) → lazies (e ∷ es) ≡ lazies es))

kind : (e : Entry) → IsDeletable e → Kind e
unfolding delete_entry cleanup_call lazies was_deleted
kind (pointer_table_entry t p a) h = inr (cleanup_action-OnlyLogs a p h, λ es. refl)
kind (reference_table_entry t p a) h = inr (cleanup_action-OnlyLogs a p h, λ es. refl)
kind (bind_to_provider_entry t (lazy_singleton i u) a) h =
    inl (i, t, u, ap (bind_to_provider_entry t (lazy_singleton i u)) h)
kind (bind_to_provider_entry t (user_provider n) a) h =
    inr (cleanup_action-OnlyLogs a (provider_object (user_provider n)) (by a), λ es. refl)
  where
    by : (a : CleanupAction) → MayRun a (provider_object (user_provider n))
    by delete_pointer = tt
    by do_nothing = tt
    by (user_action m) = tt
kind (cleanup_entry invoke_cleanup) h = absurd h
kind (cleanup_entry (user_cleanup n)) h =
    inr (logs_call (cleanup_called n) (λ q es k. k), λ es. refl)
kind (bind_to_type_entry t xs d) h = inr (no_change, λ es. refl)
kind (value_table_entry t v) h = inr (no_change, λ es. refl)
kind (bind_to_function t xs) h = inr (no_change, λ es. refl)
kind (factory_argument_entry t v) h = inr (no_change, λ es. refl)
kind invalid_entry h = inr (no_change, λ es. refl)

-- The context stands, of `total` providers none has an object, and the providers below `n` are those not deleted.
pub record IsDying (total n : ℕ) (c : ScopeSetupContext) (s : Store) : Type 0 where
  pub has_context : s.context ≡ some c
  pub len : length s.providers ≡ total
  pub enough : n ≤ total
  pub empty : All (λ p. p.object ≡ null) s.providers
  pub alive :
      (i : ℕ) (p : LazyProvider) → get_elem? s.providers i ≡ some p → i < n → p.is_deleted ≡ false
  pub dead :
      (i : ℕ) (p : LazyProvider) → get_elem? s.providers i ≡ some p → n ≤ i → p.is_deleted ≡ true

-- One more provider is deleted.
delete_lazy :
    (total n : ℕ) (t u : CType) (c : ScopeSetupContext) (s : Store)
    → IsDying total (suc n) c s
    → (r : Store) × (delete_entry (bind_to_provider_entry t (lazy_singleton n u) delete_pointer) s
        ≡ ok (tt, r))
      × IsDying total n c r
      × (r.events ≡ deleted (provider_object (lazy_singleton n u)) ∷ s.events)
unfolding delete_entry cleanup_action delete_object put_provider record_event
delete_lazy total n t u c s h =
    let (p, there) = get_elem?-below s.providers n (omega (arith, h.len, h.enough)) in
    let gone : LazyProvider = record p { is_deleted = true } in
    let object_null = get_elem?-All (λ p. p.object ≡ null) s.providers n p h.empty there in
    (
      record s {
        providers = set s.providers n gone;
        events = deleted (provider_object (lazy_singleton n u)) ∷ s.events;
      },
      rw (get_provider_lem n s p there (h.alive n p there (omega arith)), object_null) refl,
      record {
        has_context = h.has_context;
        len = length-set s.providers n gone ∙ h.len;
        enough = omega (arith, h.enough);
        empty = All-set (λ p. p.object ≡ null) s.providers n gone h.empty object_null;
        alive = λ i q at below. elim (get_elem?-set_cases s.providers n i p gone q there at) [
          | inl (same, is_q) ↦ absurd (omega (arith, same, below))
          | inr (other, before) ↦ h.alive i q before (omega (arith, below))
        ];
        dead = λ i q at above. elim (get_elem?-set_cases s.providers n i p gone q there at) [
          | inl (same, is_q) ↦ ap (λ (x : LazyProvider). x.is_deleted) (sym is_q)
          | inr (other, before) ↦ h.dead i q before (omega (arith, above, other))
        ];
      },
      refl,
    )

logged-IsDying :
    (total n : ℕ) (c : ScopeSetupContext) (s : Store) (fs : List Event)
    → IsDying total n c s
    → IsDying total n c (record s { events = fs })
logged-IsDying total n c s fs h = record {
  has_context = h.has_context;
  len = h.len;
  enough = h.enough;
  empty = h.empty;
  alive = h.alive;
  dead = h.dead;
}

downto-head : (i n : ℕ) (is : List ℕ) → i ∷ is ≡ downto n → (n ≡ suc i) × (is ≡ downto i)
downto-head i zero is h = cc (h)
downto-head i (suc n) is h =
    let same : i ≡ n = cc (h) in
    let rest : is ≡ downto n = cc (h) in (ap suc (sym same), rest ∙ ap downto (sym same))

pub delete_entries-next :
    (e : Entry) (es : List Entry) (s r t : Store)
    → delete_entry e s ≡ ok (tt, r)
    → delete_entries es r ≡ ok (tt, t)
    → delete_entries (e ∷ es) s ≡ ok (tt, t)
unfolding delete_entries
delete_entries-next e es s r t h k = rw h k

-- Entries that may be deleted, own the providers that are left, the newest first, and end no object
-- twice are deleted, and every provider with them.
pub delete_entries-IsDying :
    (es : List Entry) (total n : ℕ) (c : ScopeSetupContext) (s : Store)
    → All IsDeletable es
    → lazies es ≡ downto n
    → IsDying total n c s
    → AreFresh (all_ended es) s.events
    → (t : Store) × (delete_entries es s ≡ ok (tt, t))
      × IsDying total 0 c t
      × Logs s.events t.events
unfolding delete_entries lazies
delete_entries-IsDying [] total zero c s d own h fresh = (s, refl, h, λ e k. k)
delete_entries-IsDying [] total (suc n) c s d own h fresh = cc (own)
delete_entries-IsDying (e ∷ es) total n c s d own h fresh = elim (kind e d.0) [
  | inl (i, t, u, shape) ↦
      let owned : i ∷ lazies es ≡ downto n = sym (ap (λ x. lazies (x ∷ es)) shape) ∙ own in
      let (top, left) = downto-head i n (lazies es) owned in
      let (r, runs, dying, log) =
        delete_lazy total i t u c s (subst (λ m. IsDying total m c s) top h) in
      let others : AreFresh (all_ended es) s.events =
        subst (λ x. AreFresh (ended_with x ++ all_ended es) s.events) shape fresh in
      let (v, end, over, more) = delete_entries-IsDying es total i c r d.1 left dying (
        subst (AreFresh (all_ended es)) (sym log)
          (AreFresh-lazy (all_ended es) i u s.events (all_ended-IsNoLazy es) others)) in
      (
        v,
        delete_entries-next e es s r v (ap (λ x. delete_entry x s) shape ∙ runs) end,
        over,
        λ x k. more x (subst (Has x) (sym log) (inr k)),
      )
  | inr (only, same) ↦
      let (fs, runs, logs, others) = only s (all_ended es) fresh in
      let (v, end, over, more) =
        delete_entries-IsDying es total n c (record s { events = fs }) d.1 (sym (same es) ∙ own)
          (logged-IsDying total n c s fs h) others in
      (v, delete_entries-next e es s _ v runs end, over, λ x k. more x (logs x k))
]
