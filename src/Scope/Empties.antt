-- ===== src/Scope/Empties.antt =====
-- ScopeSetupContext::Cleanup in a scope that is set up: every object of the scope is deleted.
use guicpp.Base.{
  All-places, ℕ, zero, suc, ◌<◌, ◌≡◌, ◌≢◌, refl, sym, ap, subst, ◌∙◌, List, ◌∷◌, true, false, some,
  All, Has, length, length-set, get_elem?, set, get_elem?-set_other, get_elem?-below,
  get_elem?-set_cases, if◌then◌else◌, arith, ◌⊎◌, inl, inr, Bool-cases, ℕ_discrete, All-set,
  get_elem?-All, All-map,
}
use guicpp.Values.{null, Pointer}
use guicpp.Outcome.{ok}
use guicpp.Scope.State.{
  ScopeSetupContext, LazyProvider, Store, Event, deleted, is_null, put_provider, was_deleted,
  put_context,
}
use guicpp.Scope.{provider_cleanup, cleanup_loop, context_cleanup}
use guicpp.Scope.SetUp.{IsSetUp}
use guicpp.Scope.Steps.{get_provider_lem, get_context_lem, lock_lem, unlock_lem}
use guicpp.Scope.Cleanup.{read_cell-some}
use guicpp.Scope.Deletions.{delete_once_lem, was_deleted-other, IsHeldOnce, IsNotHeld}

is_null-null : (p : Pointer) → is_null p ≡ true → p ≡ null
unfolding is_null
is_null-null p h = ground (arith, h)

-- The store after one provider's Cleanup.
abbrev cleaned : ℕ → LazyProvider → Store → Store
cleaned i p s = record s {
  providers = set s.providers i (record p { object = null });
  events = if is_null p.object then s.events else deleted p.object ∷ s.events;
}

provider_cleanup_lem :
    (i : ℕ) (p : LazyProvider) (s : Store)
    → get_elem? s.providers i ≡ some p
    → p.is_deleted ≡ false
    → (is_null p.object ≡ false → was_deleted p.object s.events ≡ false)
    → provider_cleanup i s ≡ ok (tt, cleaned i p s)
unfolding provider_cleanup put_provider
provider_cleanup_lem i p s there alive fresh = elim (Bool-cases (is_null p.object)) [
  | inl q ↦ rw (get_provider_lem i s p there alive, q) refl
  | inr q ↦ rw (get_provider_lem i s p there alive, q, delete_once_lem p.object s (fresh q)) refl
]

-- Within the loop of Cleanup, from the store `s` on, with the first `n` places still to do.
record IsEmptying (n : ℕ) (c : ScopeSetupContext) (s t : Store) : Type 0 where
  has_context : t.context ≡ some c
  len : length t.providers ≡ length s.providers
  alive : All (λ p. p.is_deleted ≡ false) t.providers
  holding :
      (i : ℕ) (p : LazyProvider)
      → get_elem? t.providers i ≡ some p
      → (p.object ≡ null) ⊎ ((j : ℕ) × (j < n) × (get_elem? c.cleanup_list j ≡ some (some i)))
  gone :
      (i : ℕ) (p : LazyProvider)
      → get_elem? s.providers i ≡ some p
      → is_null p.object ≡ false
      → ((q : LazyProvider) × (get_elem? t.providers i ≡ some q) × (q.object ≡ p.object))
        ⊎ Has (deleted p.object) t.events
  once : IsHeldOnce t
  same_object :
      (i : ℕ) (p : LazyProvider)
      → get_elem? t.providers i ≡ some p
      → is_null p.object ≡ false
      → (q : LazyProvider) × (get_elem? s.providers i ≡ some q) × (q.object ≡ p.object)
  spares :
      (x : Pointer)
      → IsNotHeld s x
      → was_deleted x s.events ≡ false
      → was_deleted x t.events ≡ false

-- The log behind a Cleanup.
log-Has :
    (p q : Pointer) (es : List Event)
    → p ≡ q
    → is_null q ≡ false
    → Has (deleted q) (if is_null p then es else deleted p ∷ es)
log-Has p q es e full = rw (e, full) (inl refl)

log-Has_old :
    (p : Pointer) (es : List Event) (e : Event)
    → Has e es
    → Has e (if is_null p then es else deleted p ∷ es)
log-Has_old p es e h = elim (Bool-cases (is_null p)) [ inl q ↦ rw q h | inr q ↦ rw q (inr h) ]

log-spares :
    (x p : Pointer) (es : List Event)
    → (is_null p ≡ false → x ≢ p)
    → was_deleted x es ≡ false
    → was_deleted x (if is_null p then es else deleted p ∷ es) ≡ false
log-spares x p es n h = elim (Bool-cases (is_null p)) [
  | inl q ↦ rw q h
  | inr q ↦ rw q (was_deleted-other x p es (n q) h)
]

-- What is true of each place that still has an object.
held_before :
    (i j : ℕ) (p q : LazyProvider) (t : Store)
    → get_elem? t.providers i ≡ some p
    → get_elem? (cleaned i p t).providers j ≡ some q
    → is_null q.object ≡ false
    → (j ≢ i) × (get_elem? t.providers j ≡ some q)
unfolding is_null
held_before i j p q t there at full =
    elim (get_elem?-set_cases t.providers i j p (record p { object = null }) q there at) [
      | inl (_, is_q) ↦
          let empty : q.object ≡ null = ap (λ (x : LazyProvider). x.object) (sym is_q) in
          absurd (cc (ap is_null empty, full))
      | inr h ↦ h
    ]

IsHeldOnce-cleaned :
    (i : ℕ) (p : LazyProvider) (t : Store)
    → get_elem? t.providers i ≡ some p
    → IsHeldOnce t
    → IsHeldOnce (cleaned i p t)
unfolding is_null
IsHeldOnce-cleaned i p t there h = record {
  one_owner = λ j m q r at at' full e.
      let (_, old) = held_before i j p q t there at full in
      let (_, old') = held_before i m p r t there at' (ap is_null (sym e) ∙ full) in
      h.one_owner j m q r old old' full e;
  live = λ j q at full.
      let (other, old) = held_before i j p q t there at full in
      log-spares q.object p.object t.events (λ _ e. other (h.one_owner j i q p old there full e))
        (h.live j q old full);
}

IsEmptying-cleaned :
    (n i : ℕ) (c : ScopeSetupContext) (s t : Store) (p : LazyProvider)
    → get_elem? c.cleanup_list n ≡ some (some i)
    → get_elem? t.providers i ≡ some p
    → p.is_deleted ≡ false
    → IsEmptying (suc n) c s t
    → IsEmptying n c s (cleaned i p t)
IsEmptying-cleaned n i c s t p cell there alive h =
    let emptied : LazyProvider = record p { object = null } in
    record {
      has_context = h.has_context;
      len = length-set t.providers i emptied ∙ h.len;
      alive = All-set (λ q. q.is_deleted ≡ false) t.providers i emptied h.alive alive;
      holding = λ j q at. elim (get_elem?-set_cases t.providers i j p emptied q there at) [
        | inl (_, is_q) ↦ inl (ap (λ (x : LazyProvider). x.object) (sym is_q))
        | inr (other, before) ↦ elim (h.holding j q before) [
          | inl empty ↦ inl empty
          | inr (m, below, place) ↦
              let apart : m ≢ n = λ e.
                let two : some (some i) ≡ some (some j) =
                  sym cell ∙ subst (λ x. get_elem? c.cleanup_list x ≡ some (some j)) e place in
                other (cc (two)) in
              inr (m, omega (arith, below, apart), place)
        ]
      ];
      gone = λ j r at full. elim (h.gone j r at full) [
        | inl (q, here, object) ↦ elim (ℕ_discrete j i) [
          | yes e ↦
              let same : q ≡ p =
                let two : some p ≡ some q =
                  sym there ∙ subst (λ x. get_elem? t.providers x ≡ some q) e here in
                cc (two) in
              let name : p.object ≡ r.object =
                ap (λ (x : LazyProvider). x.object) (sym same) ∙ object in
              inr (log-Has p.object r.object t.events name full)
          | no other ↦ inl (q, get_elem?-set_other t.providers j i emptied other ∙ here, object)
        ]
        | inr before ↦ inr (log-Has_old p.object t.events (deleted r.object) before)
      ];
      once = IsHeldOnce-cleaned i p t there h.once;
      same_object = λ j q at full. h.same_object j q (held_before i j p q t there at full).1 full;
      spares = λ x free before.
          log-spares x p.object t.events
            (λ full e.
              let (q, at, object) = h.same_object i p there full in
              free i q at (ap is_null object ∙ full) (object ∙ sym e))
            (h.spares x free before);
    }

cleanup_loop-IsEmptying :
    (n : ℕ) (c : ScopeSetupContext) (s t : Store)
    → ((j : ℕ)
        → j < n
        → (i : ℕ) × (get_elem? c.cleanup_list j ≡ some (some i)) × (i < length s.providers))
    → IsEmptying n c s t
    → (u : Store) × (cleanup_loop n t ≡ ok (tt, u)) × IsEmptying 0 c s u
unfolding cleanup_loop
cleanup_loop-IsEmptying zero c s t written h = (t, refl, h)
cleanup_loop-IsEmptying (suc n) c s t written h =
    let (i, cell, inside) = written n (omega arith) in
    let (p, there) = get_elem?-below t.providers i (omega (arith, inside, h.len)) in
    let alive = get_elem?-All (λ p. p.is_deleted ≡ false) t.providers i p h.alive there in
    let (u, runs, end) =
      cleanup_loop-IsEmptying n c s (cleaned i p t) (λ j below. written j (omega (arith, below)))
        (IsEmptying-cleaned n i c s t p cell there alive h) in
    (
      u,
      rw (get_context_lem t c h.has_context, read_cell-some c.cleanup_list n i cell)
          (rw (provider_cleanup_lem i p t there alive (h.once.live i p there)) runs),
      end,
    )

-- What Cleanup leaves: providers without objects, which the log says were deleted.
pub record IsEmptied (s t : Store) : Type 0 where
  pub context : ScopeSetupContext
  pub has_context : t.context ≡ some context
  pub len : length t.providers ≡ length s.providers
  pub alive : All (λ p. p.is_deleted ≡ false) t.providers
  pub empty : All (λ p. p.object ≡ null) t.providers
  pub gone :
      (i : ℕ) (p : LazyProvider)
      → get_elem? s.providers i ≡ some p
      → is_null p.object ≡ false
      → Has (deleted p.object) t.events
  pub spares :
      (x : Pointer)
      → IsNotHeld s x
      → was_deleted x s.events ≡ false
      → was_deleted x t.events ≡ false

-- In a scope that is set up, whose objects are held once and were not deleted, Cleanup returns, and behind it no provider has an object, no provider was
-- deleted, and the log has the deletion of each object that a provider had.
pub context_cleanup-IsEmptied :
    (s : Store)
    → IsSetUp s
    → IsHeldOnce s
    → (t : Store) × (context_cleanup s ≡ ok (tt, t)) × IsEmptied s t
unfolding context_cleanup put_context is_null
context_cleanup-IsEmptied s h once =
    let c : ScopeSetupContext = record h.context { locked = true } in
    let held : Store = record s { context = some c } in
    let (t, runs, end) =
      cleanup_loop-IsEmptying h.context.cleanup_list_size c s held h.accounted.written (record {
        has_context = refl;
        len = refl;
        alive = All-map s.providers (λ p r. r.0) h.ready;
        holding = λ i p at. elim (Bool-cases p.called) [
          | inl called ↦ inr (h.accounted.kept i p at called)
          | inr uncalled ↦ inl (h.accounted.unmade i p at uncalled)
        ];
        gone = λ i p at full. inl (p, at, refl);
        once = record { one_owner = once.one_owner; live = once.live };
        same_object = λ i p at full. (p, at, refl);
        spares = λ x free before. before;
      }) in
    let empty = λ (i : ℕ) (p : LazyProvider) (at : get_elem? t.providers i ≡ some p).
      nothing_left (end.holding i p at) in
    (
      record t { context = some (record c { locked = false }) },
      rw (lock_lem s h.context h.has_context h.unlocked)
          (rw runs (unlock_lem t c end.has_context refl)),
      record {
        context = record c { locked = false };
        has_context = refl;
        len = end.len;
        alive = end.alive;
        empty = All-places (λ p. p.object ≡ null) t.providers empty;
        gone = λ i p at full. elim (end.gone i p at full) [
          | inl (q, here, object) ↦ absurd (not_null p.object (sym object ∙ empty i q here) full)
          | inr there ↦ there
        ];
        spares = end.spares;
      },
    )
  where
    nothing_left : {A : Type 0} {B : ℕ → Type 0} → A ⊎ ((j : ℕ) × (j < 0) × B j) → A
    nothing_left (inl a) = a
    nothing_left (inr (j, below, b)) = absurd (omega (arith, below))

    not_null : (p : Pointer) → p ≡ null → is_null p ≡ false → ⊥
    not_null p e f = cc (ap is_null e, f)
