-- ===== src/Scope/Cleanup.antt =====
-- ScopeSetupContext::Cleanup deletes what was made, in reverse order of creation.
use mathlib.Core.List.{append_assoc, reverse-cons, map-append}
use native.Mathlib.Nat.{zero-add}
use guicpp.Base.{
  ℕ, suc, ◌≡◌, ◌≢◌, refl, sym, subst, ◌∙◌, List, [], ◌∷◌, ◌++◌, All-map, map, reverse, length, true,
  false, Option, some, get_elem?, get_elem?-set, get_elem?-set_other, ◌+◌, set, All, arith,
}
use guicpp.Values.{Pointer, null}
use guicpp.Outcome.{ok}
use guicpp.Scope.State.{
  Store, was_deleted, deleted, LazyProvider, ScopeSetupContext, is_null, get_provider, get_context,
  put_context,
}
use guicpp.Scope.Once.{HasMade}
use guicpp.Scope.Deletions.{delete_once_lem, was_deleted-other}
use guicpp.Scope.{read_cell, provider_cleanup, cleanup_loop, context_cleanup}

-- The provider has no object, so that it may be deleted.
abbrev pub HasNoObject : ℕ → Store → Type 0
HasNoObject i s = (q : LazyProvider) × (get_elem? s.providers i ≡ some q) × (q.object ≡ null)

-- The store after one provider's Cleanup.
abbrev cleaned : ℕ → LazyProvider → Pointer → Store → Store
cleaned i q p s = record s {
  providers = set s.providers i (record q { object = null });
  events = deleted p ∷ s.events;
}

provider_cleanup-HasMade :
    (i : ℕ) (p : Pointer) (s : Store) (h : HasMade i p s)
    → is_null p ≡ false
    → was_deleted p s.events ≡ false
    → provider_cleanup i s ≡ ok (tt, cleaned i h.provider p s)
unfolding provider_cleanup
provider_cleanup-HasMade i p s h n fresh =
    rw (h.there, get_provider, h.not_deleted, h.holds, n, delete_once_lem p s fresh) (ground arith)

HasMade-cleaned :
    (i j : ℕ) (q : LazyProvider) (p p' : Pointer) (s : Store)
    → j ≢ i
    → HasMade j p' s
    → HasMade j p' (cleaned i q p s)
HasMade-cleaned i j q p p' s n h = record {
  provider = h.provider;
  there = get_elem?-set_other s.providers j i (record q { object = null }) n ∙ h.there;
  is_called = h.is_called;
  not_deleted = h.not_deleted;
  holds = h.holds;
}

-- Providers and their objects, newest first, no provider and no object twice.
abbrev pub AreMade : Store → List (ℕ × Pointer) → Type 0
AreMade s [] = Unit
AreMade s (x ∷ r) =
    HasMade x.0 x.1 s
    × (is_null x.1 ≡ false)
    × (was_deleted x.1 s.events ≡ false)
    × All (λ y. (y.0 ≢ x.0) × (y.1 ≢ x.1)) r
    × AreMade s r

AreMade-cleaned :
    (i : ℕ) (q : LazyProvider) (p : Pointer) (s : Store) (r : List (ℕ × Pointer))
    → All (λ y. (y.0 ≢ i) × (y.1 ≢ p)) r
    → AreMade s r
    → AreMade (cleaned i q p s) r
AreMade-cleaned i q p s [] n h = tt
AreMade-cleaned i q p s (x ∷ r) n (made, there, fresh, apart, rest) = (
  HasMade-cleaned i x.0 q p x.1 s n.0.0 made,
  there,
  was_deleted-other x.1 p s.events n.0.1 fresh,
  apart,
  AreMade-cleaned i q p s r n.1 rest,
)

-- cleanup_list_ when `made` was made, and `unused` is the rest of the array.
abbrev pub cells : List (ℕ × Pointer) → List (Option ℕ) → List (Option ℕ)
cells [] unused = unused
cells (x ∷ r) unused = cells r (some x.0 ∷ unused)

get_elem?-cells :
    (r : List (ℕ × Pointer)) (rest : List (Option ℕ)) (n : ℕ)
    → get_elem? (cells r rest) (length r + n) ≡ get_elem? rest n
get_elem?-cells [] rest n = rw zero-add refl
get_elem?-cells (x ∷ r) rest n =
    let shift : length (x ∷ r) + n ≡ length r + suc n = omega arith in
    rw shift (get_elem?-cells r (some x.0 ∷ rest) (suc n))

last_cell :
    (r : List (ℕ × Pointer)) (o : Option ℕ) (rest : List (Option ℕ))
    → get_elem? (cells r (o ∷ rest)) (length r) ≡ some o
last_cell r o rest =
    subst (λ n. get_elem? (cells r (o ∷ rest)) n ≡ some o) (omega arith)
      (get_elem?-cells r (o ∷ rest) 0)

pub read_cell-some :
    (xs : List (Option ℕ)) (n i : ℕ) → get_elem? xs n ≡ some (some i) → read_cell xs n ≡ ok i
unfolding read_cell
read_cell-some xs n i h = rw (h, read_cell) refl

-- What Cleanup leaves: the providers have no objects, since these were deleted, and nothing else has
-- changed.
pub record IsCleaned (made : List (ℕ × Pointer)) (s t : Store) : Type 0 where
  pub emptied : All (λ x. HasNoObject x.0 t) made
  pub deletes : t.events ≡ map (λ x. deleted x.1) (reverse made) ++ s.events
  pub others : (j : ℕ) → All (λ x. x.0 ≢ j) made → get_elem? t.providers j ≡ get_elem? s.providers j
  pub context_stays : t.context ≡ s.context

cleanup_loop-IsCleaned :
    (made : List (ℕ × Pointer)) (rest : List (Option ℕ)) (c : ScopeSetupContext) (s : Store)
    → s.context ≡ some c
    → c.cleanup_list ≡ cells made rest
    → AreMade s made
    → (t : Store) × (cleanup_loop (length made) s ≡ ok (tt, t)) × IsCleaned made s t
unfolding cleanup_loop
cleanup_loop-IsCleaned [] rest c s e f h =
    (s, refl, record { emptied = tt; deletes = refl; others = λ j n. refl; context_stays = refl })
cleanup_loop-IsCleaned ((i, p) ∷ r) rest c s e f (made, there, fresh, apart, h) =
    let u = cleaned i made.provider p s in
    let (t, runs, clean) =
      cleanup_loop-IsCleaned r (some i ∷ rest) c u e f
        (AreMade-cleaned i made.provider p s r apart h) in
    let cell : read_cell c.cleanup_list (length r) ≡ ok i =
      rw f (read_cell-some (cells r (some i ∷ rest)) (length r) i (last_cell r (some i) rest)) in
    (
      t,
      rw (e, get_context, cell, provider_cleanup-HasMade i p s made there fresh) runs,
      record {
        emptied = (
          (
            record made.provider { object = null },
            clean.others i (All-map r (λ y n. n.0) apart)
                ∙ get_elem?-set s.providers i made.provider _ made.there,
            refl,
          ),
          clean.emptied,
        );
        deletes =
            clean.deletes
            ∙ rw (
              reverse-cons (i, p) r,
              map-append (λ (x : ℕ × Pointer). deleted x.1) (reverse r) ((i, p) ∷ []),
              append_assoc (map (λ x. deleted x.1) (reverse r)) (deleted p ∷ []) s.events,
            );
        others =
            λ j n. clean.others j n.1 ∙ get_elem?-set_other s.providers j i _ (λ q. n.0 (sym q));
        context_stays = clean.context_stays;
      },
    )

cleanup_run :
    (c : ScopeSetupContext) (s t : Store)
    → s.context ≡ some c
    → c.locked ≡ false
    → cleanup_loop c.cleanup_list_size (record s { context = some (record c { locked = true }) })
      ≡ ok (tt, t)
    → t.context ≡ some (record c { locked = true })
    → context_cleanup s ≡ ok (tt, record t { context = some (record c { locked = false }) })
unfolding context_cleanup put_context
cleanup_run c s t e free runs after =
    rw (e, get_context, free, put_context) (rw (runs, get_context, after, put_context) refl)

-- If the context is not locked, its array begins with the providers in the order in which they
-- made their objects, its counter is their number, no provider and no object is there twice, and
-- each has made an object that is there, not null and not deleted, then Cleanup returns, the
-- events it adds are the deletions of these objects, the newest object first, and no provider of
-- them has an object any more.
pub context_cleanup-AreMade :
    (made : List (ℕ × Pointer)) (rest : List (Option ℕ)) (c : ScopeSetupContext) (s : Store)
    → s.context ≡ some c
    → c.locked ≡ false
    → c.cleanup_list ≡ cells made rest
    → c.cleanup_list_size ≡ length made
    → AreMade s made
    → (t : Store) × (context_cleanup s ≡ ok (tt, t))
      × (t.events ≡ map (λ x. deleted x.1) (reverse made) ++ s.events)
      × All (λ x. HasNoObject x.0 t) made
context_cleanup-AreMade made rest c s e free f size h =
    let held : Store = record s { context = some (record c { locked = true }) } in
    let (t, runs, clean) =
      cleanup_loop-IsCleaned made rest (record c { locked = true }) held refl f (stay made h) in
    (
      record t { context = some (record c { locked = false }) },
      cleanup_run c s t e free (subst (λ n. cleanup_loop n held ≡ ok (tt, t)) (sym size) runs)
          clean.context_stays,
      clean.deletes,
      clean.emptied,
    )
  where
    stay :
        (made : List (ℕ × Pointer))
        → AreMade s made
        → AreMade (record s { context = some (record c { locked = true }) }) made
    stay [] h = tt
    stay (x ∷ r) (m, there, fresh, apart, h) = (
      record {
        provider = m.provider;
        there = m.there;
        is_called = m.is_called;
        not_deleted = m.not_deleted;
        holds = m.holds;
      },
      there,
      fresh,
      apart,
      stay r h,
    )
