-- ===== src/Scope/Once.antt =====
-- A lazy singleton is made once.
use guicpp.Base.{
  ℕ, ◌≡◌, refl, sym, subst, Bool, true, false, some, get_elem?, get_elem?-set, if◌then◌else◌,
  Bool-cases, Option-cases, inl, inr, arith,
}
use guicpp.Values.{Value, Pointer, pointer}
use guicpp.Outcome.{ok, Action, pure, ◌>>◌}
use guicpp.Outcome.Laws.{and_then-eq-ok}
use guicpp.Scope.State.{Store, LazyProvider, get_provider}
use guicpp.Scope.{create, once_init, mark_called, get_object, provider_get}

-- The provider has made its object, which is at p, and is not deleted.
pub record HasMade (i : ℕ) (p : Pointer) (s : Store) : Type 0 where
  pub provider : LazyProvider
  pub there : get_elem? s.providers i ≡ some provider
  pub is_called : provider.called ≡ true
  pub not_deleted : provider.is_deleted ≡ false
  pub holds : provider.object ≡ p

pub provider_get-HasMade :
    (m : Action Store Value) (i : ℕ) (p : Pointer) (s : Store)
    → HasMade i p s
    → provider_get m i s ≡ ok (pointer p, s)
unfolding provider_get once_init get_object
provider_get-HasMade m i p s h =
    rw (h.there, get_provider, h.not_deleted, h.is_called) (ground arith)

mark_called-HasMade :
    (i : ℕ) (s t : Store) {u : Unit {0}}
    → mark_called i s ≡ ok (u, t)
    → (p : Pointer) × HasMade i p t
unfolding mark_called
mark_called-HasMade i s t e = elim (Option-cases (get_elem? s.providers i)) [
  | inl missing ↦ absurd (ground arith)
  | inr (q, there) ↦ elim (Bool-cases q.is_deleted) [
    | inl gone ↦ absurd (ground arith)
    | inr there_still ↦ (
      q.object,
      record {
        provider = record q { called = true };
        there = ground (arith, get_elem?-set s.providers i q (record q { called = true }));
        is_called = refl;
        not_deleted = there_still;
        holds = refl;
      },
    )
  ]
]

get_object-HasMade :
    (i : ℕ) (p : Pointer) (s t : Store) (v : Value)
    → HasMade i p s
    → get_object i s ≡ ok (v, t)
    → (v ≡ pointer p) × (t ≡ s)
unfolding get_object get_provider
get_object-HasMade i p s t v h e = ground arith

get_provider-eq-ok :
    (i : ℕ) (s t : Store) (p : LazyProvider)
    → get_provider i s ≡ ok (p, t)
    → (get_elem? s.providers i ≡ some p) × (p.is_deleted ≡ false) × (t ≡ s)
unfolding get_provider
get_provider-eq-ok i s t p e = ground arith

once_branch :
    (m : Action Store Value) (i : ℕ) (s t : Store) (u : Unit {0}) (p : LazyProvider) (b : Bool)
    → p.called ≡ b
    → get_elem? s.providers i ≡ some p
    → p.is_deleted ≡ false
    → (if b then pure tt else (create m i >> mark_called i)) s ≡ ok (u, t)
    → (o : Pointer) × HasMade i o t
once_branch m i s t u p true called there live e =
    let same_store : s ≡ t = ground arith in
    (
      p.object,
      subst (HasMade i p.object) same_store (record {
        provider = p;
        there = there;
        is_called = called;
        not_deleted = live;
        holds = refl;
      }),
    )
once_branch m i s t u p false called there live e =
    let (a, made, marked) = and_then-eq-ok (create m i s) (λ r. mark_called i r.1) {b = (u, t)} e in
    mark_called-HasMade i a.1 t marked

once_init-HasMade :
    (m : Action Store Value) (i : ℕ) (s t : Store) (u : Unit {0})
    → once_init m i s ≡ ok (u, t)
    → (p : Pointer) × HasMade i p t
unfolding once_init
once_init-HasMade m i s t u e =
    let (a, got, rest) =
      and_then-eq-ok (get_provider i s)
        (λ r. (if r.0.called then pure tt else (create m i >> mark_called i)) r.1) {b = (u, t)} e in
    let (there, live, same_store) = get_provider-eq-ok i s a.1 a.0 got in
    once_branch m i a.1 t u a.0 a.0.called refl (rw same_store there) live rest

-- After a Get that returned, the provider has made its object, and the pointer to it was returned.
pub HasMade-provider_get :
    (m : Action Store Value) (i : ℕ) (s t : Store) (v : Value)
    → provider_get m i s ≡ ok (v, t)
    → (p : Pointer) × (v ≡ pointer p) × HasMade i p t
unfolding provider_get once_init
HasMade-provider_get m i s t v e =
    let (a, once, got) = and_then-eq-ok (once_init m i s) (λ r. get_object i r.1) {b = (v, t)} e in
    let (p, made) = once_init-HasMade m i s a.1 a.0 once in
    let (value, same_store) = get_object-HasMade i p a.1 t v made got in
    (p, value, subst (HasMade i p) (sym same_store) made)
