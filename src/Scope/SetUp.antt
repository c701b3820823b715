-- ===== src/Scope/SetUp.antt =====
-- The invariant of an injector's scope between requests, and the lists it counts.
use guicpp.Base.{
  ℕ, zero, suc, ◌+◌, ◌<◌, ◌≤◌, ◌≡◌, refl, ap, ◌∙◌, List, [], ◌∷◌, Bool, true, false, Option, some,
  All, get_elem?, set, length, if◌then◌else◌, arith, ◌≢◌, get_elem?-set_other,
}
use guicpp.Values.{the_injector}
use guicpp.Scope.State.{ScopeSetupContext, LazyProvider, Store, member}
use guicpp.Scope.Account.{IsAccounted}

-- The providers whose once flag is set.
unfoldable pub count_called : List LazyProvider → ℕ
count_called [] = 0
count_called (p ∷ ps) = (if p.called then 1 else 0) + count_called ps

-- A provider that is alive and was initialised.
abbrev pub IsReady : LazyProvider → Type 0
IsReady p = (p.is_deleted ≡ false) × (p.injector ≡ the_injector)

-- The context has the injector, is unlocked, knows each provider, and has a cell for each, of which
-- as many are in use as there are providers that made their object; these are the providers that the
-- cells in use hold.
pub record IsSetUp (s : Store) : Type 0 where
  pub context : ScopeSetupContext
  pub has_context : s.context ≡ some context
  pub injected : context.injector ≡ the_injector
  pub unlocked : context.locked ≡ false
  pub listed : (i : ℕ) → i < length s.providers → member i context.init_list ≡ true
  pub room : length context.cleanup_list ≡ length s.providers
  pub size : context.cleanup_list_size ≡ count_called s.providers
  pub ready : All IsReady s.providers
  pub accounted : IsAccounted context s.providers

count_called_le : (ps : List LazyProvider) → count_called ps ≤ length ps
unfolding count_called
count_called_le [] = omega arith
count_called_le (p ∷ ps) = ground (arith, count_called_le ps)

-- A provider that is not called leaves a cell free.
pub count_called-below :
    (ps : List LazyProvider) (i : ℕ) (p : LazyProvider)
    → get_elem? ps i ≡ some p
    → p.called ≡ false
    → count_called ps < length ps
unfolding count_called
count_called-below [] i p e h = cc
count_called-below (q ∷ ps) zero p e h =
    let same : q ≡ p = cc (e) in let rest = count_called_le ps in rw (same, h) (omega (arith, rest))
count_called-below (q ∷ ps) (suc i) p e h = ground (arith, count_called-below ps i p e h)

pub count_called-set_same :
    (ps : List LazyProvider) (i : ℕ) (p q : LazyProvider)
    → get_elem? ps i ≡ some p
    → q.called ≡ p.called
    → count_called (set ps i q) ≡ count_called ps
unfolding count_called
count_called-set_same [] i p q e h = refl
count_called-set_same (r ∷ ps) zero p q e h = let same : r ≡ p = cc (e) in rw (same, h) refl
count_called-set_same (r ∷ ps) (suc i) p q e h =
    ap (λ n. (if r.called then 1 else 0) + n) (count_called-set_same ps i p q e h)

pub count_called-set_called :
    (ps : List LazyProvider) (i : ℕ) (p q : LazyProvider)
    → get_elem? ps i ≡ some p
    → p.called ≡ false
    → q.called ≡ true
    → count_called (set ps i q) ≡ suc (count_called ps)
unfolding count_called
count_called-set_called [] i p q e h k = cc
count_called-set_called (r ∷ ps) zero p q e h k =
    let same : r ≡ p = cc (e) in rw (same, h, k) (omega arith)
count_called-set_called (r ∷ ps) (suc i) p q e h k =
    rw (count_called-set_called ps i p q e h k) (omega arith)

-- The once flag of a provider.
abbrev pub HasFlag : ℕ → Bool → Store → Type 0
HasFlag i called s = (p : LazyProvider) × (get_elem? s.providers i ≡ some p) × (p.called ≡ called)

-- A condition that no change to the provider `i`, to the context or to the log can break.
abbrev pub IsApart : ℕ → (Store → Type 0) → Type 0
IsApart i K =
    (s : Store) (q : LazyProvider) (c : Option ScopeSetupContext)
    → K s
    → K (record s { providers = set s.providers i q; context = c })

pub HasFlag-IsApart : (i j : ℕ) (called : Bool) → j ≢ i → IsApart i (HasFlag j called)
HasFlag-IsApart i j called ne s q c (p, e, f) = (p, get_elem?-set_other s.providers j i q ne ∙ e, f)
