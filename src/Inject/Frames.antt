-- ===== src/Inject/Frames.antt =====
-- What no request undoes: a singleton that was made stays made.

use guicpp.Base.{ℕ, ◌≡◌, refl, subst, ◌∙◌, get_elem?-set_other, ℕ_discrete, get_elem?}
use guicpp.Values.{Value, Pointer}
use guicpp.Outcome.{Outcome, ok, fatal, undefined, ill_formed, out_of_fuel, Action}
use guicpp.Outcome.Keeps.{Post, Keeps, IsPreorder}
use guicpp.Scope.State.{Store, put_provider, put_context}
use guicpp.Scope
use guicpp.Scope.Keeps.{provider_get-Keeps}
use guicpp.Scope.Once.{HasMade, provider_get-HasMade}
use guicpp.Inject.Keeps.{IsFrame}

-- The provider i has made its object at p, and still has.
abbrev pub StaysMade : ℕ → Pointer → Store → Store → Type 0
StaysMade i p s t = HasMade i p s → HasMade i p t

StaysMade-IsPreorder : (i : ℕ) (p : Pointer) → IsPreorder (StaysMade i p)
StaysMade-IsPreorder i p = record { reflexive = λ s h. h; transitive = λ s t u f g h. g (f h) }

-- The same providers have made the same objects.
same_providers :
    (i : ℕ) (p : Pointer) (s t : Store)
    → get_elem? t.providers i ≡ get_elem? s.providers i
    → StaysMade i p s t
same_providers i p s t e h = record {
  provider = h.provider;
  there = e ∙ h.there;
  is_called = h.is_called;
  not_deleted = h.not_deleted;
  holds = h.holds;
}

-- A provider that has made its object only returns it.
own_singleton :
    (i : ℕ) (p : Pointer) (m : Action Store Value) → Keeps (StaysMade i p) (Scope.provider_get m i)
own_singleton i p m s = go (Scope.provider_get m i s) refl
  where
    go : (o : Outcome (Value × Store)) → Scope.provider_get m i s ≡ o → Post (StaysMade i p s) o
    go (ok r) e = λ made.
        let same : s ≡ r.1 = cc (provider_get-HasMade m i p s made, e) in
        subst (HasMade i p) same made
    go (fatal x) e = tt
    go undefined e = tt
    go ill_formed e = tt
    go out_of_fuel e = tt

singleton-StaysMade :
    (i : ℕ) (p : Pointer) (m : Action Store Value) (j : ℕ)
    → Keeps (StaysMade i p) m
    → Keeps (StaysMade i p) (Scope.provider_get m j)
singleton-StaysMade i p m j h = elim (ℕ_discrete i j) [
  | yes e ↦ subst (λ x. Keeps (StaysMade i p) (Scope.provider_get m x)) e (own_singleton i p m)
  | no n ↦
      provider_get-Keeps (StaysMade-IsPreorder i p) j
        (λ q s.
          unfold put_provider in same_providers i p s _ (get_elem?-set_other s.providers i j q n))
        (λ c s. unfold put_context in same_providers i p s _ refl) m h
]

pub StaysMade-IsFrame : (i : ℕ) (p : Pointer) → IsFrame (StaysMade i p)
StaysMade-IsFrame i p = record {
  preorder = StaysMade-IsPreorder i p;
  constructs = λ t vs s. same_providers i p s _ refl;
  provides = λ n vs s. same_providers i p s _ refl;
  singletons = singleton-StaysMade i p;
}
