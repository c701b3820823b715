-- ===== src/Outcome/Laws.antt =====
-- Inversion of a successful bind, and the order in which an outcome improves as fuel is added.
use guicpp.Base.{◌≡◌, ◌≢◌, refl, ◌⊎◌, inl, inr, ap, Bool, true, false, if◌then◌else◌}
use guicpp.Outcome.{
  Outcome, ok, fatal, undefined, ill_formed, out_of_fuel, and_then, Action, ◌>>=◌, lift,
}

pub and_then-eq-ok {ℓ κ} :
    {A : Type ℓ} {B : Type κ} (o : Outcome A) (f : A → Outcome B) {b : B}
    → and_then o f ≡ ok b
    → (a : A) × (o ≡ ok a) × (f a ≡ ok b)
and_then-eq-ok (ok a) f h = (a, refl, h)
and_then-eq-ok (fatal e) f h = cc
and_then-eq-ok undefined f h = cc
and_then-eq-ok ill_formed f h = cc
and_then-eq-ok out_of_fuel f h = cc

-- The second outcome is the first, unless the first ran out of fuel.
abbrev pub Improves {ℓ} : {A : Type ℓ} → Outcome A → Outcome A → Type ℓ
Improves o p = (o ≡ out_of_fuel) ⊎ (o ≡ p)

pub Improves-and_then {ℓ κ} :
    {A : Type ℓ} {B : Type κ} (o p : Outcome A) (f g : A → Outcome B)
    → Improves o p
    → ((a : A) → Improves (f a) (g a))
    → Improves (and_then o f) (and_then p g)
Improves-and_then o p f g (inl e) h = inl (ap (λ x. and_then x f) e)
Improves-and_then o p f g (inr e) h = rw (← e) (go o)
  where
    go : (x : Outcome _) → Improves (and_then x f) (and_then x g)
    go (ok a) = h a
    go (fatal e) = inr refl
    go undefined = inr refl
    go ill_formed = inr refl
    go out_of_fuel = inl refl

-- Two actions that are so in every state.
abbrev pub Improved : {S A : Type 0} → Action S A → Action S A → Type 0
Improved {S} m n = (s : S) → Improves (m s) (n s)

pub Improved-refl : {S A : Type 0} (m : Action S A) → Improved m m
Improved-refl m s = inr refl

pub Improved->>= :
    {S A B : Type 0} (m n : Action S A) (f g : A → Action S B)
    → Improved m n
    → ((a : A) → Improved (f a) (g a))
    → Improved (m >>= f) (n >>= g)
Improved->>= m n f g h k s = Improves-and_then (m s) (n s) _ _ (h s) (λ r. k r.0 r.1)

-- The same first step.
pub Improved-then :
    {S A B : Type 0} (m : Action S A) (f g : A → Action S B)
    → ((a : A) → Improved (f a) (g a))
    → Improved (m >>= f) (m >>= g)
Improved-then m f g k = Improved->>= m m f g (Improved-refl m) k

pub Improved-if :
    {S A : Type 0} (b : Bool) (m m' n n' : Action S A)
    → Improved m m'
    → Improved n n'
    → Improved (if b then m else n) (if b then m' else n')
Improved-if true m m' n n' h k = h
Improved-if false m m' n n' h k = k

-- An action that never runs out of fuel.
abbrev pub Ends : {S A : Type 0} → Action S A → Type 0
Ends {S} m = (s : S) → m s ≢ out_of_fuel

pub Ends->>= :
    {S A B : Type 0} (m : Action S A) (f : A → Action S B)
    → Ends m
    → ((a : A) → Ends (f a))
    → Ends (m >>= f)
Ends->>= {S} {A} m f h k s = go (m s) (h s)
  where
    go : (o : Outcome (A × S)) → o ≢ out_of_fuel → and_then o (λ r. f r.0 r.1) ≢ out_of_fuel
    go (ok r) n = k r.0 r.1
    go (fatal e) n = λ q. cc
    go undefined n = λ q. cc
    go ill_formed n = λ q. cc
    go out_of_fuel n = absurd (n refl)

pub Ends-if :
    {S A : Type 0} (b : Bool) (m n : Action S A) → Ends m → Ends n → Ends (if b then m else n)
Ends-if true m n h k = h
Ends-if false m n h k = k

pub Ends-lift : {S A : Type 0} (o : Outcome A) → o ≢ out_of_fuel → Ends (lift {S = S} o)
Ends-lift (ok a) n s = λ q. cc
Ends-lift (fatal e) n s = λ q. cc
Ends-lift undefined n s = λ q. cc
Ends-lift ill_formed n s = λ q. cc
Ends-lift out_of_fuel n s = λ q. n refl
