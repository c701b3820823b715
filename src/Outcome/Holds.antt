-- ===== src/Outcome/Holds.antt =====
-- What holds of the state behind a computation, wherever it returns, and what it means that it ends in
-- undefined behaviour (`U`) or runs out of fuel (`F`): nothing, or an absurdity.
use guicpp.Base.{◌≡◌, subst, Bool, true, false, if◌then◌else◌}
use guicpp.Outcome.{
  Outcome, ok, fatal, undefined, ill_formed, out_of_fuel, and_then, Action, ◌>>=◌, lift, check,
}

abbrev pub After : {S A : Type 0} → Type 0 → Type 0 → (S → Type 0) → Outcome (A × S) → Type 0
After U F P (ok r) = P r.1
After U F P undefined = U
After U F P out_of_fuel = F
After U F P _ = Unit

-- A computation that is never undefined.
abbrev pub Holds : {S A : Type 0} → (S → Type 0) → Outcome (A × S) → Type 0
Holds = After ⊥ Unit

-- The same for a computation with no state.
abbrev pub Allowed : {A : Type 0} → Type 0 → Type 0 → Outcome A → Type 0
Allowed U F undefined = U
Allowed U F out_of_fuel = F
Allowed U F _ = Unit

pub After->>= :
    {S A B : Type 0} (U F : Type 0) (P Q : S → Type 0) (m : Action S A) (f : A → Action S B) (s : S)
    → After U F P (m s)
    → ((a : A) (t : S) → P t → After U F Q (f a t))
    → After U F Q ((m >>= f) s)
After->>= {S} {A} U F P Q m f s h k = go (m s) h
  where
    go : (o : Outcome (A × S)) → After U F P o → After U F Q (and_then o λ r. f r.0 r.1)
    go (ok r) p = k r.0 r.1 p
    go (fatal e) p = tt
    go undefined p = p
    go ill_formed p = tt
    go out_of_fuel p = p

pub After-weaken :
    {S A : Type 0} (U F : Type 0) (P Q : S → Type 0) (o : Outcome (A × S))
    → ((s : S) → P s → Q s)
    → After U F P o
    → After U F Q o
After-weaken U F P Q (ok r) w h = w r.1 h
After-weaken U F P Q (fatal e) w h = tt
After-weaken U F P Q undefined w h = h
After-weaken U F P Q ill_formed w h = tt
After-weaken U F P Q out_of_fuel w h = h

pub Holds->>= :
    {S A B : Type 0} (P Q : S → Type 0) (m : Action S A) (f : A → Action S B) (s : S)
    → Holds P (m s)
    → ((a : A) (t : S) → P t → Holds Q (f a t))
    → Holds Q ((m >>= f) s)
Holds->>= P Q m f s h k = After->>= ⊥ Unit P Q m f s h k

pub Holds-ok :
    {S A : Type 0} (P : S → Type 0) (o : Outcome (A × S)) (r : A × S) → Holds P o → o ≡ ok r → P r.1
Holds-ok P o r h e = subst (Holds P) e h

-- An action that keeps a condition on the state.
abbrev pub Stays : {S A : Type 0} → Type 0 → Type 0 → (S → Type 0) → Action S A → Type 0
Stays {S} U F P m = (s : S) → P s → After U F P (m s)

module _ {S : Type 0} (U F : Type 0) (P : S → Type 0) where
  pub Stays->>= :
      {A B : Type 0} (m : Action S A) (f : A → Action S B)
      → Stays U F P m
      → ((a : A) → Stays U F P (f a))
      → Stays U F P (m >>= f)
  Stays->>= m f h k s p = After->>= U F P P m f s (h s p) k

  pub Stays-if :
      {A : Type 0} (b : Bool) (m n : Action S A)
      → Stays U F P m
      → Stays U F P n
      → Stays U F P (if b then m else n)
  Stays-if true m n h k = h
  Stays-if false m n h k = k

  pub Stays-lift : {A : Type 0} (o : Outcome A) → Allowed U F o → Stays U F P (lift {S = S} o)
  Stays-lift (ok a) h s p = p
  Stays-lift (fatal e) h s p = tt
  Stays-lift undefined h s p = h
  Stays-lift ill_formed h s p = tt
  Stays-lift out_of_fuel h s p = h

  pub Stays-check : (b : Bool) → Stays U F P (check {S = S} b)
  Stays-check true s p = p
  Stays-check false s p = tt
