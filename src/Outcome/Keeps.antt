-- ===== src/Outcome/Keeps.antt =====
-- Actions that move the state along a preorder whenever they return.
use guicpp.Base.{◌≡◌, subst, Bool, true, false, if◌then◌else◌}
use guicpp.Outcome.{
  Outcome, ok, fatal, undefined, ill_formed, out_of_fuel, Action, and_then, ◌>>=◌, lift, check,
}

-- What holds of the state, if a computation returned one.
abbrev pub Post : {S A : Type 0} → (S → Type 0) → Outcome (A × S) → Type 0
Post P (ok r) = P r.1
Post P _ = Unit

abbrev pub Keeps : {S A : Type 0} → (S → S → Type 0) → Action S A → Type 0
Keeps {S} R m = (s : S) → Post (R s) (m s)

-- A preorder on states.
pub record IsPreorder {S : Type 0} (R : S → S → Type 0) : Type 0 where
  pub reflexive : (s : S) → R s s
  pub transitive : (s t u : S) → R s t → R t u → R s u

module _ {S : Type 0} {R : S → S → Type 0} (preorder : IsPreorder R) where
  pub Keeps->>= :
      {A B : Type 0} (m : Action S A) (f : A → Action S B)
      → Keeps R m
      → ((a : A) → Keeps R (f a))
      → Keeps R (m >>= f)
  Keeps->>= {A} {B} m f h k s = go (m s) (h s)
    where
      next : (t : S) (o : Outcome (B × S)) → R s t → Post (R t) o → Post (R s) o
      next t (ok r) a b = preorder.transitive s t r.1 a b
      next t (fatal e) a b = tt
      next t undefined a b = tt
      next t ill_formed a b = tt
      next t out_of_fuel a b = tt

      go : (o : Outcome (A × S)) → Post (R s) o → Post (R s) (and_then o λ r. f r.0 r.1)
      go (ok r) p = next r.1 (f r.0 r.1) p (k r.0 r.1)
      go (fatal e) p = tt
      go undefined p = tt
      go ill_formed p = tt
      go out_of_fuel p = tt

  pub Keeps-lift : {A : Type 0} (o : Outcome A) → Keeps R (lift {S = S} o)
  Keeps-lift (ok a) s = preorder.reflexive s
  Keeps-lift (fatal e) s = tt
  Keeps-lift undefined s = tt
  Keeps-lift ill_formed s = tt
  Keeps-lift out_of_fuel s = tt

  pub Keeps-check : (b : Bool) → Keeps R (check {S = S} b)
  Keeps-check true s = preorder.reflexive s
  Keeps-check false s = tt

pub Keeps-if :
    {S A : Type 0} (R : S → S → Type 0) (b : Bool) (m n : Action S A)
    → Keeps R m
    → Keeps R n
    → Keeps R (if b then m else n)
Keeps-if R true m n h k = h
Keeps-if R false m n h k = k

pub Keeps-ok :
    {S A : Type 0} (R : S → S → Type 0) (m : Action S A) (s : S) (r : A × S)
    → Keeps R m
    → m s ≡ ok r
    → R s r.1
Keeps-ok R m s r h e = subst (Post (R s)) e (h s)

pub Post-ok :
    {S A : Type 0} (P : S → Type 0) (o : Outcome (A × S)) (r : A × S) → Post P o → o ≡ ok r → P r.1
Post-ok P o r h e = subst (Post P) e h
