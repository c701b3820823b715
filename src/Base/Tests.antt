-- ===== src/Base/Tests.antt =====
-- The conditional, tests by a decision, and the cases of a computed value.
use Prim.Native.Nat.{ℕ, compare, Ordering}
use mathlib.Core.Path.{◌≡◌, refl}
use mathlib.Core.Logic.{◌⊎◌, ◌≢◌, inl, inr}
use mathlib.Core.Bool.{Bool, true, false}
use mathlib.Core.Option.{Option, none, some}

infix 1 if◌then◌else◌
abbrev pub if◌then◌else◌ {ℓ} : {A : Type ℓ} → Bool → A → A → A
if true then x else y = x
if false then x else y = y

abbrev pub ltb : ℕ → ℕ → Bool
ltb a b = elim (compare a b) [ Ordering.lt ↦ true | _ ↦ false ]

infix 50 ◌==◌
abbrev pub ◌==◌ : ℕ → ℕ → Bool
a == b = elim (compare a b) [ Ordering.eq ↦ true | _ ↦ false ]

-- `a == b` on values of a type with decidable equality.
abbrev pub same {ℓ} : {A : Type ℓ} → Discrete A → A → A → Bool
same d a b = elim (d a b) [ yes _ ↦ true | no _ ↦ false ]

pub same_refl {ℓ} : {A : Type ℓ} (d : Discrete A) (a : A) → same d a a ≡ true
same_refl d a = elim (d a a) as (λ x. elim x [ yes _ ↦ true | no _ ↦ false ] ≡ true) [
  | yes _ ↦ refl
  | no ne ↦ absurd (ne refl)
]

pub same-eq {ℓ} : {A : Type ℓ} (d : Discrete A) (a b : A) → same d a b ≡ true → a ≡ b
same-eq d a b = elim (d a b) as (λ x. elim x [ yes _ ↦ true | no _ ↦ false ] ≡ true → a ≡ b) [
  | yes e ↦ λ _. e
  | no _ ↦ λ h. cc
]

pub same-ne {ℓ} : {A : Type ℓ} (d : Discrete A) (a b : A) → a ≢ b → same d a b ≡ false
same-ne d a b ne = elim (d a b) as (λ x. elim x [ yes _ ↦ true | no _ ↦ false ] ≡ false) [
  | yes e ↦ absurd (ne e)
  | no _ ↦ refl
]

pub Bool-cases : (b : Bool) → (b ≡ true) ⊎ (b ≡ false)
Bool-cases true = inl refl
Bool-cases false = inr refl

pub Option-cases {ℓ} : {A : Type ℓ} (o : Option A) → (o ≡ none) ⊎ ((a : A) × (o ≡ some a))
Option-cases none = inl refl
Option-cases (some a) = inr (a, refl)
