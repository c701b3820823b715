-- ===== src/Outcome.antt =====
-- How a call ends: GUICPP_LOG_(FATAL) and the failed GUICPP_CHECK_ of
-- include/guicpp/internal/guicpp_port.h abort the program and leave no value and no state.
pub mod Laws
pub mod Keeps
pub mod Holds
use guicpp.Base.{ℕ, ◌≡◌, List, [], ◌∷◌, Bool, true, false}

-- Why the program aborts.
pub data Failure : Type 0 where
  missing_binding cannot_convert missing_assisted not_bound_to_instance no_scope_context
        check_failed :
      Failure
  injector_errors : ℕ → Failure

-- `undefined` is behaviour that C++ leaves undefined, `ill_formed` a text that does not compile, and
-- `out_of_fuel` a recursion deeper than the fuel of the model.
pub data Outcome {ℓ} (A : Type ℓ) : Type ℓ where
  ok : A → Outcome A
  fatal : Failure → Outcome A
  undefined ill_formed out_of_fuel : Outcome A

-- Passes a success on.
abbrev pub and_then {ℓ κ} : {A : Type ℓ} {B : Type κ} → Outcome A → (A → Outcome B) → Outcome B
and_then (ok a) f = f a
and_then (fatal e) f = fatal e
and_then undefined f = undefined
and_then ill_formed f = ill_formed
and_then out_of_fuel f = out_of_fuel

-- A computation on a state `S`.
abbrev pub Action : Type 0 → Type 0 → Type 0
Action S A = S → Outcome (A × S)

abbrev pub pure : {S A : Type 0} → A → Action S A
pure a s = ok (a, s)

abbrev pub fail : {S A : Type 0} → Failure → Action S A
fail e s = fatal e

infixl 5 ◌>>=◌ ◌>>◌
abbrev pub ◌>>=◌ : {S A B : Type 0} → Action S A → (A → Action S B) → Action S B
◌>>=◌ m f s = and_then (m s) (λ r. f r.0 r.1)

abbrev pub ◌>>◌ : {S B : Type 0} → Action S (Unit {0}) → Action S B → Action S B
m >> k = m >>= λ _. k

-- GUICPP_CHECK_ and GUICPP_DCHECK_.
abbrev pub check : {S : Type 0} → Bool → Action S (Unit {0})
check true s = ok (tt, s)
check false s = fatal check_failed

-- The part of a computation that does not touch the state.
abbrev pub lift : {S A : Type 0} → Outcome A → Action S A
lift o s = and_then o (λ a. ok (a, s))
