-- ===== src/Inject/Order.antt =====
-- The order in which the arguments of a call are evaluated: C++ leaves it to the compiler, for each call
-- of CreateHelpers::Create (include/guicpp/internal/guicpp_create_helpers.h) and of ProviderGet
-- (guicpp_provider_helpers.h) anew.
use guicpp.Base.{ℕ, zero, suc, ◌≡◌, refl, ap, List, [], ◌∷◌, Option, none, some, All, map}
use guicpp.Annotations.{Annotated}
use guicpp.Values.{Value}

-- `x` behind the first `n` of `ys`, or behind all.
unfoldable pub insert_at {ℓ} : {A : Type ℓ} → ℕ → A → List A → List A
insert_at n x [] = x ∷ []
insert_at zero x (y ∷ ys) = x ∷ y ∷ ys
insert_at (suc n) x (y ∷ ys) = y ∷ insert_at n x ys

-- The element behind the first `n`, or the last, and the others.
unfoldable pub take_out {ℓ} : {A : Type ℓ} → ℕ → List A → Option (A × List A)
take_out n [] = none
take_out n (y ∷ []) = some (y, [])
take_out zero (y ∷ z ∷ ys) = some (y, z ∷ ys)
take_out (suc n) (y ∷ z ∷ ys) = elim (take_out n (z ∷ ys)) [
  | none ↦ none
  | some (x, r) ↦ some (x, y ∷ r)
]

module _ (earlier : List Annotated → ℕ) where
  -- The arguments in the order of their evaluation.
  unfoldable pub in_order : List Annotated → List Annotated
  unfolding insert_at
  in_order [] = []
  in_order (x ∷ xs) = insert_at (earlier (x ∷ xs)) x (in_order xs)

  -- The values, in the order of their evaluation, put back in the order of the parameters.
  unfoldable pub arranged : List Annotated → List Value → List Value
  unfolding take_out
  arranged [] vs = []
  arranged (x ∷ xs) vs = elim (take_out (earlier (x ∷ xs)) vs) [
    | none ↦ []
    | some (v, r) ↦ v ∷ arranged xs r
  ]

take_out-insert_at {ℓ} :
    {A : Type ℓ} (n : ℕ) (x : A) (ys : List A) → take_out n (insert_at n x ys) ≡ some (x, ys)
unfolding take_out insert_at
take_out-insert_at n x [] = refl
take_out-insert_at zero x (y ∷ ys) = refl
take_out-insert_at (suc n) x (y ∷ []) = refl
take_out-insert_at (suc zero) x (y ∷ z ∷ ys) = refl
take_out-insert_at (suc (suc n)) x (y ∷ z ∷ ys) =
    let rest : take_out (suc n) (z ∷ insert_at n x ys) ≡ some (x, z ∷ ys) =
      take_out-insert_at (suc n) x (z ∷ ys) in
    rw rest refl

map-insert_at :
    (g : Annotated → Value) (n : ℕ) (x : Annotated) (ys : List Annotated)
    → map g (insert_at n x ys) ≡ insert_at n (g x) (map g ys)
unfolding insert_at
map-insert_at g n x [] = refl
map-insert_at g zero x (y ∷ ys) = refl
map-insert_at g (suc n) x (y ∷ ys) = ap (λ r. g y ∷ r) (map-insert_at g n x ys)

-- Whatever the order of evaluation, each parameter gets the value of its own argument.
arranged-in_order :
    (earlier : List Annotated → ℕ) (g : Annotated → Value) (xs : List Annotated)
    → arranged earlier xs (map g (in_order earlier xs)) ≡ map g xs
unfolding arranged in_order
arranged-in_order earlier g [] = refl
arranged-in_order earlier g (x ∷ xs) =
    rw
      (
        map-insert_at g (earlier (x ∷ xs)) x (in_order earlier xs),
        arranged,
        take_out-insert_at (earlier (x ∷ xs)) (g x) (map g (in_order earlier xs)),
      )
      (ap (λ r. g x ∷ r) (arranged-in_order earlier g xs))

All-insert_at {ℓ κ} :
    {A : Type ℓ} (P : A → Type κ) (n : ℕ) (x : A) (ys : List A)
    → P x
    → All P ys
    → All P (insert_at n x ys)
unfolding insert_at
All-insert_at P n x [] h k = (h, tt)
All-insert_at P zero x (y ∷ ys) h k = (h, k)
All-insert_at P (suc n) x (y ∷ ys) h k = (k.0, All-insert_at P n x ys h k.1)

-- What holds of every argument holds of every argument in the order of evaluation.
pub All-in_order {κ} :
    (P : Annotated → Type κ) (earlier : List Annotated → ℕ) (xs : List Annotated)
    → All P xs
    → All P (in_order earlier xs)
unfolding in_order
All-in_order P earlier [] h = tt
All-in_order P earlier (x ∷ xs) h =
    All-insert_at P (earlier (x ∷ xs)) x (in_order earlier xs) h.0 (All-in_order P earlier xs h.1)
