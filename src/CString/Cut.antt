-- ===== src/CString/Cut.antt =====
-- Lists cut at a position.
use native.Mathlib.Numerals.{unary_clauses}
use guicpp.Base.{
  ℕ, zero, suc, ◌+◌, ◌<◌, ◌≡◌, refl, sym, ◌∙◌, ap, List, [], ◌∷◌, ◌++◌, length, set, get_elem?,
  some, arith,
}
use guicpp.CString.{take, drop}

suc_add : (p q : ℕ) → suc p + q ≡ suc (p + q)
suc_add p q = omega arith

module _ {ℓ} {A : Type ℓ} where
  pub drop_all : (a r : List A) → drop (length a) (a ++ r) ≡ r
  drop_all [] r = refl
  drop_all (x ∷ a) r = drop_all a r

  pub take_all : (a r : List A) → take (length a) (a ++ r) ≡ a
  take_all [] r = refl
  take_all (x ∷ a) r = ap (◌∷◌ x) (take_all a r)

  pub drop-drop : (p q : ℕ) (l : List A) → drop q (drop p l) ≡ drop (p + q) l
  drop-drop zero q l = let z : 0 + q ≡ q = omega arith in rw z refl
  drop-drop (suc p) zero [] = simp unary_clauses refl
  drop-drop (suc p) (suc q) [] = simp unary_clauses refl
  drop-drop (suc p) q (x ∷ l) = rw (suc_add p q) (drop-drop p q l)

  pub set-end : (a r : List A) (x y : A) → set (a ++ x ∷ r) (length a) y ≡ a ++ y ∷ r
  set-end [] r x y = refl
  set-end (z ∷ a) r x y = ap (◌∷◌ z) (set-end a r x y)

  pub drop-set : (p n : ℕ) (l : List A) (y : A) → drop p (set l (p + n) y) ≡ set (drop p l) n y
  drop-set zero n l y = let z : 0 + n ≡ n = omega arith in rw z refl
  drop-set (suc p) n [] y = refl
  drop-set (suc p) n (x ∷ l) y = rw (suc_add p n) (drop-set p n l y)

  pub length-drop : (p : ℕ) (l r : List A) (x : A) → drop p l ≡ x ∷ r → p < length l
  length-drop zero [] r x h = cc
  length-drop zero (y ∷ l) r x h = omega arith
  length-drop (suc p) [] r x h = cc
  length-drop (suc p) (y ∷ l) r x h = omega (arith, length-drop p l r x h)

  pub drop_behind :
      (l : List A) (p : ℕ) (a r : List A) (x : A)
      → drop p l ≡ a ++ x ∷ r
      → drop (suc (p + length a)) l ≡ r
  drop_behind l p a r x e =
      let next : drop (p + length a) l ≡ x ∷ r =
        sym (drop-drop p (length a) l) ∙ ap (drop (length a)) e ∙ drop_all a (x ∷ r) in
      let one : suc (p + length a) ≡ p + length a + 1 = omega arith in
      rw one (sym (drop-drop (p + length a) 1 l) ∙ ap (drop 1) next)

  pub get_elem?-drop : (p : ℕ) (l r : List A) (x : A) → drop p l ≡ x ∷ r → get_elem? l p ≡ some x
  get_elem?-drop p [] r x h =
      elim p as (λ p. drop p [] ≡ x ∷ r → get_elem? [] p ≡ some x) [
        | zero ↦ λ e. cc
        | suc q ↦ λ e. cc
      ]
        h
  get_elem?-drop zero (y ∷ l) r x h = cc
  get_elem?-drop (suc p) (y ∷ l) r x h = get_elem?-drop p l r x h
