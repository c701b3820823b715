-- ===== src/CString/StringMap.antt =====
-- std::map from strings, in the order of its keys.
use guicpp.Base.{
  ℕ, ℕ_discrete, ◌≡◌, refl, List, [], ◌∷◌, Bool, true, false, ◌&&◌, ◌||◌, ◌==◌, Option, none, some,
  ltb, if◌then◌else◌, same, same-eq, Bool-cases, inl, inr, arith,
}

unfoldable pub text_discrete : Discrete (List ℕ)
text_discrete = hlevel ℕ_discrete

-- std::string's operator<
abbrev pub text_less : List ℕ → List ℕ → Bool
text_less s [] = false
text_less [] (d ∷ t) = true
text_less (c ∷ s) (d ∷ t) = ltb c d || ((c == d) && text_less s t)

abbrev pub StringMap {ℓ} : Type ℓ → Type ℓ
StringMap V = List (List ℕ × V)

module _ {ℓ} {V : Type ℓ} where
  -- find
  unfoldable pub find_key : List ℕ → StringMap V → Option V
  find_key k [] = none
  find_key k ((j, v) ∷ m) = if same text_discrete j k then some v else find_key k m

  -- `m[k] = v`
  unfoldable pub store_key : List ℕ → V → StringMap V → StringMap V
  store_key k v [] = (k, v) ∷ []
  store_key k v ((j, w) ∷ m) =
      let rest = store_key k v m in
      if same text_discrete j k
      then (j, v) ∷ m
      else if text_less k j
      then (k, v) ∷ (j, w) ∷ m
      else (j, w) ∷ rest

  pub find_key-store_key :
      (j k : List ℕ) (v : V) (m : StringMap V)
      → find_key j (store_key k v m) ≡ (if same text_discrete k j then some v else find_key j m)
  unfolding find_key store_key
  find_key-store_key j k v [] = refl
  find_key-store_key j k v ((i, w) ∷ m) = elim (Bool-cases (same text_discrete i k)) [
    | inl e ↦ let ik : i ≡ k = same-eq text_discrete i k e in rw (e, ik) ground (arith)
    | inr e ↦ ground (arith, find_key-store_key j k v m, e)
  ]
