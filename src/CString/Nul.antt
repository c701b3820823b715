-- ===== src/CString/Nul.antt =====
-- Bytes with a NUL behind them are a text up to their first NUL.
use guicpp.Base.{
  ℕ, ◌≡◌, refl, ap, [], ◌∷◌, ◌++◌, Bool-cases, ◌==◌, inl, inr, arith, Option, none, some,
  Option-cases, ◌+◌, length,
}
use guicpp.Outcome.{ok}
use guicpp.CString.{Bytes, is_char, is_one_of, strpbrk}
use guicpp.CString.Text.{IsNulFree, Text, before, after, scan-Text-none, scan-Text-some}

pub nul-splits :
    (xs behind : Bytes)
    → (rest : Bytes) × (xs ++ 0 ∷ behind ≡ before (is_char 0) xs ++ 0 ∷ rest)
      × IsNulFree (before (is_char 0) xs)
unfolding before
nul-splits [] behind = (behind, refl, tt)
nul-splits (c ∷ xs) behind =
    let (rest, e, h) = nul-splits xs behind in
    elim (Bool-cases (c == 0)) [
      | inl z ↦
          let is_nul : c ≡ 0 = ground (arith, z) in
          (xs ++ 0 ∷ behind, rw z (ap (◌∷ (xs ++ 0 ∷ behind)) is_nul), rw z tt)
      | inr z ↦ (rest, rw z (ap (◌∷◌ c) e), rw z ((λ q. ground (arith, z, q)), h))
    ]

-- strpbrk returns on a text.
pub strpbrk-Text :
    {buff s : Bytes} {p : ℕ} (t : Text buff p s) (accept : Bytes)
    → (o : Option ℕ) × (strpbrk buff p accept ≡ ok o)
unfolding strpbrk
strpbrk-Text {s = s} {p = p} t accept = elim (Option-cases (after (is_one_of accept) s)) [
  | inl e ↦ (none, scan-Text-none t (is_one_of accept) e)
  | inr (b, e) ↦
      (some (p + length (before (is_one_of accept) s)), scan-Text-some t (is_one_of accept) b e)
]
