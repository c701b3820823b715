-- ===== src/CString/Needle.antt =====
-- What strstr finds.
use guicpp.Base.{
  ℕ, zero, suc, ◌+◌, ◌≡◌, refl, sym, ap, subst, ◌∙◌, [], ◌∷◌, ◌++◌, length, true, Bool-cases, ◌==◌,
  ◌&&◌, Option, none, some, if◌then◌else◌, inl, inr, arith,
}
use guicpp.Outcome.{ok}
use guicpp.CString.{Bytes, drop, starts_with, scan_for, strstr}
use guicpp.CString.Cut.{drop-drop}
use guicpp.CString.Text.{IsNulFree, Text}

-- What follows the first occurrence of a text.
unfoldable pub after_text : Bytes → Bytes → Option Bytes
after_text needle [] = none
after_text needle (c ∷ s) =
    let more = after_text needle s in
    if starts_with needle (c ∷ s) then some (drop (length needle) (c ∷ s)) else more

starts_with-append :
    (needle s rest : Bytes)
    → IsNulFree needle
    → starts_with needle (s ++ 0 ∷ rest) ≡ starts_with needle s
starts_with-append [] s rest h = refl
starts_with-append (d ∷ ds) [] rest h = ground (arith, h.0)
starts_with-append (d ∷ ds) (c ∷ s) rest h = ap (◌&&◌ (c == d)) (starts_with-append ds s rest h.1)

drop-starts_with :
    (needle s rest : Bytes)
    → starts_with needle s ≡ true
    → drop (length needle) (s ++ rest) ≡ drop (length needle) s ++ rest
drop-starts_with [] s rest h = refl
drop-starts_with (d ∷ ds) [] rest h = cc
drop-starts_with (d ∷ ds) (c ∷ s) rest h =
    let tail : starts_with ds s ≡ true = ground (arith, h) in drop-starts_with ds s rest tail

IsNulFree-drop : (n : ℕ) (s : Bytes) → IsNulFree s → IsNulFree (drop n s)
IsNulFree-drop zero s h = h
IsNulFree-drop (suc n) [] h = tt
IsNulFree-drop (suc n) (c ∷ s) h = IsNulFree-drop n s h.1

module _ (needle : Bytes) (free : IsNulFree needle) where
  scan_for-none :
      (s rest : Bytes) (p : ℕ)
      → IsNulFree s
      → after_text needle s ≡ none
      → scan_for needle (s ++ 0 ∷ rest) p ≡ ok none
  unfolding scan_for after_text
  scan_for-none [] rest p h e = refl
  scan_for-none (c ∷ s) rest p h e =
      ground
        (arith, h.0, starts_with-append needle (c ∷ s) rest free, scan_for-none s rest (suc p) h.1)

  -- The place of the first occurrence, and what the array holds behind it.
  scan_for-some :
      (s rest b : Bytes) (p : ℕ)
      → IsNulFree s
      → after_text needle s ≡ some b
      → (n : ℕ) × (scan_for needle (s ++ 0 ∷ rest) p ≡ ok (some (p + n)))
        × (drop (n + length needle) (s ++ 0 ∷ rest) ≡ b ++ 0 ∷ rest)
        × IsNulFree b
  unfolding scan_for after_text
  scan_for-some [] rest b p h e = cc
  scan_for-some (c ∷ s) rest b p h e = elim (Bool-cases (starts_with needle (c ∷ s))) [
    | inl t ↦
        let q : drop (length needle) (c ∷ s) ≡ b = ground (arith, t, e) in
        let z : 0 + length needle ≡ length needle = omega arith in
        (
          0,
          ground (arith, h.0, t, starts_with-append needle (c ∷ s) rest free),
          ap (λ n. drop n (c ∷ (s ++ 0 ∷ rest))) z
              ∙ drop-starts_with needle (c ∷ s) (0 ∷ rest) t
              ∙ ap (◌++ (0 ∷ rest)) q,
          subst IsNulFree q (IsNulFree-drop (length needle) (c ∷ s) h),
        )
    | inr f ↦
        let (n, x, y, z) = scan_for-some s rest b (suc p) h.1 (ground (arith, f, e)) in
        let q : suc n + length needle ≡ suc (n + length needle) = omega arith in
        (
          suc n,
          ground (arith, h.0, f, starts_with-append needle (c ∷ s) rest free, x),
          ap (λ k. drop k (c ∷ (s ++ 0 ∷ rest))) q ∙ y,
          z,
        )
  ]

  module _ {buff s : Bytes} {p : ℕ} (t : Text buff p s) where
    pub strstr-none : after_text needle s ≡ none → strstr buff p needle ≡ ok none
    unfolding strstr
    strstr-none e = rw t.splits (scan_for-none s t.rest p t.nul_free e)

    pub strstr-some :
        (b : Bytes)
        → after_text needle s ≡ some b
        → (n : ℕ) × (strstr buff p needle ≡ ok (some n)) × Text buff (n + length needle) b
    unfolding strstr
    strstr-some b e =
        let (n, x, y, z) = scan_for-some s t.rest b p t.nul_free e in
        let q : p + n + length needle ≡ p + (n + length needle) = omega arith in
        (
          p + n,
          rw t.splits x,
          record {
            rest = t.rest;
            splits =
                ap (λ k. drop k buff) q
                ∙ sym (drop-drop p (n + length needle) buff)
                ∙ ap (drop (n + length needle)) t.splits
                ∙ y;
            nul_free = z;
          },
        )
