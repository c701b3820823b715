-- ===== src/CString/Split.antt =====
-- Texts cut at each byte that passes a test.
use guicpp.Base.{ℕ, ◌≡◌, refl, List, [], ◌∷◌, ◌++◌, Bool, true, none, some, if◌then◌else◌, arith}
use guicpp.CString.{Bytes}
use guicpp.CString.Text.{before, after}
use guicpp.CString.Fails.{Fails, before-at, after-at}

-- The pieces between the bytes that pass a test: one more than there are such bytes.
unfoldable pub split : (ℕ → Bool) → Bytes → List Bytes
split test [] = [] ∷ []
split test (c ∷ s) =
    let more = split test s in
    if test c then [] ∷ more else elim more [ [] ↦ (c ∷ []) ∷ [] | f ∷ r ↦ (c ∷ f) ∷ r ]

pub split_lem :
    (test : ℕ → Bool) (s : Bytes)
    → split test s ≡ before test s ∷ elim (after test s) [ none ↦ [] | some b ↦ split test b ]
unfolding split before after
split_lem test [] = refl
split_lem test (c ∷ s) = ground (arith, split_lem test s)

pub split-at :
    (test : ℕ → Bool) (a b : Bytes) (c : ℕ)
    → Fails test a
    → test c ≡ true
    → split test (a ++ c ∷ b) ≡ a ∷ split test b
split-at test a b c h t =
    rw (split_lem test (a ++ c ∷ b), before-at test a b c h t, after-at test a b c h t) refl

pub split-Fails : (test : ℕ → Bool) (a : Bytes) → Fails test a → split test a ≡ a ∷ []
unfolding split
split-Fails test [] h = refl
split-Fails test (c ∷ a) h = rw (h.0, split-Fails test a h.1) refl
