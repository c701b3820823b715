-- ===== src/CString/Fails.antt =====
-- Texts in which no byte passes a test.
use guicpp.Base.{ℕ, ◌≡◌, refl, ap, [], ◌∷◌, ◌++◌, All, Bool, true, false, some}
use guicpp.CString.{Bytes}
use guicpp.CString.Text.{before, after}

-- No byte passes.
abbrev pub Fails : (ℕ → Bool) → Bytes → Type 0
Fails test = All (λ c. test c ≡ false)

pub before-Fails :
    (test : ℕ → Bool) (a b : Bytes) → Fails test a → before test (a ++ b) ≡ a ++ before test b
unfolding before
before-Fails test [] b h = refl
before-Fails test (c ∷ a) b h = rw (h.0) (ap (◌∷◌ c) (before-Fails test a b h.1))

pub after-Fails :
    (test : ℕ → Bool) (a b : Bytes) → Fails test a → after test (a ++ b) ≡ after test b
unfolding after
after-Fails test [] b h = refl
after-Fails test (c ∷ a) b h = rw (h.0) (after-Fails test a b h.1)

-- The first byte that passes stands behind such bytes.
pub before-at :
    (test : ℕ → Bool) (a b : Bytes) (c : ℕ)
    → Fails test a
    → test c ≡ true
    → before test (a ++ c ∷ b) ≡ a
unfolding before
before-at test [] b c h t = rw t refl
before-at test (d ∷ a) b c h t = rw (h.0) (ap (◌∷◌ d) (before-at test a b c h.1 t))

pub after-at :
    (test : ℕ → Bool) (a b : Bytes) (c : ℕ)
    → Fails test a
    → test c ≡ true
    → after test (a ++ c ∷ b) ≡ some b
unfolding after
after-at test [] b c h t = rw t refl
after-at test (d ∷ a) b c h t = rw (h.0) (after-at test a b c h.1 t)

pub Fails-weaken :
    (p q : ℕ → Bool) (a : Bytes) → ((c : ℕ) → q c ≡ false → p c ≡ false) → Fails q a → Fails p a
Fails-weaken p q [] w h = tt
Fails-weaken p q (c ∷ a) w h = (w c h.0, Fails-weaken p q a w h.1)

pub Fails-append :
    (test : ℕ → Bool) (a b : Bytes) → Fails test a → Fails test b → Fails test (a ++ b)
Fails-append test [] b h k = k
Fails-append test (c ∷ a) b h k = (h.0, Fails-append test a b h.1 k)
