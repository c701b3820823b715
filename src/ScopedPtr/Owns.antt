-- ===== src/ScopedPtr/Owns.antt =====
-- A scoped_ptr deletes each object that it was given once.
use mathlib.Core.List.{append_assoc, reverse-cons, append-nil}
use guicpp.Base.{
  ℕ, ◌≡◌, refl, sym, ap, ◌∙◌, List, [], ◌∷◌, ◌++◌, Option, none, some, false, reverse,
  if◌then◌else◌, inl, inr, Bool-cases,
}
use guicpp.Outcome.{ok}
use guicpp.Scope.State.{member}
use guicpp.ScopedPtr.{ScopedPtr, delete, differs, reset, use_up, lifetime}

-- The objects that a scoped_ptr owns in turn: NULL owns none, and a pointer that is handed over while it
-- is there counts once.
abbrev pub held : Option ℕ → List ℕ
held none = []
held (some n) = n ∷ []

abbrev pub owned : Option ℕ → List (Option ℕ) → List ℕ
owned p [] = held p
owned p (q ∷ qs) = if differs q p then held p ++ owned q qs else owned p qs

-- No object comes twice, or is among those that were deleted.
abbrev pub AreNew : List ℕ → List ℕ → Type 0
AreNew [] gone = Unit
AreNew (n ∷ ns) gone = (member n gone ≡ false) × AreNew ns (n ∷ gone)

-- The objects `ns` were deleted in turn.
abbrev with_gone : List ℕ → List ℕ → List ℕ
with_gone [] gone = gone
with_gone (n ∷ ns) gone = with_gone ns (n ∷ gone)

with_gone-reverse : (ns gone : List ℕ) → with_gone ns gone ≡ reverse ns ++ gone
with_gone-reverse [] gone = refl
with_gone-reverse (n ∷ ns) gone =
    with_gone-reverse ns (n ∷ gone)
    ∙ sym (ap (λ r. r ++ gone) (reverse-cons n ns) ∙ append_assoc (reverse ns) (n ∷ []) gone)

use_up_lem :
    (ps : List (Option ℕ)) (p : Option ℕ) (gone : List ℕ)
    → AreNew (owned p ps) gone
    → (s : ScopedPtr) × (use_up ps (record { ptr = p; deleted = gone }) ≡ ok (tt, s))
      × (s.deleted ≡ with_gone (owned p ps) gone)
unfolding use_up reset delete differs
use_up_lem [] none gone h = (_, refl, refl)
use_up_lem [] (some n) gone h = (record { ptr = none; deleted = n ∷ gone }, rw (h.0) refl, refl)
use_up_lem (q ∷ ps) none gone h = elim (Bool-cases (differs q none)) [
  | inl y ↦ let (s, runs, gone_s) = use_up_lem ps q gone (rw y at h) in (s, rw y runs, rw y gone_s)
  | inr n ↦
      let (s, runs, gone_s) = use_up_lem ps none gone (rw n at h) in (s, rw n runs, rw n gone_s)
]
use_up_lem (q ∷ ps) (some m) gone h = elim (Bool-cases (differs q (some m))) [
  | inl y ↦
      let k = rw y at h in
      let (s, runs, gone_s) = use_up_lem ps q (m ∷ gone) k.1 in (s, rw (y, k.0) runs, rw y gone_s)
  | inr n ↦
      let (s, runs, gone_s) = use_up_lem ps (some m) gone (rw n at h) in (s, rw n runs, rw n gone_s)
]

-- If no object comes back once it was replaced, then the life of a scoped_ptr is defined, and it
-- has deleted each object that it owned, once and in the order in which it owned them.
pub lifetime_lem :
    (p : Option ℕ) (ps : List (Option ℕ))
    → AreNew (owned p ps) []
    → lifetime p ps ≡ ok (reverse (owned p ps))
unfolding lifetime
lifetime_lem p ps h =
    let (s, runs, gone) = use_up_lem ps p [] h in
    rw runs (
      ap (λ (x : List ℕ). ok x)
        (gone ∙ (with_gone-reverse (owned p ps) [] ∙ append-nil (reverse (owned p ps)))))
