-- ===== src/CString/Text.antt =====
-- A NUL-terminated text inside an array, and what the C string functions find in it.
use mathlib.Core.List.{append_assoc}
use guicpp.Base.{
  ◌∙◌, sym, ℕ, suc, ◌+◌, ◌<◌, ◌≡◌, ◌≢◌, refl, ap, subst, inl, inr, [], ◌∷◌, ◌++◌, All, length, set,
  Bool, Bool-cases, Option, none, some, if◌then◌else◌, arith,
}
use guicpp.Outcome.{ok}
use guicpp.CString.Cut.{drop_all, take_all, drop-drop, set-end, drop-set, drop_behind, length-drop}
use guicpp.CString.{substring, c_string, Bytes, drop, scan, up_to_nul}

abbrev pub IsNulFree : Bytes → Type 0
IsNulFree = All (λ c. c ≢ 0)

-- The NUL-terminated text at a position of an array, and what follows it there.
pub record Text (buff : Bytes) (p : ℕ) (s : Bytes) : Type 0 where
  pub rest : Bytes
  pub splits : drop p buff ≡ s ++ 0 ∷ rest
  pub nul_free : IsNulFree s

-- The part of a text before the first byte that passes, and the part behind that byte.
unfoldable pub before : (ℕ → Bool) → Bytes → Bytes
before test [] = []
before test (c ∷ s) = let more = before test s in if test c then [] else c ∷ more

unfoldable pub after : (ℕ → Bool) → Bytes → Option Bytes
after test [] = none
after test (c ∷ s) = let more = after test s in if test c then some s else more

pub before-none : (test : ℕ → Bool) (s : Bytes) → after test s ≡ none → before test s ≡ s
unfolding before after
before-none test [] h = refl
before-none test (c ∷ s) h = ground (arith, before-none test s)

pub after-splits :
    (test : ℕ → Bool) (s b : Bytes) → after test s ≡ some b → (c : ℕ) × (s ≡ before test s ++ c ∷ b)
unfolding before after
after-splits test [] b h = cc
after-splits test (c ∷ s) b h = elim (Bool-cases (test c)) [
  | inl e ↦ (c, ground (arith, e, h))
  | inr e ↦ let (d, q) = after-splits test s b (ground (arith, e, h)) in (d, rw e (ap (◌∷◌ c) q))
]

IsNulFree-append : (a b : Bytes) → IsNulFree (a ++ b) → IsNulFree a × IsNulFree b
IsNulFree-append [] b h = (tt, h)
IsNulFree-append (c ∷ a) b h = let (x, y) = IsNulFree-append a b h.1 in ((h.0, x), y)

pub IsNulFree-before : (test : ℕ → Bool) (s : Bytes) → IsNulFree s → IsNulFree (before test s)
unfolding before
IsNulFree-before test [] h = tt
IsNulFree-before test (c ∷ s) h = elim (Bool-cases (test c)) [
  | inl e ↦ rw e tt
  | inr e ↦ rw e (h.0, IsNulFree-before test s h.1)
]

pub IsNulFree-after :
    (test : ℕ → Bool) (s b : Bytes) → after test s ≡ some b → IsNulFree s → IsNulFree b
unfolding after
IsNulFree-after test [] b e h = cc
IsNulFree-after test (c ∷ s) b e h = elim (Bool-cases (test c)) [
  | inl t ↦ let q : s ≡ b = ground (arith, t, e) in subst IsNulFree q h.1
  | inr t ↦ IsNulFree-after test s b (ground (arith, t, e)) h.1
]

scan-none :
    (test : ℕ → Bool) (s rest : Bytes) (p : ℕ)
    → IsNulFree s
    → after test s ≡ none
    → scan test (s ++ 0 ∷ rest) p ≡ ok none
unfolding scan after
scan-none test [] rest p h e = refl
scan-none test (c ∷ s) rest p h e = ground (arith, h.0, scan-none test s rest (suc p) h.1)

scan-some :
    (test : ℕ → Bool) (s rest b : Bytes) (p : ℕ)
    → IsNulFree s
    → after test s ≡ some b
    → scan test (s ++ 0 ∷ rest) p ≡ ok (some (p + length (before test s)))
unfolding scan after before
scan-some test [] rest b p h e = cc
scan-some test (c ∷ s) rest b p h e = ground (arith, h.0, scan-some test s rest b (suc p) h.1)

up_to_nul-text : (s rest : Bytes) → IsNulFree s → up_to_nul (s ++ 0 ∷ rest) ≡ ok s
unfolding up_to_nul
up_to_nul-text [] rest h = refl
up_to_nul-text (c ∷ s) rest h = ground (arith, h.0, up_to_nul-text s rest h.1)

module _ {buff s : Bytes} {p : ℕ} (t : Text buff p s) where
  -- What the string functions find at the text.
  pub scan-Text-none : (test : ℕ → Bool) → after test s ≡ none → scan test (drop p buff) p ≡ ok none
  scan-Text-none test e = rw t.splits (scan-none test s t.rest p t.nul_free e)

  pub scan-Text-some :
      (test : ℕ → Bool) (b : Bytes)
      → after test s ≡ some b
      → scan test (drop p buff) p ≡ ok (some (p + length (before test s)))
  scan-Text-some test b e = rw t.splits (scan-some test s t.rest b p t.nul_free e)

  pub c_string-Text : c_string buff p ≡ ok s
  unfolding c_string
  c_string-Text = rw t.splits (up_to_nul-text s t.rest t.nul_free)

  Text-cut_lem :
      (test : ℕ → Bool) (b : Bytes)
      → after test s ≡ some b
      → (c : ℕ) × (drop p buff ≡ before test s ++ c ∷ (b ++ 0 ∷ t.rest))
  Text-cut_lem test b e =
      let (c, q) = after-splits test s b e in
      (c, t.splits ∙ ap (◌++ (0 ∷ t.rest)) q ∙ append_assoc (before test s) (c ∷ b) (0 ∷ t.rest))

  pub substring-Text :
      (test : ℕ → Bool) (b : Bytes)
      → after test s ≡ some b
      → substring buff p (length (before test s)) ≡ before test s
  substring-Text test b e =
      let (c, q) = Text-cut_lem test b e in rw q (take_all (before test s) (c ∷ (b ++ 0 ∷ t.rest)))

  -- The text behind the byte that was found.
  pub Text-after :
      (test : ℕ → Bool) (b : Bytes)
      → after test s ≡ some b
      → Text buff (suc (p + length (before test s))) b
  Text-after test b e =
      let (c, q) = Text-cut_lem test b e in
      record {
        rest = t.rest;
        splits = drop_behind buff p (before test s) (b ++ 0 ∷ t.rest) c q;
        nul_free = IsNulFree-after test s b e t.nul_free;
      }

  Text-cut_set :
      (test : ℕ → Bool) (b : Bytes)
      → after test s ≡ some b
      → drop p (set buff (p + length (before test s)) 0) ≡ before test s ++ 0 ∷ (b ++ 0 ∷ t.rest)
  Text-cut_set test b e =
      let (c, q) = Text-cut_lem test b e in
      drop-set p (length (before test s)) buff 0
      ∙ ap (λ l. set l (length (before test s)) 0) q
      ∙ set-end (before test s) (b ++ 0 ∷ t.rest) c 0

  -- A NUL written over that byte ends the text there.
  pub Text-before :
      (test : ℕ → Bool) (b : Bytes)
      → after test s ≡ some b
      → Text (set buff (p + length (before test s)) 0) p (before test s)
  Text-before test b e = record {
    rest = b ++ 0 ∷ t.rest;
    splits = Text-cut_set test b e;
    nul_free = IsNulFree-before test s t.nul_free;
  }

  -- The text behind it is still there.
  pub Text-behind :
      (test : ℕ → Bool) (b : Bytes)
      → after test s ≡ some b
      → Text (set buff (p + length (before test s)) 0) (suc (p + length (before test s))) b
  Text-behind test b e = record {
    rest = t.rest;
    splits =
        drop_behind (set buff (p + length (before test s)) 0) p (before test s) (b ++ 0 ∷ t.rest) 0
          (Text-cut_set test b e);
    nul_free = IsNulFree-after test s b e t.nul_free;
  }

  -- That byte lies inside the array.
  pub found-inside :
      (test : ℕ → Bool) (b : Bytes)
      → after test s ≡ some b
      → p + length (before test s) < length buff
  found-inside test b e =
      let (c, q) = Text-cut_lem test b e in
      length-drop (p + length (before test s)) buff (b ++ 0 ∷ t.rest) c (
        sym (drop-drop p (length (before test s)) buff)
        ∙ ap (drop (length (before test s))) q
        ∙ drop_all (before test s) (c ∷ (b ++ 0 ∷ t.rest)))
