-- ===== src/ContactList/Lines.antt =====
-- What getline stores, and the contact that is read from it.
use guicpp.Base.{
  ℕ, zero, suc, ◌+◌, ◌-◌, ◌≤◌, ◌<◌, ◌≡◌, refl, ◌∙◌, List, [], ◌∷◌, length, Bool, Bool-cases, Option,
  none, some, Option-cases, ◌==◌, inl, inr, arith,
}
use guicpp.Outcome.{ok}
use guicpp.CString.{Bytes, codes, take, is_char, is_one_of, strpbrk}
use guicpp.CString.Split.{split, split_lem}
use guicpp.CString.Nul.{strpbrk-Text}
use guicpp.CString.Text.{
  Text, before, after, before-none, scan-Text-none, scan-Text-some, c_string-Text, substring-Text,
  Text-after,
}
use guicpp.ContactList.{at_end, at_newline, at_limit, take_line, read_value, read_contact}
use guicpp.ContactList.Syntax.{value_at, contact}

abbrev pub newline : ℕ → Bool
newline = is_char b'\n'

-- A line for which there is room, the last one.
pub take_line-last :
    (room : ℕ) (xs : Bytes)
    → after newline xs ≡ none
    → length xs ≤ room
    → take_line room xs ≡ (xs, [], at_end)
unfolding take_line after
take_line-last room [] e h = refl
take_line-last zero (c ∷ cs) e h = absurd (omega (arith, h))
take_line-last (suc room) (c ∷ cs) e h = ground (arith, e, take_line-last room cs)

-- Another line for which there is room.
pub take_line-more :
    (room : ℕ) (xs b : Bytes)
    → after newline xs ≡ some b
    → length (before newline xs) ≤ room
    → take_line room xs ≡ (before newline xs, b, at_newline)
unfolding take_line after before
take_line-more room [] b e h = cc
take_line-more zero (c ∷ cs) b e h = elim (Bool-cases (c == b'\n')) [
  | inl n ↦ ground (arith, n, e)
  | inr n ↦ absurd (ground (arith, n, h))
]
take_line-more (suc room) (c ∷ cs) b e h = elim (Bool-cases (c == b'\n')) [
  | inl n ↦ ground (arith, n, e)
  | inr n ↦
      let r : after newline cs ≡ some b = ground (arith, n, e) in
      let s : length (before newline cs) ≤ room = ground (arith, n, h) in
      rw (n, take_line-more room cs b r s) refl
]

-- A line that is too long.
pub take_line-long :
    (room : ℕ) (xs : Bytes)
    → room < length (before newline xs)
    → (rest : Bytes) × (take_line room xs ≡ (take room (before newline xs), rest, at_limit))
unfolding take_line before
take_line-long room [] h = absurd (omega (arith, h))
take_line-long zero (c ∷ cs) h = elim (Bool-cases (c == b'\n')) [
  | inl n ↦ absurd (ground (arith, n, h))
  | inr n ↦ (c ∷ cs, rw n refl)
]
take_line-long (suc room) (c ∷ cs) h = elim (Bool-cases (c == b'\n')) [
  | inl n ↦ absurd (ground (arith, n, h))
  | inr n ↦
      let s : room < length (before newline cs) = ground (arith, n, h) in
      let (rest, e) = take_line-long room cs s in (rest, rw (n, e) refl)
]

abbrev ends_value : ℕ → Bool
ends_value = is_one_of (codes ",\n")

-- Where the rest of the values stands in the array.
data At (line : Bytes) : Option ℕ → List Bytes → Type 0 where
  at_none : At line none []
  at_some :
      {p : ℕ} {f : Bytes} {vs : List Bytes}
      → Text line p f
      → vs ≡ split ends_value f
      → At line (some p) vs

abbrev rest_of : List Bytes → List Bytes
rest_of [] = []
rest_of (v ∷ vs) = vs

read_value_lem :
    (line : Bytes) (o : Option ℕ) (vs : List Bytes)
    → At line o vs
    → (q : Option ℕ) × (read_value line o ≡ ok (q, value_at 0 vs)) × At line q (rest_of vs)
unfolding read_value strpbrk
read_value_lem line _ _ at_none = (none, refl, at_none)
read_value_lem line _ vs (at_some {p} {f} t e) = elim (Option-cases (after ends_value f)) [
  | inl n ↦
      let one : vs ≡ f ∷ [] =
        e ∙ split_lem ends_value f ∙ rw (n, before-none ends_value f n) refl in
      (none, rw (scan-Text-none t ends_value n, c_string-Text t, one) refl, rw one at_none)
  | inr (b, n) ↦
      let k = length (before ends_value f) in
      let back : p + k - p ≡ k = omega arith in
      let more : vs ≡ before ends_value f ∷ split ends_value b =
        e ∙ split_lem ends_value f ∙ rw n refl in
      (
        some (suc (p + k)),
        rw (scan-Text-some t ends_value b n, back, substring-Text t ends_value b n, more) refl,
        rw more (at_some (Text-after t ends_value b n) refl),
      )
]

value_at-rest_of : (n : ℕ) (vs : List Bytes) → value_at n (rest_of vs) ≡ value_at (suc n) vs
value_at-rest_of n [] = refl
value_at-rest_of n (v ∷ vs) = refl

-- The contact of a text that stands at the front of the array.
pub read_contact_lem :
    (line f : Bytes) → Text line 0 f → read_contact line ≡ ok (contact (split ends_value f))
unfolding read_contact
read_contact_lem line f t =
    let vs = split ends_value f in
    let (a, ea, ta) = read_value_lem line (some 0) vs (at_some t refl) in
    let (b, eb, tb) = read_value_lem line a (rest_of vs) ta in
    let (c, ec, tc) = read_value_lem line b (rest_of (rest_of vs)) tb in
    let (d, ed, td) = read_value_lem line c (rest_of (rest_of (rest_of vs))) tc in
    let second = value_at-rest_of 0 vs in
    let third = value_at-rest_of 0 (rest_of vs) ∙ value_at-rest_of 1 vs in
    let fourth =
      value_at-rest_of 0 (rest_of (rest_of vs))
      ∙ value_at-rest_of 1 (rest_of vs)
      ∙ value_at-rest_of 2 vs in
    let (o, eo) = strpbrk-Text t (codes ",\n") in
    rw (eo, ea, eb, ec, ed, second, third, fourth) refl
