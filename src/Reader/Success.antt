-- ===== src/Reader/Success.antt =====
-- Where the reader returns a value, it is the entry's, and the reader would do the same with any other
-- Get.
use guicpp.Base.{
  ◌≡◌, refl, sym, ap, ◌∙◌, Option, none, some, Bool, same, Bool-cases, inl, inr, arith,
}
use guicpp.CType.{CType, is_same}
use guicpp.CType.Info.{type_specifier}
use guicpp.Values.{Value}
use guicpp.Entries.{Entry, bound_type, get_bind_type, invalid_bind, BindType-discrete}
use guicpp.Outcome.{Outcome, ok, fatal, Action, and_then}
use guicpp.Outcome.Laws.{and_then-eq-ok}
use guicpp.Reader.{get_bound_type, read_cast, read_as, read, convert}

module _ (rtti : Bool) {S : Type 0} where
  -- With every Get the reader's part `m` hands the entry to it and goes on with `h`.
  abbrev pub Reads : ((Entry → Action S Value) → Action S Value) → Entry → (Value → Value) → Type 0
  Reads m e h =
      (g : Entry → Action S Value) (s : S) → m g s ≡ and_then (g e s) (λ r. ok (h r.0, r.1))

  and_then-ok : (o : Outcome (Value × S)) → o ≡ and_then o (λ r. ok (r.0, r.1))
  and_then-ok o = ground arith

  get_bound_type-Reads :
      (f : Entry → Action S Value) (b : CType) (e : Entry) (s : S) (r : Value × S)
      → get_bound_type rtti f b e s ≡ ok r
      → Reads (λ g. get_bound_type rtti g b e) e (λ v. v)
  unfolding get_bound_type
  get_bound_type-Reads f b e s r h g s' = go (bound_type e) refl
    where
      go :
          (o : Outcome CType)
          → bound_type e ≡ o
          → get_bound_type rtti g b e s' ≡ and_then (g e s') (λ r. ok (r.0, r.1))
      go (ok u) p = elim (Bool-cases (is_same u b)) [
        | inl yes_same ↦ rw (p, yes_same) (and_then-ok (g e s'))
        | inr differ ↦ absurd (ground arith)
      ]
      go (fatal x) p = absurd (ground arith)
      go _ p = absurd (ground arith)

  read_cast-Reads :
      (f : Entry → Action S Value) (o : Option CType) (t : CType) (e : Entry) (s : S)
      (r : Value × S)
      → read_cast rtti f o t e s ≡ ok r
      → Reads (λ g. read_cast rtti g o t e) e (convert t)
  unfolding read_cast
  read_cast-Reads f none t e s r h g s' = cc
  read_cast-Reads f (some b) t e s r h g s' =
      let (a, got, _) =
        and_then-eq-ok (get_bound_type rtti f b e s) (λ x. ok (convert t x.0, x.1)) {b = r} h in
      ap (λ o. and_then o (λ x. ok (convert t x.0, x.1)))
        (get_bound_type-Reads f b e s a got g s' ∙ sym (and_then-ok (g e s')))

  read_as-Reads :
      (f : Entry → Action S Value) (t b : CType) (e : Entry) (s : S) (r : Value × S)
      → read_as rtti f t b e s ≡ ok r
      → Reads (λ g. read_as rtti g t b e) e (convert t)
  unfolding read_as
  read_as-Reads f t b e s r h g s' =
      elim (Bool-cases (is_same (type_specifier t) (type_specifier b))) [
        | inl yes_same ↦ rw yes_same (read_cast-Reads f _ t e s r (rw yes_same at h) g s')
        | inr differ ↦ absurd (ground arith)
      ]

  -- If the reader returns a value with one Get, then with every Get it converts what that returns.
  pub read-Reads :
      (f : Entry → Action S Value) (t : CType) (e : Entry) (s : S) (r : Value × S)
      → read rtti f t e s ≡ ok r
      → Reads (λ g. read rtti g t e) e (convert t)
  unfolding read
  read-Reads f t e s r h g s' =
      elim (Bool-cases (same BindType-discrete (get_bind_type e) invalid_bind)) [
        | inl bad ↦ absurd (ground arith)
        | inr good ↦ rw good (go (bound_type e) refl)
      ]
    where
      go :
          (o : Outcome CType)
          → bound_type e ≡ o
          → and_then {A = CType × S}
              (and_then o (λ a. ok (a, s')))
              (λ x. read_as rtti g t x.0 e x.1)
            ≡ and_then (g e s') (λ x. ok (convert t x.0, x.1))
      go (ok b) p = read_as-Reads f t b e s r (ground arith) g s'
      go _ p = absurd (ground arith)
