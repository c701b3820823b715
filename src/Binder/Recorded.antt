-- ===== src/Binder/Recorded.antt =====
-- What bindings do to a binder, by their ids: which ids it finds, and how many it counts as errors.
use guicpp.Base.{
  ℕ, suc, ◌+◌, ◌≡◌, refl, sym, ap, ◌∙◌, List, [], ◌∷◌, ◌++◌, Bool, true, false, ◌||◌, Option, none,
  some, same, if◌then◌else◌, arith, Option-cases, inl, inr,
}
use guicpp.Entries.{TypeId, TypeId-discrete, Entry}
use guicpp.Outcome.{
  Outcome, ok, fatal, undefined, ill_formed, out_of_fuel, and_then, Action, ◌>>=◌, ◌>>◌,
}
use guicpp.Outcome.Keeps.{Post, Keeps, IsPreorder}
use guicpp.Table
use guicpp.Table.{BindTable, add_entry}
use guicpp.Table.Laws.{find_entry-add_entry, add_entry_lem, or_else}
use guicpp.Scope.State.{Store}
use guicpp.Binder.{Binder, add_bind_entry, on_store}

-- The id is one of those.
abbrev pub is_among : TypeId → List TypeId → Bool
is_among i [] = false
is_among i (j ∷ is) = same TypeId-discrete j i || is_among i is

-- How many of the ids, one after the other, were there before: in `seen`, or earlier in the list.
abbrev pub repeats : (TypeId → Bool) → List TypeId → ℕ
repeats seen [] = 0
repeats seen (i ∷ is) =
    (if seen i then 1 else 0) + repeats (λ j. seen j || same TypeId-discrete i j) is

abbrev pub is_some : Option Entry → Bool
is_some none = false
is_some (some e) = true

-- The binder has a binding for the id.
abbrev pub has_id : Binder → TypeId → Bool
has_id b i = is_some (Table.find_entry i b.table)

-- Between the two binders the ids were bound, in that order.
pub record Recorded (is : List TypeId) (b b' : Binder) : Type 0 where
  pub counts : b'.num_errors ≡ b.num_errors + repeats (has_id b) is
  pub finds : (i : TypeId) → has_id b' i ≡ (has_id b i || is_among i is)

-- Where the action returns, it has bound the ids.
abbrev pub Records : {A : Type 0} → Outcome (List TypeId) → Action Binder A → Type 0
Records ids m =
    (b : Binder) → Post (λ b'. (is : List TypeId) × (ids ≡ ok is) × Recorded is b b') (m b)

is_some-or_else : (a b : Option Entry) → is_some (or_else a b) ≡ (is_some a || is_some b)
is_some-or_else none b = refl
is_some-or_else (some e) b = refl

is_some-if : (t : Bool) (e : Entry) → is_some (if t then some e else none) ≡ (t || false)
is_some-if true e = refl
is_some-if false e = refl

-- The error that an addition counts.
error-add_entry :
    (tid : TypeId) (e : Entry) (b : Binder)
    → (if (add_entry tid e b.table).1 then b.num_errors else suc b.num_errors)
      ≡ b.num_errors + ((if has_id b tid then 1 else 0) + 0)
error-add_entry tid e b =
    let flag = (add_entry_lem tid e b.table).0 in
    elim (Option-cases (Table.find_entry tid b.table)) [
      | inl free ↦ rw (flag.1 free, free) (omega arith)
      | inr (x, taken) ↦
          let refused : (add_entry tid e b.table).1 ≡ false =
            not_true (add_entry tid e b.table).1 λ t. cc (flag.0 t, taken) in
          rw (refused, taken) (omega arith)
    ]
  where
    not_true : (t : Bool) → (t ≡ true → ⊥) → t ≡ false
    not_true true n = absurd (n refl)
    not_true false n = refl

pub add_bind_entry-Recorded :
    (tid : TypeId) (e : Entry) (b : Binder) → Post (Recorded (tid ∷ []) b) (add_bind_entry tid e b)
add_bind_entry-Recorded tid e b =
    unfold add_bind_entry in
    record {
      counts = error-add_entry tid e b;
      finds = λ i.
          ap is_some (find_entry-add_entry tid i e b.table)
          ∙ is_some-or_else (Table.find_entry i b.table)
              (if same TypeId-discrete tid i then some e else none)
          ∙ ap (λ t. has_id b i || t) (is_some-if (same TypeId-discrete tid i) e);
    }

pub repeats-cong :
    (f g : TypeId → Bool) (is : List TypeId)
    → ((i : TypeId) → f i ≡ g i)
    → repeats f is ≡ repeats g is
repeats-cong f g [] h = refl
repeats-cong f g (i ∷ is) h = rw (h i) (
    ap (λ n. (if g i then 1 else 0) + n)
      (repeats-cong (λ j. f j || same TypeId-discrete i j) (λ j. g j || same TypeId-discrete i j) is
        λ j. ap (λ t. t || same TypeId-discrete i j) (h j)))

pub or_false : (a : Bool) → a ≡ (a || false)
or_false true = refl
or_false false = refl

or_assoc : (a b c : Bool) → ((a || b) || c) ≡ (a || (b || c))
or_assoc true b c = refl
or_assoc false true c = refl
or_assoc false false c = refl

repeats-append :
    (f : TypeId → Bool) (is js : List TypeId)
    → repeats f (is ++ js) ≡ repeats f is + repeats (λ j. f j || is_among j is) js
repeats-append f [] js =
    let same = repeats-cong f (λ j. f j || false) js λ i. or_false (f i) in omega (arith, same)
repeats-append f (i ∷ is) js =
    let g = λ (j : TypeId). f j || same TypeId-discrete i j in
    let rest = repeats-append g is js in
    let shift =
      repeats-cong (λ j. g j || is_among j is) (λ j. f j || is_among j (i ∷ is)) js
        λ j. or_assoc (f j) (same TypeId-discrete i j) (is_among j is) in
    omega (arith, rest, shift)

is_among-append :
    (i : TypeId) (is js : List TypeId) → is_among i (is ++ js) ≡ (is_among i is || is_among i js)
is_among-append i [] js = refl
is_among-append i (j ∷ is) js =
    ap (λ t. same TypeId-discrete j i || t) (is_among-append i is js)
    ∙ sym (or_assoc (same TypeId-discrete j i) (is_among i is) (is_among i js))

Recorded-append :
    (is js : List TypeId) (a b c : Binder)
    → Recorded is a b
    → Recorded js b c
    → Recorded (is ++ js) a c
Recorded-append is js a b c h k =
    let later = repeats-cong (has_id b) (λ i. has_id a i || is_among i is) js h.finds in
    record {
      counts = omega (arith, h.counts, k.counts, later, repeats-append (has_id a) is js);
      finds = λ i.
          k.finds i
          ∙ ap (λ t. t || is_among i js) (h.finds i)
          ∙ or_assoc (has_id a i) (is_among i is) (is_among i js)
          ∙ ap (λ t. has_id a i || t) (sym (is_among-append i is js));
    }

-- No binding was made.
abbrev pub Same : Binder → Binder → Type 0
Same b b' = (b'.table ≡ b.table) × (b'.num_errors ≡ b.num_errors)

pub Same-IsPreorder : IsPreorder Same
Same-IsPreorder = record {
  reflexive = λ s. (refl, refl);
  transitive = λ s t u h k. (k.0 ∙ h.0, k.1 ∙ h.1);
}

Recorded-Same : (is : List TypeId) (a b c : Binder) → Same a b → Recorded is b c → Recorded is a c
Recorded-Same is a b c (table, errors) h =
    let had = λ (i : TypeId). ap (λ (t : BindTable Entry). is_some (Table.find_entry i t)) table in
    record {
      counts = omega (arith, h.counts, errors, repeats-cong (has_id b) (has_id a) is had);
      finds = λ i. h.finds i ∙ ap (λ t. t || is_among i is) (had i);
    }

pub on_store-Same : {A : Type 0} (m : Action Store A) → Keeps Same (on_store m)
on_store-Same {A} m s = go (m s.store)
  where
    go :
        (o : Outcome (A × Store))
        → Post (Same s) (and_then o λ r. ok (r.0, record s { store = r.1 }))
    go (ok r) = (refl, refl)
    go (fatal e) = tt
    go undefined = tt
    go ill_formed = tt
    go out_of_fuel = tt

pub Recorded-none : (b : Binder) → Recorded [] b b
Recorded-none b = record { counts = omega arith; finds = λ i. or_false (has_id b i) }

-- Two actions after each other bind the ids of both.
pub then-Records :
    (is js : Outcome (List TypeId)) (m n : Action Binder (Unit {0}))
    → Records is m
    → Records js n
    → Records (and_then is λ xs. and_then js λ ys. ok (xs ++ ys)) (m >> n)
then-Records is js m n h k b = go (m b) (h b)
  where
    both : Outcome (List TypeId)
    both = and_then is λ xs. and_then js λ ys. ok (xs ++ ys)

    next :
        (c : Binder) (o : Outcome (Unit {0} × Binder)) (xs : List TypeId)
        → is ≡ ok xs
        → Recorded xs b c
        → Post (λ b'. (ys : List TypeId) × (js ≡ ok ys) × Recorded ys c b') o
        → Post (λ b'. (zs : List TypeId) × (both ≡ ok zs) × Recorded zs b b') o
    next c (ok r) xs q g (ys, p, f) = (xs ++ ys, rw (q, p) refl, Recorded-append xs ys b c r.1 g f)
    next c (fatal x) xs q g f = tt
    next c undefined xs q g f = tt
    next c ill_formed xs q g f = tt
    next c out_of_fuel xs q g f = tt

    go :
        (o : Outcome (Unit {0} × Binder))
        → Post (λ b'. (xs : List TypeId) × (is ≡ ok xs) × Recorded xs b b') o
        → Post
            (λ b'. (zs : List TypeId) × (both ≡ ok zs) × Recorded zs b b')
            (and_then o λ r. n r.1)
    go (ok r) (xs, q, g) = next r.1 (n r.1) xs q g (k r.1)
    go (fatal x) e = tt
    go undefined e = tt
    go ill_formed e = tt
    go out_of_fuel e = tt

-- An action that binds nothing, and then one that binds the ids.
pub Records->>= :
    {A B : Type 0} (ids : Outcome (List TypeId)) (m : Action Binder A) (f : A → Action Binder B)
    → Keeps Same m
    → ((a : A) → Records ids (f a))
    → Records ids (m >>= f)
Records->>= {A} {B} ids m f h k b = go (m b) (h b)
  where
    next :
        (c : Binder) (o : Outcome (B × Binder))
        → Same b c
        → Post (λ b'. (is : List TypeId) × (ids ≡ ok is) × Recorded is c b') o
        → Post (λ b'. (is : List TypeId) × (ids ≡ ok is) × Recorded is b b') o
    next c (ok r) e (is, q, h) = (is, q, Recorded-Same is b c r.1 e h)
    next c (fatal x) e h = tt
    next c undefined e h = tt
    next c ill_formed e h = tt
    next c out_of_fuel e h = tt

    go :
        (o : Outcome (A × Binder))
        → Post (Same b) o
        → Post
            (λ b'. (is : List TypeId) × (ids ≡ ok is) × Recorded is b b')
            (and_then o λ r. f r.0 r.1)
    go (ok r) e = next r.1 (f r.0 r.1) e (k r.0 r.1)
    go (fatal x) e = tt
    go undefined e = tt
    go ill_formed e = tt
    go out_of_fuel e = tt
