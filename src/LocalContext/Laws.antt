-- ===== src/LocalContext/Laws.antt =====
-- The loop of FindEntry is a search for the first pair of an id.
use mathlib.Core.List.{append_assoc}
use guicpp.Base.{
  suc, ◌≡◌, refl, sym, length-append, List, [], ◌∷◌, ◌++◌, Option, none, some, get_elem?, length,
  if◌then◌else◌, same, arith,
}
use guicpp.Entries.{TypeId, TypeId-discrete, Entry}
use guicpp.Outcome.{ok}
use guicpp.LocalContext.{TypeIdArgumentPair, find_loop, find_entry}

-- The entry of the first pair with the id.
unfoldable pub first_match : TypeId → List TypeIdArgumentPair → Option Entry
first_match tid [] = none
first_match tid (a ∷ r) =
    if same TypeId-discrete a.type_id tid then some a.entry else first_match tid r

get_elem?-middle {ℓ} :
    {A : Type ℓ} (xs ys : List A) (y : A) → get_elem? (xs ++ y ∷ ys) (length xs) ≡ some y
get_elem?-middle [] ys y = refl
get_elem?-middle (x ∷ xs) ys y = get_elem?-middle xs ys y

length-snoc {ℓ} : {A : Type ℓ} (xs : List A) (y : A) → length (xs ++ y ∷ []) ≡ suc (length xs)
length-snoc xs y = omega (arith, length-append xs (y ∷ []))

find_loop-first_match :
    (tid : TypeId) (seen rest : List TypeIdArgumentPair)
    → find_loop (length rest) (length seen) tid (seen ++ rest) ≡ ok (first_match tid rest)
unfolding find_loop first_match
find_loop-first_match tid seen [] = refl
find_loop-first_match tid seen (a ∷ rest) =
    let next : find_loop (length rest) (suc (length seen)) tid (seen ++ a ∷ rest)
        ≡ ok (first_match tid rest) =
      rw (← append_assoc seen (a ∷ []) rest, sym (length-snoc seen a))
        (find_loop-first_match tid (seen ++ a ∷ []) rest) in
    ground (arith, get_elem?-middle seen rest a, next)

-- With the length of its array, FindEntry reads inside the array and finds the entry of the first
-- pair with the id, or nothing where there is none.
pub find_entry-first_match :
    (tid : TypeId) (args : List TypeIdArgumentPair)
    → find_entry tid (record { args = args; num_args = length args }) ≡ ok (first_match tid args)
unfolding find_entry
find_entry-first_match tid args = find_loop-first_match tid [] args
