-- ===== src/LocalContext.antt =====
-- LocalContext: include/guicpp/internal/guicpp_local_context.h and src/guicpp_local_context.cc.
pub mod Laws
use guicpp.Base.{ℕ, zero, suc, List, [], ◌∷◌, Option, none, some, get_elem?, if◌then◌else◌, same}
use guicpp.Entries.{TypeId, TypeId-discrete, Entry}
use guicpp.Outcome.{Outcome, ok, undefined}

-- TypeIdArgumentPair
pub record TypeIdArgumentPair : Type 0 where
  pub type_id : TypeId
  pub entry : Entry

-- The array and the length that the constructor is given.
pub record LocalContext : Type 0 where
  pub args : List TypeIdArgumentPair
  pub num_args : ℕ

-- LocalContext::LocalContext(): args_ is NULL.
unfoldable pub empty_context : LocalContext
empty_context = record { args = []; num_args = 0 }

-- The loop of FindEntry with `rounds` = num_args_ - i; a read behind the array is undefined.
unfoldable pub find_loop : ℕ → ℕ → TypeId → List TypeIdArgumentPair → Outcome (Option Entry)
find_loop zero i tid args = ok none
find_loop (suc rounds) i tid args =
    let rest = find_loop rounds (suc i) tid args in
    elim (get_elem? args i) [
      | none ↦ undefined
      | some a ↦ if same TypeId-discrete a.type_id tid then ok (some a.entry) else rest
    ]

-- LocalContext::FindEntry
unfoldable pub find_entry : TypeId → LocalContext → Outcome (Option Entry)
unfolding find_loop
find_entry tid c = find_loop c.num_args 0 tid c.args
