-- ===== src/Inject/Requests.antt =====
-- The requests that the injector makes for a request: what its recursion runs through.
use guicpp.Base.{
  ℕ, zero, suc, ◌<◌, ◌≡◌, refl, subst, true, false, List, [], ◌∷◌, Bool, Option, none, some,
  get_elem?, if◌then◌else◌, same, All,
}
use guicpp.CType.{CType, ptr, plain}
use guicpp.CType.Info.{type_specifier}
use guicpp.Annotations.{Annotations, Annotated, annotations, actual_type, at, label, un_scoped}
use guicpp.LocalContext.{LocalContext, TypeIdArgumentPair, find_loop}
use guicpp.Values.{Value, lazy_singleton, user_provider}
use guicpp.Entries.{
  TypeId, TypeId-discrete, Entry, bind_to_type_entry, bind_to_provider_entry, bind_to_function,
  factory_argument_entry,
}
use guicpp.Outcome.{Outcome, ok, out_of_fuel}
use guicpp.Table.{BindTable}
use guicpp.Table
use guicpp.Inject.Parameters.{Program}
use guicpp.Inject.Ids.{normal_id}
use guicpp.Inject.{default_entry}

-- The requests that an argument list makes.
unfoldable pub requests : List Annotated → List (Annotations × CType)
unfolding annotations actual_type
requests [] = []
requests (x ∷ xs) = (annotations x, actual_type x) ∷ requests xs

-- The requests that an entry's Get makes.
unfoldable pub entry_requests : Program → Entry → List (Annotations × CType)
unfolding requests annotations actual_type
entry_requests prog (bind_to_type_entry t xs d) = (xs, d) ∷ []
entry_requests prog (bind_to_provider_entry t (lazy_singleton i u) a) =
    requests (at (label un_scoped) (ptr plain u) ∷ [])
entry_requests prog (bind_to_provider_entry t (user_provider n) a) = requests (prog.provider_args n)
entry_requests prog (bind_to_function t xs) = requests xs
entry_requests prog _ = []

-- A rank falls from each request to those that its entry, bound or default, makes.
pub record IsRanked (prog : Program) (table : BindTable Entry) (rank : Annotations → CType → ℕ)
    : Type 0 where
  pub bound :
      (xs : Annotations) (t : CType) (tid : TypeId) (e : Entry)
      → normal_id xs t ≡ ok tid
      → Table.find_entry tid table ≡ some e
      → All (λ d. rank d.0 d.1 < rank xs t) (entry_requests prog e)
  pub default :
      (xs : Annotations) (t : CType) (tid : TypeId) (e : Entry)
      → normal_id xs t ≡ ok tid
      → Table.find_entry tid table ≡ none
      → default_entry prog (type_specifier t) ≡ ok e
      → All (λ d. rank d.0 d.1 < rank xs t) (entry_requests prog e)

-- A local context as RealFactory::Get makes it: factory arguments only.
abbrev pub IsFactoryArgument : Entry → Type 0
IsFactoryArgument e = (t : CType) × (v : Value) × (e ≡ factory_argument_entry t v)

abbrev pub HoldsArguments : LocalContext → Type 0
HoldsArguments c = All (λ a. IsFactoryArgument a.entry) c.args

All-get_elem? {ℓ κ} :
    {A : Type ℓ} (P : A → Type κ) (xs : List A) (i : ℕ) {a : A}
    → All P xs
    → get_elem? xs i ≡ some a
    → P a
All-get_elem? P [] i h e = cc
All-get_elem? {A} P (x ∷ xs) zero h e = subst P (cc) h.0
All-get_elem? P (x ∷ xs) (suc i) h e = All-get_elem? P xs i h.1 e

-- What FindEntry returns, if it returns an entry, is what all arguments are.
abbrev pub Found : (Entry → Type 0) → Outcome (Option Entry) → Type 0
Found P (ok (some e)) = P e
Found P (ok none) = Unit
Found P out_of_fuel = ⊥
Found P _ = Unit

abbrev pub ArgumentIn : Outcome (Option Entry) → Type 0
ArgumentIn = Found IsFactoryArgument

pub find_loop-Found :
    (P : Entry → Type 0) (n i : ℕ) (tid : TypeId) (args : List TypeIdArgumentPair)
    → All (λ a. P a.entry) args
    → Found P (find_loop n i tid args)
unfolding find_loop
find_loop-Found P zero i tid args h = tt
find_loop-Found P (suc n) i tid args h =
    go (get_elem? args i) refl (find_loop-Found P n (suc i) tid args h)
  where
    go :
        (o : Option TypeIdArgumentPair)
        → get_elem? args i ≡ o
        → Found P (find_loop n (suc i) tid args)
        → Found P (find_loop (suc n) i tid args)
    go none q r = rw (q, find_loop) tt
    go (some a) q r =
        let here = All-get_elem? (λ a. P a.entry) args i h q in
        rw (q, find_loop) (test (same TypeId-discrete a.type_id tid) here r)
      where
        test :
            (b : Bool)
            → P a.entry
            → Found P (find_loop n (suc i) tid args)
            → Found P (if b then ok (some a.entry) else find_loop n (suc i) tid args)
        test true here r = here
        test false here r = r
