-- ===== src/Injector/SetUp.antt =====
-- What CreateInjector establishes: the scope is set up, and each lazy singleton of the table has a
-- provider.
use guicpp.Base.{
  ℕ, zero, suc, ◌<◌, ◌≡◌, refl, sym, ap, subst, ◌∙◌, List, [], ◌∷◌, ◌++◌, Bool, some, none, All,
  length, get_elem?, get_elem?-inside, arith, same, Bool-cases, inl, inr, get_elem?-All,
}
use guicpp.CType.{CType, named, plain, scope_setup_context}
use guicpp.Annotations.{arg_type}
use guicpp.Values.{the_injector, lazy_singleton, user_provider, delete_pointer, invoke_cleanup}
use guicpp.Entries.{
  TypeId, TypeId-discrete, Entry, cleanup_entry, pointer_table_entry, bind_to_type_entry,
  value_table_entry, reference_table_entry, bind_to_provider_entry, bind_to_function,
  factory_argument_entry, invalid_entry,
}
use guicpp.Outcome.{ok}
use guicpp.Outcome.Keeps.{Keeps-ok}
use guicpp.Table
use guicpp.Table.{BindTable, find}
use guicpp.Scope.{context_init}
use guicpp.Scope.State.{Store, new_context, member}
use guicpp.Scope.SetUp.{IsSetUp}
use guicpp.Scope.Init.{fresh, context_init-IsSetUp}
use guicpp.Inject.SetUp.{HasProvider}
use guicpp.Binder.{Binder, Module, configure}
use guicpp.Binder.Registers.{
  HasType, IsConfigured, Registers, configure-Registers, downto, upto, member-upto, length-upto,
}
use guicpp.Binder.Keeps.{lazies, ModuleHas}
use guicpp.Binder.Bindings.{StaysAll, configure-StaysAll}
use guicpp.Injector.Ownership.{context_entry}
use guicpp.Injector.Created.{IsCreated, ok_injective, start_store, create_injector-IsCreated}
use guicpp.Injector.{Injector, create_injector, wrapper_module, new_binder, empty_store}

-- The types of a list of providers, as a function; behind the list, any type.
unfoldable pub type_at : List CType → ℕ → CType
type_at types i = elim (get_elem? types i) [ none ↦ named plain scope_setup_context | some t ↦ t ]

pub find-All :
    (P : Entry → Type 0) (m : List (TypeId × Entry)) (i : TypeId) (e : Entry)
    → All (λ p. P p.1) m
    → find i m ≡ some e
    → P e
unfolding find
find-All P [] i e h there = cc
find-All P ((j, x) ∷ m) i e h there = elim (Bool-cases (same TypeId-discrete j i)) [
  | inl q ↦ let here : x ≡ e = ground (arith, q, there) in subst P here h.0
  | inr q ↦ find-All P m i e h.1 (ground (arith, q, there))
]

HasType-HasProvider :
    (types : List CType) (e : Entry)
    → HasType types e
    → HasProvider (length types) (type_at types) e
unfolding type_at
HasType-HasProvider types (bind_to_provider_entry t (lazy_singleton i u) a) h =
    (get_elem?-inside types i u h, rw (h, type_at) refl)
HasType-HasProvider types (bind_to_provider_entry t (user_provider n) a) h = tt
HasType-HasProvider types (bind_to_type_entry t xs d) h = tt
HasType-HasProvider types (pointer_table_entry t p a) h = tt
HasType-HasProvider types (value_table_entry t v) h = tt
HasType-HasProvider types (reference_table_entry t p a) h = tt
HasType-HasProvider types (bind_to_function t xs) h = tt
HasType-HasProvider types (factory_argument_entry t v) h = tt
HasType-HasProvider types invalid_entry h = tt
HasType-HasProvider types (cleanup_entry c) h = tt

All-upto : (n m : ℕ) → (n < suc m) → All (λ i. i < m) (upto n)
All-upto zero m h = tt
All-upto (suc n) m h = snoc (upto n) (All-upto n m (omega (arith, h)))
  where
    snoc : (xs : List ℕ) → All (λ i. i < m) xs → All (λ i. i < m) (xs ++ n ∷ [])
    snoc [] k = (omega (arith, h), tt)
    snoc (x ∷ xs) k = (k.0, snoc xs k.1)

-- Init sets up what a binder configured.
pub configured-IsSetUp :
    (b : Binder) (h : IsConfigured b)
    → (t : Store) × (context_init the_injector b.store ≡ ok (tt, t))
      × IsSetUp t
      × (length t.providers ≡ length b.store.providers)
configured-IsSetUp b h =
    let n = length b.store.providers in
    context_init-IsSetUp h.context b.store h.has_context h.unlocked h.size
      (ap length h.listed ∙ length-upto n)
      (subst (All (λ i. i < n)) (sym h.listed) (All-upto n n (omega arith)))
      (λ i below. ap (member i) h.listed ∙ member-upto n i below)
      λ i p e. get_elem?-All (λ p. p ≡ fresh) b.store.providers i p h.are_fresh e

start-IsConfigured : IsConfigured (new_binder start_store)
unfolding new_context empty_store Table.empty lazies Table.deletions
start-IsConfigured = record {
  context = new_context;
  has_context = refl;
  unlocked = refl;
  size = refl;
  listed = refl;
  are_fresh = tt;
  types = [];
  typed = refl;
  bound = tt;
  owned = refl;
}

pub wrapped-IsConfigured :
    (rtti : Bool) (m : Module) (b : Binder)
    → configure rtti (wrapper_module m) (new_binder start_store) ≡ ok (tt, b)
    → IsConfigured b
wrapped-IsConfigured rtti m b h =
    Keeps-ok Registers (configure rtti (wrapper_module m)) (new_binder start_store) (tt, b)
      (configure-Registers rtti (wrapper_module m)) h start-IsConfigured

created-IsConfigured :
    (rtti : Bool) (m : Module) (i : Injector) (c : IsCreated rtti m i) → IsConfigured c.binder
created-IsConfigured rtti m i c = wrapped-IsConfigured rtti m c.binder c.configured

-- The store in which the injector starts.
created-IsSetUp :
    (rtti : Bool) (m : Module) (i : Injector) (c : IsCreated rtti m i)
    → IsSetUp i.store × (length i.store.providers ≡ length c.binder.store.providers)
created-IsSetUp rtti m i c =
    let (t, runs, ready, len) = configured-IsSetUp c.binder (created-IsConfigured rtti m i c) in
    let same : t ≡ i.store =
      ap (λ (r : Unit {0} × Store). r.1) (ok_injective (sym runs ∙ c.started)) in
    (subst IsSetUp same ready, ap (λ (s : Store). length s.providers) (sym same) ∙ len)

-- The table owns the providers, each once, and will delete the newest first.
pub create_injector-lazies :
    (rtti : Bool) (m : Module) (i : Injector)
    → create_injector rtti m ≡ ok i
    → lazies (Table.deletions i.table) ≡ downto (length i.store.providers)
create_injector-lazies rtti m i h =
    let c = create_injector-IsCreated rtti m i h in
    let (_, len) = created-IsSetUp rtti m i c in
    ap (λ (t : BindTable Entry). lazies (Table.deletions t)) (sym c.same_table)
    ∙ ((created-IsConfigured rtti m i c).owned ∙ ap downto (sym len))

-- What holds of a module's entries, of the context's and of every lazy singleton's holds of every entry
-- that the injector finds.
pub create_injector-All :
    (P : Entry → Type 0)
    → ((n : ℕ) (t u : CType) → P (bind_to_provider_entry t (lazy_singleton n u) delete_pointer))
    → (rtti : Bool) (m : Module) (i : Injector) → create_injector rtti m ≡ ok i
    → P context_entry
    → P (cleanup_entry invoke_cleanup)
    → ModuleHas P m
    → (tid : TypeId) (e : Entry) → Table.find_entry tid i.table ≡ some e
    → P e
unfolding Table.find_entry Table.empty wrapper_module ModuleHas arg_type
create_injector-All P lazy rtti m i h own clean suits tid e there =
    let c = create_injector-IsCreated rtti m i h in
    let all =
      Keeps-ok (StaysAll P lazy) (configure rtti (wrapper_module m)) (new_binder start_store)
        (tt, c.binder)
        (configure-StaysAll P lazy rtti (wrapper_module m) (own, (suits, (clean, tt)))) c.configured
        tt in
    find-All P c.binder.table.bind_map tid e all
      (subst (λ (x : BindTable Entry). find tid x.bind_map ≡ some e) (sym c.same_table) there)

-- If CreateInjector with a module returns an injector, then its scope is set up, and every entry
-- of its table that is a lazy singleton has a provider of the store, with its type.
pub create_injector-IsSetUp :
    (rtti : Bool) (m : Module) (i : Injector)
    → create_injector rtti m ≡ ok i
    → IsSetUp i.store
      × (types : ℕ → CType) × ((tid : TypeId) (e : Entry)
          → Table.find_entry tid i.table ≡ some e
          → HasProvider (length i.store.providers) types e)
unfolding Table.find_entry
create_injector-IsSetUp rtti m i h =
    let c = create_injector-IsCreated rtti m i h in
    let b = created-IsConfigured rtti m i c in
    let (ready, len) = created-IsSetUp rtti m i c in
    (
      ready,
      type_at b.types,
      λ tid e there.
          let found = find-All (HasType b.types) c.binder.table.bind_map tid e b.bound (
            subst (λ (x : BindTable Entry). find tid x.bind_map ≡ some e) (sym c.same_table)
              there) in
          subst (λ n. HasProvider n (type_at b.types) e) (b.typed ∙ sym len)
            (HasType-HasProvider b.types e found),
    )
