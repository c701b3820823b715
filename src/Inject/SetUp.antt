-- ===== src/Inject/SetUp.antt =====
-- Requests keep the scope of an injector set up, and are never undefined.
use guicpp.Base.{
  ℕ, zero, suc, ◌<◌, ◌≤◌, ◌≡◌, ◌≢◌, refl, sym, ap, subst, ◌∙◌, List, [], ◌∷◌, Bool, true, false,
  some, All, length, length-set, inl, arith, All-map,
}
use guicpp.CType.{CType, ptr, plain}
use guicpp.CType.Info.{type_specifier}
use guicpp.Annotations.{Annotations, annotations, actual_type, at, label, un_scoped}
use guicpp.LocalContext.{LocalContext, empty_context}
use guicpp.Values.{Pointer, CleanupAction, Value, lazy_singleton, user_provider}
use guicpp.Entries.{
  TypeId, Entry, bind_to_type_entry, pointer_table_entry, value_table_entry, reference_table_entry,
  bind_to_provider_entry, bind_to_function, factory_argument_entry, invalid_entry, cleanup_entry,
}
use guicpp.Outcome.{ok, Action}
use guicpp.Outcome.Holds.{Holds, Stays, After-weaken}
use guicpp.Table.{BindTable}
use guicpp.Table
use guicpp.Scope
use guicpp.Scope.Bounds.{IsSetUpAt, provider_get-With}
use guicpp.Scope.SetUp.{IsSetUp, HasFlag, HasFlag-IsApart, IsApart}
use guicpp.Scope.State.{Store, Event, is_null}
use guicpp.Inject.Parameters.{Compiler, Program}
use guicpp.Inject.{get_with_context, get_unscoped, default_entry}
use guicpp.Inject.Requests.{requests, entry_requests, IsRanked}
use guicpp.Inject.Run.{run}
use guicpp.Inject.Stays.{IsDefined, Fits, RequestStays, EntryStays, get_actual_type-Stays}

-- Once flags of some providers.
abbrev HasFlags : List (ℕ × Bool) → Store → Type 0
HasFlags fs s = All (λ (p : ℕ × Bool). HasFlag p.0 p.1 s) fs

-- A scope of `n` providers that is set up, with these flags.
abbrev IsSafe : ℕ → List (ℕ × Bool) → Store → Type 0
IsSafe n fs s = IsSetUp s × (length s.providers ≡ n) × HasFlags fs s

IsSafe-logs :
    (n : ℕ) (fs : List (ℕ × Bool)) (s : Store) (m : ℕ) (es : List Event)
    → IsSafe n fs s
    → IsSafe n fs (record s { next_object = m; events = es })
IsSafe-logs n fs s m es (h, len, flags) = (
  record {
    context = h.context;
    has_context = h.has_context;
    injected = h.injected;
    unlocked = h.unlocked;
    listed = h.listed;
    room = h.room;
    size = h.size;
    ready = h.ready;
    accounted = h.accounted;
  },
  len,
  flags,
)

-- The lazy singletons of the table: each has a provider of the store and its type.
abbrev pub HasProvider : ℕ → (ℕ → CType) → Entry → Type 0
HasProvider n types (bind_to_provider_entry t (lazy_singleton i u) a) = (i < n) × (u ≡ types i)
HasProvider n types _ = Unit

-- An entry of BindRefToPointed has an object to refer to.
abbrev pub HasPointee : Entry → Type 0
HasPointee (reference_table_entry t q x) = is_null q ≡ false
HasPointee _ = Unit

-- A default entry is no lazy singleton.
default_entry-not_lazy :
    (prog : Program) (t u : CType) (i : ℕ) (v : CType) (a : CleanupAction)
    → default_entry prog t ≢ ok (bind_to_provider_entry u (lazy_singleton i v) a)
unfolding default_entry
default_entry-not_lazy prog t u i v a = ground arith

default_entry-not_reference :
    (prog : Program) (t u : CType) (q : Pointer) (a : CleanupAction)
    → default_entry prog t ≢ ok (reference_table_entry u q a)
unfolding default_entry
default_entry-not_reference prog t u q a = ground arith

module _ (k : Compiler) (defined : IsDefined ⊥ k) (prog : Program) (table : BindTable Entry)
    (rank : Annotations → CType → ℕ) (ranked : IsRanked prog table rank) (n : ℕ) (types : ℕ → CType)
    (singletons : (tid : TypeId) (e : Entry)
      → Table.find_entry tid table ≡ some e
      → HasProvider n types e)
    (pointees : (tid : TypeId) (e : Entry)
      → Table.find_entry tid table ≡ some e
      → HasPointee e) where
  -- The rank of the request that the provider `i` makes.
  abbrev own_rank : ℕ → ℕ
  own_rank i =
      rank (annotations (at (label un_scoped) (ptr plain (types i))))
        (actual_type (at (label un_scoped) (ptr plain (types i))))

  -- Flags that a request of a rank cannot change.
  abbrev AreAbove : ℕ → List (ℕ × Bool) → Type 0
  AreAbove r fs = All (λ (p : ℕ × Bool). r ≤ own_rank p.0) fs

  AreAbove-weaken : (r q : ℕ) (fs : List (ℕ × Bool)) → q ≤ r → AreAbove r fs → AreAbove q fs
  AreAbove-weaken r q [] le h = tt
  AreAbove-weaken r q (p ∷ fs) le h = (omega (arith, le, h.0), AreAbove-weaken r q fs le h.1)

  HasFlags-IsApart :
      (i : ℕ) (fs : List (ℕ × Bool)) → AreAbove (suc (own_rank i)) fs → IsApart i (HasFlags fs)
  HasFlags-IsApart i [] above s q c h = tt
  HasFlags-IsApart i ((j, b) ∷ fs) above s q c h =
      let other : j ≢ i = λ e.
        let le : suc (own_rank i) ≤ own_rank i =
          subst (λ m. suc (own_rank i) ≤ own_rank m) e above.0 in
        omega (arith, le) in
      (HasFlag-IsApart i j b other s q c h.0, HasFlags-IsApart i fs above.1 s q c h.1)

  -- A request keeps the scope safe with every flags above it.
  abbrev RequestSafe :
      (Annotations → CType → LocalContext → Action Store Value) → Annotations × CType → Type 0
  RequestSafe f d =
      (fs : List (ℕ × Bool))
      → AreAbove (rank d.0 d.1) fs
      → RequestStays ⊥ Unit (IsSafe n fs) (IsSafe-logs n fs) k defined prog table f d

  module _ (f : Annotations → CType → LocalContext → Action Store Value) where
    -- A singleton's Get, if the request that it makes is safe.
    singleton-Stays :
        (i : ℕ) (fs : List (ℕ × Bool))
        → i < n
        → AreAbove (suc (own_rank i)) fs
        → RequestSafe f (
          annotations (at (label un_scoped) (ptr plain (types i))),
          actual_type (at (label un_scoped) (ptr plain (types i))),
        )
        → Stays ⊥ Unit (IsSafe n fs) (Scope.provider_get (get_unscoped k prog table f (types i)) i)
    unfolding get_unscoped get_with_context
    singleton-Stays i fs below above safe s (h, len, flags) =
        let K : Store → Type 0 = λ t. (length t.providers ≡ n) × HasFlags fs t in
        let apart : IsApart i K =
          λ t q c g. (length-set t.providers i q ∙ g.0, HasFlags-IsApart i fs above t q c g.1) in
        let m = get_unscoped k prog table f (types i) in
        let keeps = λ (t : Store) (w : IsSetUpAt i false t × K t).
          After-weaken ⊥ Unit (IsSafe n ((i, false) ∷ fs)) (λ v. IsSetUpAt i false v × K v) (m t)
            (λ v g. (record { set_up = g.0; flag = g.2.0 }, (g.1, g.2.1)))
            (safe ((i, false) ∷ fs)
              (omega arith, AreAbove-weaken (suc (own_rank i)) (own_rank i) fs (omega arith) above)
              empty_context (tt, inl refl) t (w.0.set_up, w.1.0, (w.0.flag, w.1.1))) in
        After-weaken ⊥ Unit (λ t. IsSetUpAt i true t × K t) (IsSafe n fs) (Scope.provider_get m i s)
          (λ t g. (g.0.set_up, g.1.0, g.1.1))
          (provider_get-With i K apart m keeps s h (omega (arith, below, len)) (len, flags))

    -- What an entry needs, from the requests below.
    entry-Stays :
        (r : ℕ) (fs : List (ℕ × Bool)) (e : Entry)
        → AreAbove r fs
        → HasProvider n types e
        → HasPointee e
        → All (λ d. rank d.0 d.1 < r) (entry_requests prog e)
        → ((d : Annotations × CType) → rank d.0 d.1 < r → RequestSafe f d)
        → EntryStays ⊥ Unit (IsSafe n fs) (IsSafe-logs n fs) k defined prog table f e
    unfolding entry_requests requests
    entry-Stays r fs (bind_to_type_entry t xs d) above p o h lower =
        lower (xs, d) h.0 fs (AreAbove-weaken r (rank xs d) fs (omega (arith, h.0)) above)
    entry-Stays r fs (bind_to_provider_entry t (lazy_singleton i u) x) above (below, e) o h lower =
        let own : rank (annotations (at (label un_scoped) (ptr plain u)))
              (actual_type (at (label un_scoped) (ptr plain u)))
            ≡ own_rank i =
          ap
            (λ w.
              rank (annotations (at (label un_scoped) (ptr plain w)))
                (actual_type (at (label un_scoped) (ptr plain w))))
            e in
        let less : own_rank i < r = omega (arith, own, h.0) in
        subst
          (λ w. Stays ⊥ Unit (IsSafe n fs) (Scope.provider_get (get_unscoped k prog table f w) i))
          (sym e)
          (singleton-Stays i fs below
            (AreAbove-weaken r (suc (own_rank i)) fs (omega (arith, less)) above) (lower _ less))
    entry-Stays r fs (bind_to_provider_entry t (user_provider m) x) above p o h lower =
        All-map (requests (prog.provider_args m))
          (λ d le. lower d le fs (AreAbove-weaken r (rank d.0 d.1) fs (omega (arith, le)) above)) h
    entry-Stays r fs (bind_to_function t xs) above p o h lower =
        All-map (requests xs)
          (λ d le. lower d le fs (AreAbove-weaken r (rank d.0 d.1) fs (omega (arith, le)) above)) h
    entry-Stays r fs (pointer_table_entry t q x) above p o h lower = tt
    entry-Stays r fs (value_table_entry t v) above p o h lower = tt
    entry-Stays r fs (reference_table_entry t q x) above p o h lower = inl o
    entry-Stays r fs (factory_argument_entry t v) above p o h lower = tt
    entry-Stays r fs invalid_entry above p o h lower = tt
    entry-Stays r fs (cleanup_entry x) above p o h lower = tt

  default-HasProvider :
      (t : CType) (e : Entry) → default_entry prog t ≡ ok e → HasProvider n types e
  default-HasProvider t (bind_to_provider_entry u (lazy_singleton i v) a) w =
      absurd (default_entry-not_lazy prog t u i v a w)
  default-HasProvider t (bind_to_provider_entry u (user_provider m) a) w = tt
  default-HasProvider t (bind_to_type_entry u xs d) w = tt
  default-HasProvider t (bind_to_function u xs) w = tt
  default-HasProvider t (pointer_table_entry u q x) w = tt
  default-HasProvider t (value_table_entry u v) w = tt
  default-HasProvider t (reference_table_entry u q x) w = tt
  default-HasProvider t (factory_argument_entry u v) w = tt
  default-HasProvider t invalid_entry w = tt
  default-HasProvider t (cleanup_entry x) w = tt

  default-HasPointee : (t : CType) (e : Entry) → default_entry prog t ≡ ok e → HasPointee e
  unfolding default_entry
  default-HasPointee t (reference_table_entry u q x) w =
      absurd (default_entry-not_reference prog t u q x w)
  default-HasPointee t (bind_to_provider_entry u p a) w = tt
  default-HasPointee t (bind_to_type_entry u xs d) w = tt
  default-HasPointee t (bind_to_function u xs) w = tt
  default-HasPointee t (pointer_table_entry u q x) w = tt
  default-HasPointee t (value_table_entry u v) w = tt
  default-HasPointee t (factory_argument_entry u v) w = tt
  default-HasPointee t invalid_entry w = tt
  default-HasPointee t (cleanup_entry x) w = tt

  run-RequestSafe : (fuel : ℕ) (d : Annotations × CType) → RequestSafe (run k prog table fuel) d
  unfolding run
  run-RequestSafe zero d fs above c a = λ s p. tt
  run-RequestSafe (suc fuel) d fs above c a =
      let f = run k prog table fuel in
      let lower =
        λ (e : Annotations × CType) (le : rank e.0 e.1 < rank d.0 d.1). run-RequestSafe fuel e in
      get_actual_type-Stays ⊥ Unit (IsSafe n fs) (IsSafe-logs n fs) k defined prog table f d.0 d.1 c
        a
        (λ tid e q r.
          entry-Stays f (rank d.0 d.1) fs e above (singletons tid e r) (pointees tid e r)
            (ranked.bound d.0 d.1 tid e q r) lower)
        λ tid e q r w.
          entry-Stays f (rank d.0 d.1) fs e above (default-HasProvider (type_specifier d.1) e w)
            (default-HasPointee (type_specifier d.1) e w) (ranked.default d.0 d.1 tid e q r w) lower

  -- Let the compiler have RTTI and pass a value on where InvokeGet has no return statement, let a
  -- rank fall along the requests that each bound entry and each default entry makes, let every
  -- lazy singleton of the table have a provider of the store, with its type, and let no entry of
  -- the table refer to what NULL points to. In a local context of factory arguments with its
  -- length, and in a store of so many providers whose scope is set up (the context has the
  -- injector, is unlocked, lists each provider and has a cell for each, of which as many are used
  -- as there are called providers; these cells hold the called providers, and the others have no
  -- object; all providers are alive and initialised), a request is never undefined, and where it
  -- returns the scope is set up and has as many providers.
  pub run-IsSetUp :
      (fuel : ℕ) (xs : Annotations) (t : CType) (c : LocalContext) (s : Store)
      → Fits ⊥ c
      → IsSetUp s
      → length s.providers ≡ n
      → Holds (λ u. IsSetUp u × (length u.providers ≡ n)) (run k prog table fuel xs t c s)
  run-IsSetUp fuel xs t c s a h len =
      After-weaken ⊥ Unit (IsSafe n []) (λ u. IsSetUp u × (length u.providers ≡ n))
        (run k prog table fuel xs t c s) (λ u g. (g.0, g.1))
        (run-RequestSafe fuel (xs, t) [] tt c a s (h, len, tt))
