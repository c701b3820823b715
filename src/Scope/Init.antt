-- ===== src/Scope/Init.antt =====
-- ScopeSetupContext::Init sets up a scope of providers as their constructors leave them.
use guicpp.Base.{
  All-places, ℕ, ◌<◌, ◌≡◌, refl, sym, ap, subst, ◌∙◌, List, [], ◌∷◌, Bool, true, false, some, none,
  All, length, length-set, length-replicate, get_elem?, set, get_elem?-set, get_elem?-set_other,
  get_elem?-below, get_elem?-inside, ◌==◌, ◌||◌, replicate, arith, ℕ_discrete,
}
use guicpp.Values.{null, the_injector}
use guicpp.Outcome.{ok}
use guicpp.Scope.State.{
  ScopeSetupContext, LazyProvider, Store, member, is_null, same_injector, put_provider, put_context,
}
use guicpp.Scope.{provider_init, init_all, context_init}
use guicpp.Scope.SetUp.{IsSetUp, IsReady, count_called}
use guicpp.Scope.Steps.{get_provider_lem, get_context_lem}

-- A provider as its constructor leaves it.
unfoldable pub fresh : LazyProvider
fresh = record { called = false; injector = null; object = null; is_deleted = false }

-- A provider that was made, with the injector once it is initialised.
abbrev made : Bool → LazyProvider
made true = record { called = false; injector = the_injector; object = null; is_deleted = false }
made false = record { called = false; injector = null; object = null; is_deleted = false }

-- Within the loop of Init: `done` says which providers were initialised.
record IsStarting (done : ℕ → Bool) (n : ℕ) (c : ScopeSetupContext) (s : Store) : Type 0 where
  has_context : s.context ≡ some c
  len : length s.providers ≡ n
  at : (i : ℕ) (p : LazyProvider) → get_elem? s.providers i ≡ some p → p ≡ made (done i)

provider_init-made :
    (i : ℕ) (b : Bool) (s : Store)
    → get_elem? s.providers i ≡ some (made b)
    → provider_init i the_injector s
      ≡ ok (tt, record s { providers = set s.providers i (made true) })
unfolding provider_init is_null same_injector put_provider
provider_init-made i true s e = rw (get_provider_lem i s (made true) e refl) refl
provider_init-made i false s e = rw (get_provider_lem i s (made false) e refl) refl

IsStarting-set :
    (i : ℕ) (done : ℕ → Bool) (n : ℕ) (c : ScopeSetupContext) (s : Store)
    → i < n
    → IsStarting done n c s
    → IsStarting
        (λ j. j == i || done j)
        n
        c
        (record s { providers = set s.providers i (made true) })
IsStarting-set i done n c s below h =
    let (x, here) = get_elem?-below s.providers i (omega (arith, below, h.len)) in
    record {
      has_context = h.has_context;
      len = length-set s.providers i (made true) ∙ h.len;
      at = λ j p e. elim (ℕ_discrete j i) [
        | yes q ↦
            let put : some (made true) ≡ some p =
              sym (get_elem?-set s.providers i x (made true) here)
              ∙ subst (λ m. get_elem? (set s.providers i (made true)) m ≡ some p) q e in
            let flag : (j == i) ≡ true = ground (arith, q) in rw (flag) (cc (put))
        | no q ↦
            let flag : (j == i) ≡ false = ground (arith, q) in
            rw (flag) (h.at j p (sym (get_elem?-set_other s.providers j i (made true) q) ∙ e))
      ];
    }

init_all_lem :
    (is : List ℕ) (done : ℕ → Bool) (n : ℕ) (c : ScopeSetupContext) (s : Store)
    → All (λ i. i < n) is
    → IsStarting done n c s
    → (t : Store) × (init_all is the_injector s ≡ ok (tt, t))
      × IsStarting (λ j. member j is || done j) n c t
unfolding init_all member
init_all_lem [] done n c s below h = (s, refl, h)
init_all_lem (i ∷ is) done n c s below h =
    let (x, here) = get_elem?-below s.providers i (omega (arith, below.0, h.len)) in
    let t : Store = record s { providers = set s.providers i (made true) } in
    let (u, runs, end) =
      init_all_lem is (λ j. j == i || done j) n c t below.1
        (IsStarting-set i done n c s below.0 h) in
    (
      u,
      rw
          (provider_init-made i (done i) s
            (here ∙ ap (λ (p : LazyProvider). some p) (h.at i x here)))
          runs,
      record {
        has_context = end.has_context;
        len = end.len;
        at = λ j p e. end.at j p e ∙ ap made (swap (member j is) (j == i) (done j));
      },
    )
  where
    swap : (a b d : Bool) → (a || (b || d)) ≡ ((b || a) || d)
    swap true true d = refl
    swap true false d = refl
    swap false true d = refl
    swap false false d = refl

count_called-none : (ps : List LazyProvider) → All (λ p. p.called ≡ false) ps → count_called ps ≡ 0
unfolding count_called
count_called-none [] h = refl
count_called-none (p ∷ ps) h = rw (h.0) (omega (arith, count_called-none ps h.1))

-- The scope at the end of the loop.
IsStarting-IsSetUp :
    (done : ℕ → Bool) (n : ℕ) (c : ScopeSetupContext) (s : Store)
    → c.injector ≡ the_injector
    → c.locked ≡ false
    → c.cleanup_list_size ≡ 0
    → length c.cleanup_list ≡ n
    → ((i : ℕ) → i < n → member i c.init_list ≡ true)
    → ((i : ℕ) → i < n → done i ≡ true)
    → IsStarting done n c s
    → IsSetUp s
IsStarting-IsSetUp done n c s injected unlocked size room listed all h =
    let is_made = λ (i : ℕ) (p : LazyProvider) (e : get_elem? s.providers i ≡ some p).
      h.at i p e ∙ ap made (all i (omega (arith, get_elem?-inside s.providers i p e, h.len))) in
    let uncalled =
      All-places (λ p. p.called ≡ false) s.providers
        λ i p e. ap (λ (q : LazyProvider). q.called) (is_made i p e) in
    record {
      context = c;
      has_context = h.has_context;
      injected = injected;
      unlocked = unlocked;
      listed = λ i below. listed i (omega (arith, below, h.len));
      room = room ∙ sym h.len;
      size = size ∙ sym (count_called-none s.providers uncalled);
      ready = All-places IsReady s.providers λ i p e. (
        ap (λ (q : LazyProvider). q.is_deleted) (is_made i p e),
        ap (λ (q : LazyProvider). q.injector) (is_made i p e),
      );
      accounted = record {
        written = λ j below. absurd (omega (arith, below, size));
        kept = λ i p e called.
            absurd (cc (ap (λ (q : LazyProvider). q.called) (is_made i p e), called));
        unmade = λ i p e flag. ap (λ (q : LazyProvider). q.object) (is_made i p e);
      };
    }

-- Let the store have a context, unlocked and with no cell in use, that lists each provider once, and let
-- every provider be as its constructor leaves it. Then Init of the context returns, and the scope
-- is set up.
pub context_init-IsSetUp :
    (c : ScopeSetupContext) (s : Store)
    → s.context ≡ some c
    → c.locked ≡ false
    → c.cleanup_list_size ≡ 0
    → length c.init_list ≡ length s.providers
    → All (λ i. i < length s.providers) c.init_list
    → ((i : ℕ) → i < length s.providers → member i c.init_list ≡ true)
    → ((i : ℕ) (p : LazyProvider) → get_elem? s.providers i ≡ some p → p ≡ fresh)
    → (t : Store) × (context_init the_injector s ≡ ok (tt, t))
      × IsSetUp t
      × (length t.providers ≡ length s.providers)
unfolding context_init put_context fresh
context_init-IsSetUp c s e unlocked size room below listed are_fresh =
    let n = length s.providers in
    let d : ScopeSetupContext = record c {
      injector = the_injector;
      cleanup_list = replicate (length c.init_list) none;
    } in
    let (t, runs, end) =
      init_all_lem c.init_list (λ j. false) n d (record s { context = some d }) below
        (record { has_context = refl; len = refl; at = are_fresh }) in
    (
      t,
      rw (get_context_lem s c e) runs,
      IsStarting-IsSetUp (λ j. member j c.init_list || false) n d t refl unlocked size
          (length-replicate (length c.init_list) none ∙ room) listed
          (λ i inside. rw (listed i inside) refl) end,
      end.len,
    )
