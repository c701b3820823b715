-- ===== src/Injector/Gets.antt =====
-- What requests do to an injector that CreateInjector returned.
use guicpp.Base.{ℕ, ◌≡◌, refl, length, inl}
use guicpp.CType.{CType}
use guicpp.Annotations.{Annotations, Annotated, annotations, actual_type}
use guicpp.LocalContext.{empty_context}
use guicpp.Values.{Value}
use guicpp.Entries.{Entry}
use guicpp.Outcome.{ok}
use guicpp.Outcome.Holds.{Holds, Holds-ok}
use guicpp.Table.{BindTable}
use guicpp.Scope.State.{Store}
use guicpp.Scope.SetUp.{IsSetUp}
use guicpp.Inject.Parameters.{Compiler, Program}
use guicpp.Inject.{get_with_context}
use guicpp.Inject.Requests.{IsRanked}
use guicpp.Inject.Run.{injector_get}
use guicpp.Inject.Stays.{IsDefined}
use guicpp.Inject.SetUp.{HasPointee, run-IsSetUp}
use guicpp.Binder.{Module}
use guicpp.Injector.{Injector, create_injector}
use guicpp.Binder.Keeps.{ModuleHas}
use guicpp.Injector.SetUp.{create_injector-IsSetUp, create_injector-All}

-- Calls of Injector::Get that returned, one after the other.
pub data Gets (k : Compiler) (prog : Program) (table : BindTable Entry)
    : Store → Store → Type 0 where
  done : (s : Store) → Gets k prog table s s
  get :
      (fuel : ℕ) (x : Annotated) (v : Value) (s s' s'' : Store)
      → injector_get k prog table fuel x s ≡ ok (v, s')
      → Gets k prog table s' s''
      → Gets k prog table s s''

module _ (k : Compiler) (defined : IsDefined ⊥ k) (prog : Program) (m : Module) (i : Injector)
    (created : create_injector k.rtti m ≡ ok i) (rank : Annotations → CType → ℕ)
    (ranked : IsRanked prog i.table rank) (pointees : ModuleHas HasPointee m) where
  -- The scope is set up for as many providers as were bound.
  abbrev pub IsServing : Store → Type 0
  IsServing s = IsSetUp s × (length s.providers ≡ length i.store.providers)

  injector_get-IsServing :
      (fuel : ℕ) (x : Annotated) (s : Store)
      → IsServing s
      → Holds IsServing (injector_get k prog i.table fuel x s)
  unfolding injector_get get_with_context empty_context
  injector_get-IsServing fuel x s (h, len) =
      let (_, types, singletons) = create_injector-IsSetUp k.rtti m i created in
      run-IsSetUp k defined prog i.table rank ranked (length i.store.providers) types singletons
        (create_injector-All HasPointee (λ n t u. tt) k.rtti m i created tt tt pointees) fuel
        (annotations x) (actual_type x) empty_context s (tt, inl refl) h len

  pub Gets-IsServing : (s t : Store) → Gets k prog i.table s t → IsServing s → IsServing t
  Gets-IsServing s t (done _) h = h
  Gets-IsServing s t (get fuel x v _ s' _ e r) h = Gets-IsServing s' t r (
      Holds-ok IsServing (injector_get k prog i.table fuel x s) (v, s')
        (injector_get-IsServing fuel x s h) e)
