-- ===== src/Inject/Ends.antt =====
-- The injector's recursion ends: a rank that falls from each request to the requests that it makes
-- bounds the fuel.
use guicpp.Base.{ℕ, zero, suc, ◌<◌, ◌≢◌, refl, arith, All, inr, All-map}
use guicpp.CType.{CType}
use guicpp.Annotations.{Annotations, annotations, actual_type}
use guicpp.LocalContext.{LocalContext, empty_context}
use guicpp.Values.{Value, lazy_singleton, user_provider}
use guicpp.Entries.{
  Entry, bind_to_type_entry, pointer_table_entry, value_table_entry, reference_table_entry,
  bind_to_provider_entry, bind_to_function, factory_argument_entry, invalid_entry, cleanup_entry,
}
use guicpp.Outcome.{Outcome, ok, fatal, undefined, ill_formed, out_of_fuel, Action}
use guicpp.Outcome.Laws.{Ends}
use guicpp.Table.{BindTable}
use guicpp.Scope
use guicpp.Scope.Ends.{provider_get-Ends}
use guicpp.Scope.State.{Store}
use guicpp.Inject.Parameters.{Compiler, Program}
use guicpp.Inject.{get_with_context, get_unscoped}
use guicpp.Inject.Run.{run}
use guicpp.Inject.Stays.{IsDefined, RequestStays, EntryStays, get_actual_type-Stays}
use guicpp.Outcome.Holds.{After, Stays}
use guicpp.Inject.Requests.{requests, entry_requests, IsRanked, HoldsArguments}

-- To end is to stay anywhere.
Ends-Stays : {A : Type 0} (m : Action Store A) → Stays Unit ⊥ (λ _. Unit) m → Ends m
Ends-Stays {A} m h s = go (m s) (h s tt)
  where
    go : (o : Outcome (A × Store)) → After Unit ⊥ (λ _. Unit) o → o ≢ out_of_fuel
    go (ok r) g = λ q. cc
    go (fatal e) g = λ q. cc
    go undefined g = λ q. cc
    go ill_formed g = λ q. cc
    go out_of_fuel g = absurd g

Stays-Ends : {A : Type 0} (m : Action Store A) → Ends m → Stays Unit ⊥ (λ _. Unit) m
Stays-Ends {A} m h s p = go (m s) (h s)
  where
    go : (o : Outcome (A × Store)) → o ≢ out_of_fuel → After Unit ⊥ (λ _. Unit) o
    go (ok r) g = tt
    go (fatal e) g = tt
    go undefined g = tt
    go ill_formed g = tt
    go out_of_fuel g = g refl

module _ (k : Compiler) (prog : Program) (table : BindTable Entry) where
  -- Nothing is assumed of the compiler.
  any_compiler : IsDefined Unit k
  any_compiler = record { has_rtti = inr tt; flows = λ v. inr tt }

  abbrev RequestEnds :
      (Annotations → CType → LocalContext → Action Store Value) → Annotations × CType → Type 0
  RequestEnds = RequestStays Unit ⊥ (λ _. Unit) (λ s n es p. tt) k any_compiler prog table

  entry-Ends :
      (f : Annotations → CType → LocalContext → Action Store Value) (e : Entry)
      → All (RequestEnds f) (entry_requests prog e)
      → EntryStays Unit ⊥ (λ _. Unit) (λ s n es p. tt) k any_compiler prog table f e
  unfolding entry_requests requests annotations actual_type get_unscoped get_with_context
  entry-Ends f (bind_to_type_entry t xs d) h = h.0
  entry-Ends f (bind_to_provider_entry t (lazy_singleton i u) x) h =
      let m = get_unscoped k prog table f u in
      Stays-Ends (Scope.provider_get m i)
        (provider_get-Ends m i (Ends-Stays m (h.0 empty_context (tt, inr tt))))
  entry-Ends f (bind_to_provider_entry t (user_provider n) x) h = h
  entry-Ends f (bind_to_function t xs) h = h
  entry-Ends f (pointer_table_entry t q x) h = tt
  entry-Ends f (value_table_entry t v) h = tt
  entry-Ends f (reference_table_entry t q x) h = inr tt
  entry-Ends f (factory_argument_entry t v) h = tt
  entry-Ends f invalid_entry h = tt
  entry-Ends f (cleanup_entry x) h = tt

  run-RequestEnds :
      (rank : Annotations → CType → ℕ)
      → IsRanked prog table rank
      → (fuel : ℕ) (d : Annotations × CType) → rank d.0 d.1 < fuel
      → RequestEnds (run k prog table fuel) d
  unfolding run
  run-RequestEnds rank ranked zero d h = elim h [ ]
  run-RequestEnds rank ranked (suc fuel) d h = λ c a.
      let f = run k prog table fuel in
      let lower = λ (e : Annotations × CType) (le : rank e.0 e.1 < rank d.0 d.1).
        run-RequestEnds rank ranked fuel e (omega (arith, le, h)) in
      get_actual_type-Stays Unit ⊥ (λ _. Unit) (λ s n es p. tt) k any_compiler prog table f d.0 d.1
        c a
        (λ tid e q r.
          entry-Ends f e (All-map (entry_requests prog e) lower (ranked.bound d.0 d.1 tid e q r)))
        λ tid e q r w.
          entry-Ends f e
            (All-map (entry_requests prog e) lower (ranked.default d.0 d.1 tid e q r w))

-- If a rank falls along the requests that each bound entry and each default entry makes, then with
-- fuel above the rank of a request, in a local context that holds factory arguments only and in
-- any store, the request does not run out of fuel.
pub run_ends :
    (k : Compiler) (prog : Program) (table : BindTable Entry) (rank : Annotations → CType → ℕ)
    → IsRanked prog table rank
    → (fuel : ℕ) (xs : Annotations) (t : CType) (c : LocalContext) (s : Store) → rank xs t < fuel
    → HoldsArguments c
    → run k prog table fuel xs t c s ≢ out_of_fuel
run_ends k prog table rank ranked fuel xs t c s h a =
    Ends-Stays (run k prog table fuel xs t c)
      (run-RequestEnds k prog table rank ranked fuel (xs, t) h c (a, inr tt)) s
