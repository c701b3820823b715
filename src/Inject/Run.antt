-- ===== src/Inject/Run.antt =====
-- The recursion of the injector, by fuel: each nested GetActualType takes one unit. Injector::Get of
-- include/guicpp/guicpp_injector.h, and RealFactory::Get of
-- include/guicpp/internal/guicpp_factory_helpers.h for any number of parameters.
use guicpp.Base.{ℕ, zero, suc, List, [], ◌∷◌, length}
use guicpp.CType.{CType}
use guicpp.Annotations.{Annotations, Annotated, actual_type}
use guicpp.Entries.{Entry, factory_argument_entry}
use guicpp.Values.{Value}
use guicpp.Outcome.{Outcome, ok, out_of_fuel, and_then, Action, lift, ◌>>=◌}
use guicpp.Table.{BindTable}
use guicpp.LocalContext.{LocalContext, TypeIdArgumentPair, empty_context}
use guicpp.Scope.State.{Store}
use guicpp.Inject.{get_actual_type, get_with_context}
use guicpp.Inject.Ids.{get_factory_args_bind_id}
use guicpp.Inject.Parameters.{Compiler, Program}

-- FactoryInterface<R(A1, ...)>::Get takes a value of AtUtil::GetTypes<Ai>::ActualType for each Ai; a
-- call with another number of arguments does not compile. RealFactory::Get makes a
-- FactoryArgumentEntry and a TypeIdArgumentPair of each.
unfoldable pub argument_list : List Annotated → List Value → Outcome (List TypeIdArgumentPair)
unfolding get_factory_args_bind_id actual_type
argument_list [] [] = ok []
argument_list (x ∷ xs) (v ∷ vs) = and_then (get_factory_args_bind_id x) λ tid.
    and_then (argument_list xs vs)
      λ r. ok (record { type_id = tid; entry = factory_argument_entry (actual_type x) v } ∷ r)
argument_list _ _ = Outcome.ill_formed

module _ (k : Compiler) (prog : Program) (table : BindTable Entry) where
  -- InjectorUtil::GetActualType
  unfoldable pub run : ℕ → Annotations → CType → LocalContext → Action Store Value
  unfolding get_actual_type
  run zero xs t c = lift out_of_fuel
  run (suc fuel) xs t c = get_actual_type k prog table (run fuel) xs t c

  -- Injector::Get<T>
  unfoldable pub injector_get : ℕ → Annotated → Action Store Value
  unfolding get_with_context empty_context run
  injector_get fuel x = get_with_context k prog table (run fuel) x empty_context

  -- RealFactory<Annotations, FactoryType, R(A1, ...)>::Get
  unfoldable pub factory_get : ℕ → Annotations → ℕ → List Value → Action Store Value
  unfolding argument_list run
  factory_get fuel xs n vs = lift (argument_list (prog.factory_args n) vs) >>= λ args.
      run fuel xs (prog.factory_return n) (record { args = args; num_args = length args })
