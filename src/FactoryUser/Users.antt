-- ===== src/FactoryUser/Users.antt =====
-- What the injector makes for PointerArgumentFactory::Get.
use guicpp.Base.{Option, ℕ, ℕ_discrete, zero, suc, ◌≡◌, refl, List, [], ◌∷◌, true, false, some}
use guicpp.CType.{CType-discrete, named, plain, scope_setup_context}
use guicpp.Annotations
use guicpp.Annotations.{Annotated, empty_annotations, normal_inject, not_labelled}
use guicpp.Entries.{Entry, TypeId-discrete, BindType-discrete, label_helper, cleanup_entry}
use guicpp.Values.{Pointer, Value, pointer, object, factory_object, the_injector, invoke_cleanup}
use guicpp.Outcome.{ok}
use guicpp.Table.{BindTable}
use guicpp.LocalContext.{empty_context}
use guicpp.Scope.State.{Store, Event, constructed}
use guicpp.Inject.Parameters.{Compiler}
use guicpp.Injector.Ownership.{context_entry}
use guicpp.Injector.{Injector}
use guicpp.Inject.Run.{factory_get}
use guicpp.Inject.Order.{arranged}
use guicpp.FactoryUser.{
  get_factory, get_users, simple_class, factory_arg_user, user_arguments, user_program,
}

-- The events of the calls, from object number `n` on: for each argument a SimpleClass of its own, and
-- the FactoryArgUser with it and the argument.
abbrev pub user_events : ℕ → List Pointer → List Event → List Event
user_events n [] es = es
user_events n (arg ∷ args) es = user_events (suc (suc n)) args (
    constructed (suc n) factory_arg_user (pointer (object n) ∷ pointer arg ∷ [])
    ∷ constructed n simple_class []
    ∷ es)

-- The users that the calls return.
abbrev pub users : ℕ → List Pointer → List Value
users n [] = []
users n (arg ∷ args) = pointer (object (suc n)) ∷ users (suc (suc n)) args

abbrev pub next_number : ℕ → List Pointer → ℕ
next_number n [] = n
next_number n (arg ∷ args) = next_number (suc (suc n)) args

abbrev pub user_table : BindTable Entry
user_table = record {
  bind_map =
      (label_helper normal_inject not_labelled (named plain scope_setup_context), context_entry)
      ∷ [];
  cleanup_list = context_entry ∷ cleanup_entry invoke_cleanup ∷ [];
}

abbrev pub user_store : ℕ → List Event → Store
user_store n es = record {
  next_object = n;
  events = es;
  providers = [];
  context = some (record {
    injector = the_injector;
    init_list = [];
    locked = false;
    cleanup_list = [];
    cleanup_list_size = 0;
  });
}

-- A compiler with RTTI, and all else as it likes.
abbrev pub with_rtti : (List Event → List Annotated → ℕ) → (Value → Option Value) → Compiler
with_rtti order flow = record { rtti = true; earlier = order; flow_off_end = flow }

module _ (order : List Event → List Annotated → ℕ) (flow : Value → Option Value) where
  get_factory-eq-ok :
      get_factory (with_rtti order flow)
      ≡ ok (
        record { table = user_table; store = user_store 0 [] },
        pointer (factory_object empty_annotations 0),
      )
  unfolding get_factory TypeId-discrete CType-discrete ℕ_discrete BindType-discrete
      empty_annotations empty_context Annotations.entries
  get_factory-eq-ok = refl

-- What one call of the factory's Get does.
abbrev MakesUser : Compiler → ℕ → List Event → Pointer → Type 0
MakesUser k n es arg =
    factory_get k user_program user_table 9 empty_annotations 0 (pointer arg ∷ []) (user_store n es)
    ≡ ok (
      pointer (object (suc n)),
      user_store (suc (suc n)) (
          constructed (suc n) factory_arg_user (pointer (object n) ∷ pointer arg ∷ [])
          ∷ constructed n simple_class []
          ∷ es),
    )

one_user :
    (order : List Event → List Annotated → ℕ) (flow : Value → Option Value) (n : ℕ)
    (es : List Event) (arg : Pointer)
    → MakesUser (with_rtti order flow) n es arg
unfolding factory_get user_program TypeId-discrete CType-discrete ℕ_discrete BindType-discrete
    empty_annotations empty_context Annotations.entries
one_user order flow n es arg = go (order es user_arguments) refl
  where
    go : (m : ℕ) → order es user_arguments ≡ m → MakesUser (with_rtti order flow) n es arg
    go zero e = rw (e, arranged) refl
    go (suc m) e = rw (e, arranged) refl

get_users-eq-ok :
    (order : List Event → List Annotated → ℕ) (flow : Value → Option Value) (args : List Pointer)
    (n : ℕ) (es : List Event)
    → get_users (with_rtti order flow) user_table args (user_store n es)
      ≡ ok (users n args, user_store (next_number n args) (user_events n args es))
unfolding get_users
get_users-eq-ok order flow [] n es = refl
get_users-eq-ok order flow (arg ∷ args) n es =
    rw (one_user order flow n es arg) (rw (get_users-eq-ok order flow args (suc (suc n)) _) refl)

-- For a compiler with RTTI, whatever order it evaluates arguments in and whatever it does at a
-- missing return statement: CreateInjector and Get<PointerArgumentFactory*> return a factory, and
-- its Get returns for each argument a FactoryArgUser of its own, made with that argument and with
-- a SimpleClass of its own; nothing else is made.
pub get_users_lem :
    (order : List Event → List Annotated → ℕ) (flow : Value → Option Value) (args : List Pointer)
    → (i : Injector) × (get_factory (with_rtti order flow)
        ≡ ok (i, pointer (factory_object empty_annotations 0)))
      × (t : Store) × (get_users (with_rtti order flow) i.table args i.store ≡ ok (users 0 args, t))
      × (t.events ≡ user_events 0 args [])
get_users_lem order flow args = (
  record { table = user_table; store = user_store 0 [] },
  get_factory-eq-ok order flow,
  user_store (next_number 0 args) (user_events 0 args []),
  get_users-eq-ok order flow args 0 [],
  refl,
)
