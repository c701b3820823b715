-- ===== src/Inject/Keeps.antt =====
-- What every request does to the store: a preorder that the writes of the entries follow is followed by
-- the whole recursion.
use guicpp.Reader.Keeps.{read-Keeps}
use guicpp.Base.{ℕ, zero, suc, List, [], ◌∷◌, Option, none, some, arith}
use guicpp.CType.{CType}
use guicpp.CType.Info.{type_specifier}
use guicpp.Annotations.{Annotations, Annotated}
use guicpp.LocalContext.{LocalContext, empty_context}
use guicpp.LocalContext
use guicpp.Values.{Value, lazy_singleton, user_provider}
use guicpp.Entries.{
  Entry, bind_to_type_entry, pointer_table_entry, value_table_entry, reference_table_entry,
  bind_to_provider_entry, bind_to_function, factory_argument_entry, invalid_entry, cleanup_entry,
}
use guicpp.Outcome.{Action, pure, lift, fail, and_then, missing_binding, missing_assisted}
use guicpp.Outcome.Keeps.{Keeps, IsPreorder, Keeps->>=, Keeps-lift}
use guicpp.Table.{BindTable}
use guicpp.Table
use guicpp.Reader.{read}
use guicpp.Scope
use guicpp.Scope.State.{Store, constructed, provided}
use guicpp.Inject.Parameters.{Compiler, Program}
use guicpp.Inject.Ids.{
  Handler, normal_handler, missing_default_handler, assisted_handler, internal_handler, normal_id,
  assisted_id, handler_of,
}
use guicpp.Inject.{
  get_with_context, get_all, inject_args, create, get_invoker, get_unscoped, invoke_get, entry_get,
  default_entry, returned, read_found, read_default, normal_get, missing_default_get, assisted_get,
  dereference, internal_get, handle, get_actual_type,
}
use guicpp.Inject.Order.{in_order, arranged}
use guicpp.Inject.Run.{run}

-- What a property of the steps of the store must satisfy: it is a preorder, and the three writes
-- that requests make follow it.
pub record IsFrame (R : Store → Store → Type 0) : Type 0 where
  pub preorder : IsPreorder R
  pub constructs :
      (t : CType) (vs : List Value) (s : Store)
      → R s (record s {
        next_object = suc s.next_object;
        events = constructed s.next_object t vs ∷ s.events;
      })
  pub provides :
      (n : ℕ) (vs : List Value) (s : Store) → R s (record s { events = provided n vs ∷ s.events })
  pub singletons : (m : Action Store Value) (i : ℕ) → Keeps R m → Keeps R (Scope.provider_get m i)

module _ {R : Store → Store → Type 0} (frame : IsFrame R) (k : Compiler) (prog : Program)
    (table : BindTable Entry) (f : Annotations → CType → LocalContext → Action Store Value)
    (h : (xs : Annotations) (t : CType) (c : LocalContext) → Keeps R (f xs t c)) where
  get_all-Keeps : (xs : List Annotated) (c : LocalContext) → Keeps R (get_all k prog table f xs c)
  unfolding get_all get_with_context
  get_all-Keeps [] c = frame.preorder.reflexive
  get_all-Keeps (x ∷ xs) c =
      Keeps->>= frame.preorder (get_with_context k prog table f x c) _ (h _ _ c) λ v.
        Keeps->>= frame.preorder (get_all k prog table f xs c) _ (get_all-Keeps xs c)
          λ vs. frame.preorder.reflexive

  inject_args-Keeps :
      (xs : List Annotated) (c : LocalContext) → Keeps R (inject_args k prog table f xs c)
  unfolding inject_args
  inject_args-Keeps xs c s =
      let ordered = in_order (k.earlier s.events) xs in
      Keeps->>= frame.preorder (get_all k prog table f ordered c)
        (λ vs. pure (arranged (k.earlier s.events) xs vs)) (get_all-Keeps ordered c)
        (λ vs. frame.preorder.reflexive) s

  entry_get-Keeps : (c : LocalContext) (e : Entry) → Keeps R (entry_get k prog table f c e)
  unfolding entry_get create invoke_get get_invoker get_unscoped get_with_context
  entry_get-Keeps c (bind_to_type_entry t xs d) = h xs d c
  entry_get-Keeps c (bind_to_provider_entry t (lazy_singleton i u) x) =
      Keeps->>= frame.preorder (Scope.provider_get (get_unscoped k prog table f u) i)
        (λ v. lift (returned k prog table f v))
        (frame.singletons (get_unscoped k prog table f u) i (h _ _ empty_context))
        λ v. Keeps-lift frame.preorder _
  entry_get-Keeps c (bind_to_provider_entry t (user_provider n) x) =
      Keeps->>= frame.preorder (get_invoker k prog table f n c)
        (λ v. lift (returned k prog table f v))
        (Keeps->>= frame.preorder (inject_args k prog table f (prog.provider_args n) c) _
          (inject_args-Keeps (prog.provider_args n) c) λ vs. frame.provides n vs)
        λ v. Keeps-lift frame.preorder _
  entry_get-Keeps c (bind_to_function t xs) =
      Keeps->>= frame.preorder (inject_args k prog table f xs c) _ (inject_args-Keeps xs c)
        λ vs. frame.constructs t vs
  entry_get-Keeps c (pointer_table_entry t p x) = frame.preorder.reflexive
  entry_get-Keeps c (value_table_entry t v) = frame.preorder.reflexive
  entry_get-Keeps c (reference_table_entry t p x) =
      Keeps-lift frame.preorder (dereference k prog table f p)
  entry_get-Keeps c (factory_argument_entry t v) = frame.preorder.reflexive
  entry_get-Keeps c invalid_entry = λ s. tt
  entry_get-Keeps c (cleanup_entry x) = λ s. tt

  found-Keeps :
      (o : Option Entry) (t : CType) (c : LocalContext) (m : Action Store Value)
      → Keeps R m
      → Keeps R (read_found k prog table f o t c m)
  unfolding read_found
  found-Keeps none t c m n = n
  found-Keeps (some e) t c m n =
      read-Keeps frame.preorder k.rtti (entry_get k prog table f c) e (entry_get-Keeps c e) t

  read_default-Keeps : (t : CType) (c : LocalContext) → Keeps R (read_default k prog table f t c)
  unfolding read_default
  read_default-Keeps t c =
      Keeps->>= frame.preorder (lift (default_entry prog (type_specifier t)))
        (λ e. read k.rtti (entry_get k prog table f c) t e)
        (Keeps-lift frame.preorder (default_entry prog (type_specifier t)))
        λ e. read-Keeps frame.preorder k.rtti (entry_get k prog table f c) e (entry_get-Keeps c e) t

  internal_get-Keeps : (xs : Annotations) (t : CType) → Keeps R (internal_get k prog table f xs t)
  unfolding internal_get
  internal_get-Keeps xs t s = ground (arith, frame.preorder.reflexive s)

  handle-Keeps :
      (d : Handler) (xs : Annotations) (t : CType) (c : LocalContext)
      → Keeps R (handle k prog table f d xs t c)
  unfolding handle normal_get missing_default_get assisted_get
  handle-Keeps normal_handler xs t c =
      Keeps->>= frame.preorder (lift (normal_id xs t))
        (λ tid.
          read_found k prog table f (Table.find_entry tid table) t c
            (read_default k prog table f t c))
        (Keeps-lift frame.preorder (normal_id xs t))
        λ tid. found-Keeps (Table.find_entry tid table) t c _ (read_default-Keeps t c)
  handle-Keeps missing_default_handler xs t c =
      Keeps->>= frame.preorder (lift (normal_id xs t))
        (λ tid. read_found k prog table f (Table.find_entry tid table) t c (fail missing_binding))
        (Keeps-lift frame.preorder (normal_id xs t))
        λ tid. found-Keeps (Table.find_entry tid table) t c (fail missing_binding) (λ s. tt)
  handle-Keeps assisted_handler xs t c =
      let found = and_then (assisted_id xs t) λ tid. LocalContext.find_entry tid c in
      Keeps->>= frame.preorder (lift found)
        (λ o. read_found k prog table f o t c (fail missing_assisted))
        (Keeps-lift frame.preorder found) λ o. found-Keeps o t c (fail missing_assisted) (λ s. tt)
  handle-Keeps internal_handler xs t c = internal_get-Keeps xs t

  get_actual_type-Keeps :
      (xs : Annotations) (t : CType) (c : LocalContext)
      → Keeps R (get_actual_type k prog table f xs t c)
  unfolding get_actual_type
  get_actual_type-Keeps xs t c =
      Keeps->>= frame.preorder (lift (handler_of xs t)) (λ d. handle k prog table f d xs t c)
        (Keeps-lift frame.preorder (handler_of xs t)) λ d. handle-Keeps d xs t c

pub run-Keeps :
    {R : Store → Store → Type 0}
    → IsFrame R
    → (k : Compiler) (prog : Program) (table : BindTable Entry) (fuel : ℕ) (xs : Annotations)
      (t : CType) (c : LocalContext)
    → Keeps R (run k prog table fuel xs t c)
unfolding run
run-Keeps frame k prog table zero xs t c = λ s. tt
run-Keeps frame k prog table (suc fuel) xs t c =
    get_actual_type-Keeps frame k prog table (run k prog table fuel)
      (run-Keeps frame k prog table fuel) xs t c
