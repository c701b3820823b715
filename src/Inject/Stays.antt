-- ===== src/Inject/Stays.antt =====
-- One level of the injector's recursion keeps a condition on the store, if the requests below do.
use guicpp.Base.{
  ℕ, ◌≡◌, refl, ap, ◌∙◌, true, false, List, [], ◌∷◌, Bool, Option, none, some, All, length, ◌⊎◌,
  inl, inr, Bool-cases, if◌then◌else◌,
}
use guicpp.CType.{CType, TypeName, named, ptr, ref, is_same}
use guicpp.CType.Info.{type_specifier}
use guicpp.Annotations.{Annotations, Annotated, annotations, actual_type}
use guicpp.LocalContext.{LocalContext, TypeIdArgumentPair, empty_context, find_loop, find_entry}
use guicpp.LocalContext
use guicpp.LocalContext.Laws.{find_entry-first_match}
use guicpp.Values.{Pointer, Value, lazy_singleton, user_provider}
use guicpp.Entries.{
  TypeId, Entry, bind_to_type_entry, pointer_table_entry, value_table_entry, reference_table_entry,
  bind_to_provider_entry, bind_to_function, factory_argument_entry, invalid_entry, cleanup_entry,
  bound_type,
}
use guicpp.Outcome.{
  Outcome, ok, fatal, undefined, ill_formed, out_of_fuel, Action, ◌>>=◌, pure, lift, fail, check,
  and_then, missing_binding, missing_assisted, check_failed,
}
use guicpp.Outcome.Holds.{Allowed, Stays, Stays->>=, Stays-if, Stays-lift, Stays-check}
use guicpp.Table.{BindTable}
use guicpp.Table
use guicpp.Reader.{get_bound_type, read_cast, read_as, read}
use guicpp.Scope
use guicpp.Scope.State.{Store, Event, is_null}
use guicpp.Inject.Parameters.{Compiler, Program}
use guicpp.Inject.Ids.{
  Handler, normal_handler, missing_default_handler, assisted_handler, internal_handler, normal_id,
  assisted_id, handler_of,
}
use guicpp.Inject.Order.{in_order, arranged, All-in_order}
use guicpp.Inject.{
  get_with_context, get_all, inject_args, dereference, create, get_invoker, get_unscoped,
  invoke_get, entry_get, default_entry, returned, read_found, read_default, normal_get,
  missing_default_get, assisted_get, internal_get, handle, get_actual_type,
}
use guicpp.Inject.Requests.{
  requests, HoldsArguments, IsFactoryArgument, ArgumentIn, find_loop-Found,
}
use guicpp.Inject.Allowed.{
  bound_type-Allowed, normal_id-Allowed, assisted_id-Allowed, default_entry-Allowed,
  handler-Allowed,
}

-- What a compiler is assumed to do: nothing, or that there is RTTI and that a value reaches the caller
-- of a function without a return statement.
pub record IsDefined (U : Type 0) (k : Compiler) : Type 0 where
  pub has_rtti : (k.rtti ≡ true) ⊎ U
  pub flows : (v : Value) → ((w : Value) × (k.flow_off_end v ≡ some w)) ⊎ U

-- A local context of factory arguments, with its length where that is assumed.
abbrev pub Fits : Type 0 → LocalContext → Type 0
Fits U c = HoldsArguments c × ((c.num_args ≡ length c.args) ⊎ U)

module _ (U F : Type 0) (P : Store → Type 0)
    (logs : (s : Store) (n : ℕ) (es : List Event)
      → P s
      → P (record s { next_object = n; events = es }))
    (k : Compiler) (defined : IsDefined U k) where
  module _ (f : Entry → Action Store Value) where
    unless_rtti :
        (b : Bool)
        → (b ≡ true) ⊎ U
        → Stays U F P (if b then fail check_failed else lift {A = Value} undefined)
    unless_rtti true h s p = tt
    unless_rtti false (inl e) s p = cc
    unless_rtti false (inr u) s p = u

    cast-Stays :
        (o : Option CType) (t : CType) (e : Entry)
        → Stays U F P (f e)
        → Stays U F P (read_cast k.rtti f o t e)
    unfolding read_cast get_bound_type
    cast-Stays none t e h = λ s p. tt
    cast-Stays (some b) t e h =
        Stays->>= U F P (get_bound_type k.rtti f b e) _
          (Stays->>= U F P (lift (bound_type e)) _
            (Stays-lift U F P (bound_type e) (bound_type-Allowed U F e))
            λ u. Stays-if U F P (is_same u b) (f e) _ h (unless_rtti k.rtti defined.has_rtti))
          λ v s p. p

    read-Stays : (t : CType) (e : Entry) → Stays U F P (f e) → Stays U F P (read k.rtti f t e)
    unfolding read read_as
    read-Stays t e h =
        Stays-if U F P _ (fail missing_binding) _ (λ s p. tt)
          (Stays->>= U F P (lift (bound_type e)) _
            (Stays-lift U F P (bound_type e) (bound_type-Allowed U F e))
            λ b.
              Stays->>= U F P (check (is_same (type_specifier t) (type_specifier b))) _
                (Stays-check U F P (is_same (type_specifier t) (type_specifier b)))
                λ _. cast-Stays _ t e h)

  module _ (prog : Program) (table : BindTable Entry)
      (f : Annotations → CType → LocalContext → Action Store Value) where
    -- The recursion keeps the condition at a request, in every local context that fits.
    abbrev pub RequestStays : Annotations × CType → Type 0
    RequestStays d = (c : LocalContext) → Fits U c → Stays U F P (f d.0 d.1 c)

    -- What an entry's Get needs of the recursion.
    abbrev pub EntryStays : Entry → Type 0
    EntryStays (bind_to_type_entry t xs d) = RequestStays (xs, d)
    EntryStays (bind_to_provider_entry t (lazy_singleton i u) a) =
        Stays U F P (Scope.provider_get (get_unscoped k prog table f u) i)
    EntryStays (bind_to_provider_entry t (user_provider n) a) =
        All RequestStays (requests (prog.provider_args n))
    EntryStays (bind_to_function t xs) = All RequestStays (requests xs)
    EntryStays (reference_table_entry t q x) = (is_null q ≡ false) ⊎ U
    EntryStays _ = Unit

    ArgumentStays : Annotated → Type 0
    ArgumentStays x = RequestStays (annotations x, actual_type x)

    ArgumentStays-requests :
        (xs : List Annotated) → All RequestStays (requests xs) → All ArgumentStays xs
    unfolding requests ArgumentStays
    ArgumentStays-requests [] h = tt
    ArgumentStays-requests (x ∷ xs) h = (h.0, ArgumentStays-requests xs h.1)

    get_all-Stays :
        (xs : List Annotated) (c : LocalContext)
        → Fits U c
        → All ArgumentStays xs
        → Stays U F P (get_all k prog table f xs c)
    unfolding get_all get_with_context ArgumentStays
    get_all-Stays [] c a h = λ s p. p
    get_all-Stays (x ∷ xs) c a h =
        Stays->>= U F P (get_with_context k prog table f x c) _ (h.0 c a) λ v.
          Stays->>= U F P (get_all k prog table f xs c) _ (get_all-Stays xs c a h.1) λ vs s p. p

    inject_args-Stays :
        (xs : List Annotated) (c : LocalContext)
        → Fits U c
        → All RequestStays (requests xs)
        → Stays U F P (inject_args k prog table f xs c)
    unfolding inject_args
    inject_args-Stays xs c a h s =
        let earlier = k.earlier s.events in
        Stays->>= U F P (get_all k prog table f (in_order earlier xs) c)
          (λ vs. pure (arranged earlier xs vs))
          (get_all-Stays (in_order earlier xs) c a
            (All-in_order ArgumentStays earlier xs (ArgumentStays-requests xs h)))
          (λ vs t p. p) s

    returned-Stays : (v : Value) → Stays U F P (lift (returned k prog table f v))
    returned-Stays v = by (k.flow_off_end v) (defined.flows v)
      where
        by :
            (o : Option Value)
            → ((w : Value) × (o ≡ some w)) ⊎ U
            → Stays U F P (lift (elim o [ none ↦ undefined | some w ↦ ok w ]))
        by none (inl (w, e)) s p = cc
        by none (inr u) s p = u
        by (some w) h s p = p

    dereferenced :
        (q : Pointer) → (is_null q ≡ false) ⊎ U → Stays U F P (lift (dereference k prog table f q))
    unfolding dereference
    dereferenced q (inl e) = λ s p. rw e p
    dereferenced q (inr u) =
        λ s p. elim (Bool-cases (is_null q)) [ inl e ↦ rw e u | inr e ↦ rw e p ]

    entry_get-Stays :
        (e : Entry) (c : LocalContext)
        → Fits U c
        → EntryStays e
        → Stays U F P (entry_get k prog table f c e)
    unfolding entry_get create invoke_get get_invoker get_with_context
    entry_get-Stays (bind_to_type_entry t xs d) c a h = h c a
    entry_get-Stays (bind_to_provider_entry t (lazy_singleton i u) x) c a h =
        Stays->>= U F P (Scope.provider_get (get_unscoped k prog table f u) i) _ h returned-Stays
    entry_get-Stays (bind_to_provider_entry t (user_provider n) x) c a h =
        Stays->>= U F P (get_invoker k prog table f n c) _
          (Stays->>= U F P (inject_args k prog table f (prog.provider_args n) c) _
            (inject_args-Stays (prog.provider_args n) c a h) λ vs s p. logs s s.next_object _ p)
          returned-Stays
    entry_get-Stays (bind_to_function t xs) c a h =
        Stays->>= U F P (inject_args k prog table f xs c) _ (inject_args-Stays xs c a h)
          λ vs s p. logs s _ _ p
    entry_get-Stays (pointer_table_entry t q x) c a h = λ s p. p
    entry_get-Stays (value_table_entry t v) c a h = λ s p. p
    entry_get-Stays (reference_table_entry t q x) c a h = λ s p. dereferenced q h s p
    entry_get-Stays (factory_argument_entry t v) c a h = λ s p. p
    entry_get-Stays invalid_entry c a h = λ s p. tt
    entry_get-Stays (cleanup_entry x) c a h = λ s p. tt

    entry_read-Stays :
        (t : CType) (e : Entry) (c : LocalContext)
        → Fits U c
        → EntryStays e
        → Stays U F P (read k.rtti (entry_get k prog table f c) t e)
    entry_read-Stays t e c a h =
        read-Stays (entry_get k prog table f c) t e (entry_get-Stays e c a h)

    internal-Stays : (xs : Annotations) (t : CType) → Stays U F P (internal_get k prog table f xs t)
    unfolding internal_get
    internal-Stays xs (ptr q (named r TypeName.injector)) s p = p
    internal-Stays xs (ptr q (named r (TypeName.factory n))) s p = p
    internal-Stays xs (ptr q (named r (TypeName.primitive n))) s p = tt
    internal-Stays xs (ptr q (named r (TypeName.user_class n))) s p = tt
    internal-Stays xs (ptr q (named r (TypeName.provider n))) s p = tt
    internal-Stays xs (ptr q (named r TypeName.scope_setup_context)) s p = tt
    internal-Stays xs (ptr q (ptr r u)) s p = tt
    internal-Stays xs (ptr q (ref u)) s p = tt
    internal-Stays xs (named q n) s p = tt
    internal-Stays xs (ref u) s p = tt

    -- What the local context gives is an argument, and is defined.
    lookup-Fits :
        (tid : TypeId) (c : LocalContext)
        → Fits U c
        → ((o : Option Entry) × (LocalContext.find_entry tid c ≡ ok o)) ⊎ U
    lookup-Fits tid c (a, inl e) = inl (
      _,
      ap (λ n. LocalContext.find_entry tid (record { args = c.args; num_args = n })) e
          ∙ find_entry-first_match tid c.args,
    )
    lookup-Fits tid c (a, inr u) = inr u

    module _ (xs : Annotations) (t : CType) (c : LocalContext) (a : Fits U c)
        (bound : (tid : TypeId) (e : Entry)
          → normal_id xs t ≡ ok tid
          → Table.find_entry tid table ≡ some e
          → EntryStays e)
        (default : (tid : TypeId) (e : Entry)
          → normal_id xs t ≡ ok tid
          → Table.find_entry tid table ≡ none
          → default_entry prog (type_specifier t) ≡ ok e
          → EntryStays e) where
      -- The reader at what the bind table holds for the request, or else at what comes instead.
      found-Stays :
          (tid : TypeId) (m : Action Store Value)
          → normal_id xs t ≡ ok tid
          → (Table.find_entry tid table ≡ none → Stays U F P m)
          → Stays U F P (read_found k prog table f (Table.find_entry tid table) t c m)
      found-Stays tid m q h = go (Table.find_entry tid table) refl
        where
          go :
              (o : Option Entry)
              → Table.find_entry tid table ≡ o
              → Stays U F P (read_found k prog table f o t c m)
          go none r = unfold read_found in h r
          go (some e) r = unfold read_found in entry_read-Stays t e c a (bound tid e q r)

      default-Stays :
          (tid : TypeId)
          → normal_id xs t ≡ ok tid
          → Table.find_entry tid table ≡ none
          → Stays U F P (read_default k prog table f t c)
      unfolding read_default
      default-Stays tid q r =
          go (default_entry prog (type_specifier t)) refl
            (default_entry-Allowed U F prog (type_specifier t))
        where
          go :
              (o : Outcome Entry)
              → default_entry prog (type_specifier t) ≡ o
              → Allowed U F o
              → Stays U F P (lift o >>= λ e. read k.rtti (entry_get k prog table f c) t e)
          go (ok e) w l = entry_read-Stays t e c a (default tid e q r w)
          go (fatal e) w l = λ s p. tt
          go undefined w l = λ s p. l
          go ill_formed w l = λ s p. tt
          go out_of_fuel w l = λ s p. l

      -- A step that goes on with the id of the request.
      with_id-Stays :
          (g : TypeId → Action Store Value)
          → ((tid : TypeId) → normal_id xs t ≡ ok tid → Stays U F P (g tid))
          → Stays U F P (lift (normal_id xs t) >>= g)
      with_id-Stays g h = go (normal_id xs t) refl (normal_id-Allowed U F xs t)
        where
          go :
              (o : Outcome TypeId) → normal_id xs t ≡ o → Allowed U F o → Stays U F P (lift o >>= g)
          go (ok tid) w l = h tid w
          go (fatal e) w l = λ s p. tt
          go undefined w l = λ s p. l
          go ill_formed w l = λ s p. tt
          go out_of_fuel w l = λ s p. l

      assisted-Stays :
          (o : Outcome TypeId)
          → Allowed U F o
          → Stays U F P (
              lift (and_then o λ tid. LocalContext.find_entry tid c) >>= λ x.
              read_found k prog table f x t c (fail missing_assisted))
      unfolding find_entry find_loop
      assisted-Stays (ok tid) l =
          go (LocalContext.find_entry tid c)
            (find_loop-Found IsFactoryArgument c.num_args 0 tid c.args a.0) (lookup-Fits tid c a)
        where
          go :
              (o : Outcome (Option Entry))
              → ArgumentIn o
              → ((x : Option Entry) × (o ≡ ok x)) ⊎ U
              → Stays U F P
                  (lift o >>= λ x. read_found k prog table f x t c (fail missing_assisted))
          go (ok none) h d = unfold read_found in λ s p. tt
          go (ok (some e)) (u, v, q) d = unfold read_found in entry_read-Stays t e c a (rw q tt)
          go (fatal e) h d = λ s p. tt
          go undefined h (inl (x, e)) = λ s p. cc
          go undefined h (inr u) = λ s p. u
          go ill_formed h d = λ s p. tt
          go out_of_fuel h d = absurd h
      assisted-Stays (fatal e) l = λ s p. tt
      assisted-Stays undefined l = λ s p. l
      assisted-Stays ill_formed l = λ s p. tt
      assisted-Stays out_of_fuel l = λ s p. l

      handle-Stays : (d : Handler) → Stays U F P (handle k prog table f d xs t c)
      unfolding handle normal_get missing_default_get assisted_get
      handle-Stays normal_handler =
          with_id-Stays _
            λ tid q. found-Stays tid (read_default k prog table f t c) q (default-Stays tid q)
      handle-Stays missing_default_handler =
          with_id-Stays _ λ tid q. found-Stays tid (fail missing_binding) q λ _ s p. tt
      handle-Stays assisted_handler =
          assisted-Stays (assisted_id xs t) (assisted_id-Allowed U F xs t)
      handle-Stays internal_handler = internal-Stays xs t

      pub get_actual_type-Stays : Stays U F P (get_actual_type k prog table f xs t c)
      unfolding get_actual_type
      get_actual_type-Stays =
          Stays->>= U F P (lift (handler_of xs t)) _
            (Stays-lift U F P (handler_of xs t) (handler-Allowed U F xs t)) handle-Stays
