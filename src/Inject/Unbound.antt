-- ===== src/Inject/Unbound.antt =====
-- Requests that the bind table does not serve, and requests that no entry can serve.
use guicpp.Base.{ℕ, suc, ◌≡◌, ◌≢◌, refl, sym, ap, ◌∙◌, inl, inr, false, none, some, arith}
use guicpp.CType.{is_class_or_union, CType, TypeName, named, plain, user_class}
use guicpp.CType.Info.{type_specifier}
use guicpp.Annotations.{InjectType, normal_inject, Annotations}
use guicpp.LocalContext.{LocalContext}
use guicpp.Values.{lazy_singleton, user_provider, Value, Provider, CleanupAction}
use guicpp.Entries.{
  TypeId, Entry, bind_to_function, invalid_entry, bind_to_provider_entry, bound_type, get_bind_type,
  BindType-discrete,
}
use guicpp.Outcome.{
  Outcome, ok, fatal, ill_formed, missing_binding, and_then, Action, undefined, lift, ◌>>=◌,
}
use guicpp.Outcome.Laws.{and_then-eq-ok}
use guicpp.Table
use guicpp.Table.{BindTable}
use guicpp.Reader.{read, convert}
use guicpp.Reader.Laws.{Form, pointer, formed, verdict, answer, read_lem}
use guicpp.Reader.Success.{read-Reads}
use guicpp.Scope.{provider_get}
use guicpp.Scope.State.{Store}
use guicpp.Inject.Parameters.{
  Compiler, Program, DefaultEntry, not_injectable, inject_ctor, injectable,
}
use guicpp.Inject.Ids.{
  normal_selector, inject_type_of, get_inject_handler, select_handler, normal_handler,
  missing_default_handler, handler_of, get_bind_id,
}
use guicpp.Inject.{
  get_unscoped, get_invoker, default_entry, entry_get, handle, normal_get, missing_default_get,
  read_found, read_default, get_actual_type, invoke_get, returned,
}
use guicpp.Inject.Bound.{get_bind_id_cases, run_bound}
use guicpp.Inject.Run.{run}

formed_specifier : (x : Form) (n : TypeName) → type_specifier (formed x n) ≡ named plain n
unfolding type_specifier formed
formed_specifier x n = ground arith

-- The default entry of a class, by its macro.
abbrev made_by : DefaultEntry → TypeName → Outcome Entry
made_by not_injectable n = ill_formed
made_by (inject_ctor xs) n = ok (bind_to_function (named plain n) xs)
made_by injectable n = ok invalid_entry

default_entry-made_by :
    (prog : Program) (n : TypeName) (d : DefaultEntry)
    → prog.default_entry n ≡ d
    → default_entry prog (named plain n) ≡ made_by d n
unfolding default_entry
default_entry-made_by prog n not_injectable e = rw (e, default_entry) refl
default_entry-made_by prog n (inject_ctor xs) e = rw (e, default_entry) refl
default_entry-made_by prog n injectable e = rw (e, default_entry) refl

-- A class is never served by the handler of types that have no default.
class_handler :
    (xs : Annotations) (x : Form) (m : ℕ)
    → handler_of xs (formed x (user_class m)) ≢ ok missing_default_handler
class_handler xs x m h =
    let (i, _, chosen) =
      and_then-eq-ok (inject_type_of normal_inject xs)
        (λ i. get_inject_handler i (formed x (user_class m))) {b = missing_default_handler}
        (unfold handler_of in h) in
    pick i (unfold get_inject_handler in rw (formed_specifier x (user_class m)) at chosen)
  where
    pick :
        (i : InjectType)
        → select_handler i (named plain (user_class m)) ≢ ok missing_default_handler
    pick i q = unfold select_handler in ground arith

module _ (k : Compiler) (prog : Program) (table : BindTable Entry) (fuel : ℕ) (c : LocalContext)
    (s : Store) where
  -- What the inject macro of a class makes of a request for it that nothing is bound to.
  abbrev pub by_default : DefaultEntry → Form → TypeName → Outcome (Value × Store)
  by_default not_injectable x n = ill_formed
  by_default (inject_ctor xs) x n =
      answer k.rtti (entry_get k prog table (run k prog table fuel) c) (verdict x pointer)
        (formed x n) (bind_to_function (named plain n) xs) s
  by_default injectable x n = fatal missing_binding

  default_read :
      (d : DefaultEntry) (x : Form) (n : TypeName)
      → prog.default_entry n ≡ d
      → read_default k prog table (run k prog table fuel) (formed x n) c s ≡ by_default d x n
  unfolding read_default
  default_read d x n e =
      ap from (ap (default_entry prog) (formed_specifier x n) ∙ default_entry-made_by prog n d e)
      ∙ made d
    where
      from : Outcome Entry → Outcome (Value × Store)
      from o =
          (lift o >>= read k.rtti (entry_get k prog table (run k prog table fuel) c) (formed x n)) s

      made : (d : DefaultEntry) → from (made_by d n) ≡ by_default d x n
      made not_injectable = refl
      made injectable = unfold read get_bind_type BindType-discrete in refl
      made (inject_ctor xs) =
          read_lem k.rtti (entry_get k prog table (run k prog table fuel) c) x pointer n
            (bind_to_function (named plain n) xs) s (unfold bound_type formed in refl)

  -- A request for a form of a class with an id that the table does not bind is ill-formed where
  -- the class has no inject macro; aborts with a missing binding where the macro only makes it
  -- injectable; and where the macro names a constructor, does with the constructor entry what
  -- `verdict` says of a bound pointer: a pointer or const pointer is made by the constructor with
  -- its injected arguments, and every other form aborts.
  pub run_unbound :
      (xs : Annotations) (x : Form) (m : ℕ) (tid : TypeId)
      → get_bind_id xs (formed x (user_class m)) ≡ ok tid
      → Table.find_entry tid table ≡ none
      → run k prog table (suc fuel) xs (formed x (user_class m)) c s
        ≡ by_default (prog.default_entry (user_class m)) x (user_class m)
  unfolding run get_actual_type
  run_unbound xs x m tid id free =
      let (d, chosen, q, which) = get_bind_id_cases xs (formed x (user_class m)) tid id in
      elim which [
        | inl normal ↦
            rw (chosen, normal)
              (unfold handle normal_get read_found in
                rw (q, free)
                  (default_read (prog.default_entry (user_class m)) x (user_class m) refl))
        | inr missing ↦ absurd (class_handler xs x m (chosen ∙ ap ok missing))
      ]

-- A type that is no class is not served by the handler of classes.
other_handler :
    (xs : Annotations) (t : CType)
    → is_class_or_union (type_specifier t) ≡ false
    → handler_of xs t ≢ ok normal_handler
other_handler xs t other h =
    let (i, _, chosen) =
      and_then-eq-ok (inject_type_of normal_inject xs) (λ i. get_inject_handler i t)
        {b = normal_handler} (unfold handler_of in h) in
    pick i (unfold get_inject_handler in chosen)
  where
    pick : (i : InjectType) → select_handler i (type_specifier t) ≢ ok normal_handler
    pick i q = unfold select_handler normal_selector in ground arith

module _ (k : Compiler) (prog : Program) (table : BindTable Entry) (fuel : ℕ) (xs : Annotations)
    (t : CType) (c : LocalContext) (s : Store) (tid : TypeId) (id : get_bind_id xs t ≡ ok tid) where
  -- A request with an id that the table does not bind, for a type whose type specifier is no
  -- class, aborts with a missing binding.
  pub run_no_default :
      is_class_or_union (type_specifier t) ≡ false
      → Table.find_entry tid table ≡ none
      → run k prog table (suc fuel) xs t c s ≡ fatal missing_binding
  unfolding run get_actual_type
  run_no_default other free =
      let (d, chosen, q, which) = get_bind_id_cases xs t tid id in
      elim which [
        | inl normal ↦ absurd (other_handler xs t other (chosen ∙ ap ok normal))
        | inr missing ↦
            rw (chosen, missing) (unfold handle missing_default_get read_found in rw (q, free) refl)
      ]

  -- If the compiler gives the caller of a function nothing where it ends without a return
  -- statement, then no request for an id that is bound to a provider ever returns a value.
  pub run-provider :
      (b : CType) (p : Provider) (x : CleanupAction) (r : Value × Store)
      → ((v : Value) → k.flow_off_end v ≡ none)
      → Table.find_entry tid table ≡ some (bind_to_provider_entry b p x)
      → run k prog table (suc fuel) xs t c s ≢ ok r
  run-provider b p x r undefined_end entry h =
      let e = bind_to_provider_entry b p x in
      let get = entry_get k prog table (run k prog table fuel) c in
      let back = sym (run_bound k prog table fuel xs t c s tid e id entry) ∙ h in
      let (a, got, end) =
        and_then-eq-ok (get e s) (λ r. ok (convert t r.0, r.1)) {b = r}
          (sym (read-Reads k.rtti get t e s r back get s) ∙ back) in
      never p a (unfold entry_get in got)
    where
      f : Annotations → CType → LocalContext → Action Store Value
      f = run k prog table fuel

      off :
          (v : Value) (z : Store) (a : Value × Store)
          → and_then (returned k prog table f v) (λ w. ok (w, z)) ≢ ok a
      off v z a e =
          let lost : returned k prog table f v ≡ undefined = rw (undefined_end v, returned) refl in
          let none_back : undefined ≡ ok a = sym (ap (λ o. and_then o (λ w. ok (w, z))) lost) ∙ e in
          cc

      never :
          (p : Provider) (a : Value × Store)
          → invoke_get k prog table (run k prog table fuel) p c s ≢ ok a
      never (lazy_singleton i u) a q =
          let (y, _, rest) =
            and_then-eq-ok (provider_get (get_unscoped k prog table f u) i s)
              (λ r. and_then (returned k prog table f r.0) (λ w. ok (w, r.1))) {b = a}
              (unfold invoke_get in q) in
          off y.0 y.1 a rest
      never (user_provider n) a q =
          let (y, _, rest) =
            and_then-eq-ok (get_invoker k prog table f n c s)
              (λ r. and_then (returned k prog table f r.0) (λ w. ok (w, r.1))) {b = a}
              (unfold invoke_get in q) in
          off y.0 y.1 a rest
