-- ===== src/Inject/Bound.antt =====
-- A request whose id is bound is served by its entry, whatever its default.
use guicpp.Base.{ℕ, suc, ◌≡◌, refl, ◌⊎◌, inl, inr, some}
use guicpp.CType.{CType}
use guicpp.Annotations.{Annotations}
use guicpp.LocalContext.{LocalContext}
use guicpp.Values.{Value}
use guicpp.Entries.{TypeId, Entry}
use guicpp.Outcome.{ok, Action}
use guicpp.Outcome.Laws.{and_then-eq-ok}
use guicpp.Table.{BindTable}
use guicpp.Table
use guicpp.Reader.{read}
use guicpp.Scope.State.{Store}
use guicpp.Inject.Parameters.{Compiler, Program}
use guicpp.Inject.Ids.{
  Handler, normal_handler, missing_default_handler, assisted_handler, internal_handler, get_bind_id,
  normal_id, handler_of, handler_id,
}
use guicpp.Inject.{entry_get, read_found, handle, normal_get, missing_default_get, get_actual_type}
use guicpp.Inject.Run.{run}

module _ (k : Compiler) (prog : Program) (table : BindTable Entry)
    (f : Annotations → CType → LocalContext → Action Store Value) where
  handle_bound :
      (d : Handler) (xs : Annotations) (t : CType) (c : LocalContext) (s : Store) (tid : TypeId)
      (e : Entry)
      → (d ≡ normal_handler) ⊎ (d ≡ missing_default_handler)
      → normal_id xs t ≡ ok tid
      → Table.find_entry tid table ≡ some e
      → handle k prog table f d xs t c s ≡ read k.rtti (entry_get k prog table f c) t e s
  handle_bound d xs t c s tid e (inl n) q b =
      rw n (unfold handle normal_get read_found in rw (q, b, read_found))
  handle_bound d xs t c s tid e (inr n) q b =
      rw n (unfold handle missing_default_get read_found in rw (q, b, read_found))

-- A request with an id in the bind table is asked of a handler that looks there, under that id.
pub get_bind_id_cases :
    (xs : Annotations) (t : CType) (tid : TypeId)
    → get_bind_id xs t ≡ ok tid
    → (d : Handler) × (handler_of xs t ≡ ok d)
      × (normal_id xs t ≡ ok tid)
      × ((d ≡ normal_handler) ⊎ (d ≡ missing_default_handler))
unfolding get_bind_id
get_bind_id_cases xs t tid h =
    let (d, chosen, q) = and_then-eq-ok (handler_of xs t) (λ d. handler_id d xs t) {b = tid} h in
    let (id, which) = pick d q in (d, chosen, id, which)
  where
    pick :
        (d : Handler)
        → handler_id d xs t ≡ ok tid
        → (normal_id xs t ≡ ok tid) × ((d ≡ normal_handler) ⊎ (d ≡ missing_default_handler))
    pick normal_handler q = (q, inl refl)
    pick missing_default_handler q = (q, inr refl)
    pick assisted_handler q = cc
    pick internal_handler q = cc

-- A request that has an id in the bind table, which is bound to an entry, does what the table
-- entry reader does at that entry, with one unit of fuel less for what the entry asks for.
pub run_bound :
    (k : Compiler) (prog : Program) (table : BindTable Entry) (fuel : ℕ) (xs : Annotations)
    (t : CType) (c : LocalContext) (s : Store) (tid : TypeId) (e : Entry)
    → get_bind_id xs t ≡ ok tid
    → Table.find_entry tid table ≡ some e
    → run k prog table (suc fuel) xs t c s
      ≡ read k.rtti (entry_get k prog table (run k prog table fuel) c) t e s
unfolding run
run_bound k prog table fuel xs t c s tid e h b =
    let (d, chosen, q, which) = get_bind_id_cases xs t tid h in
    unfold get_actual_type in
    rw chosen (handle_bound k prog table (run k prog table fuel) d xs t c s tid e which q b)
