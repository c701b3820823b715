-- ===== src/Inject/Singleton.antt =====
-- A bound lazy singleton is one object for as long as the injector serves requests.
use guicpp.Base.{ℕ, suc, ◌≡◌, sym, ap, subst, ◌∙◌, some}
use guicpp.CType.{CType}
use guicpp.Annotations.{Annotations}
use guicpp.LocalContext.{LocalContext}
use guicpp.Values.{Value, Pointer, pointer, lazy_singleton, CleanupAction}
use guicpp.Entries.{TypeId, Entry, bind_to_provider_entry}
use guicpp.Outcome.{ok, Action, and_then}
use guicpp.Outcome.Laws.{and_then-eq-ok}
use guicpp.Table.{BindTable}
use guicpp.Table
use guicpp.Reader.{read, convert}
use guicpp.Reader.Success.{read-Reads, Reads}
use guicpp.Scope
use guicpp.Scope.Once.{HasMade, HasMade-provider_get, provider_get-HasMade}
use guicpp.Scope.State.{Store}
use guicpp.Inject.Parameters.{Compiler, Program}
use guicpp.Inject.Ids.{get_bind_id}
use guicpp.Inject.{entry_get, invoke_get, get_unscoped, returned}
use guicpp.Inject.Run.{run}
use guicpp.Inject.Bound.{run_bound}
use guicpp.Inject.Keeps.{IsFrame, run-Keeps}
use guicpp.Inject.Frames.{StaysMade-IsFrame}
use guicpp.Outcome.Keeps.{Keeps-ok}

-- What requests, made one after the other, lead to.
pub data Reaches (k : Compiler) (prog : Program) (table : BindTable Entry)
    : Store → Store → Type 0 where
  here : (s : Store) → Reaches k prog table s s
  request :
      (fuel : ℕ) (xs : Annotations) (t : CType) (c : LocalContext) (v : Value) (s s' s'' : Store)
      → run k prog table fuel xs t c s ≡ ok (v, s')
      → Reaches k prog table s' s''
      → Reaches k prog table s s''

-- Requests together do to the store what each does.
pub Reaches-Keeps :
    (k : Compiler) (prog : Program) (table : BindTable Entry) {R : Store → Store → Type 0}
    → IsFrame R
    → (s t : Store) → Reaches k prog table s t
    → R s t
Reaches-Keeps k prog table frame s t (here _) = frame.preorder.reflexive s
Reaches-Keeps k prog table {R} frame s t (request fuel xs u c v _ s' _ e r) =
    frame.preorder.transitive s s' t
      (Keeps-ok R (run k prog table fuel xs u c) s (v, s')
        (run-Keeps frame k prog table fuel xs u c) e)
      (Reaches-Keeps k prog table frame s' t r)

module _ (k : Compiler) (prog : Program) (table : BindTable Entry)
    (f : Annotations → CType → LocalContext → Action Store Value) (i : ℕ) (u : CType)
    (v : Value) where
  -- The object is made, and every Get of the provider returns `v`.
  abbrev Serves : Store → Type 0
  Serves s = (p : Pointer) × HasMade i p s × (returned k prog table f (pointer p) ≡ ok v)

  Serves-invoke_get :
      (c : LocalContext) (s s' : Store)
      → invoke_get k prog table f (lazy_singleton i u) c s ≡ ok (v, s')
      → Serves s'
  unfolding invoke_get
  Serves-invoke_get c s s' h =
      let (a, got, rest) =
        and_then-eq-ok (Scope.provider_get (get_unscoped k prog table f u) i s)
          (λ r. and_then (returned k prog table f r.0) (λ w. ok (w, r.1))) {b = (v, s')} h in
      let (p, value, made) = HasMade-provider_get (get_unscoped k prog table f u) i s a.1 a.0 got in
      let (w, answer, end) =
        and_then-eq-ok (returned k prog table f a.0) (λ w. ok (w, a.1)) {b = (v, s')} rest in
      (p, subst (HasMade i p) (cc) made, rw (← value) (answer ∙ cc))

  invoke_get-Serves :
      (c : LocalContext) (s : Store)
      → Serves s
      → invoke_get k prog table f (lazy_singleton i u) c s ≡ ok (v, s)
  unfolding invoke_get
  invoke_get-Serves c s (p, made, answer) =
      let again : Scope.provider_get (get_unscoped k prog table f u) i s ≡ ok (pointer p, s) =
        provider_get-HasMade (get_unscoped k prog table f u) i p s made in
      rw again (ap (λ o. and_then o λ a. ok (a, s)) answer)

module _ (k : Compiler) (prog : Program) (table : BindTable Entry) (xs : Annotations) (t : CType)
    (tid : TypeId) (b : CType) (i : ℕ) (u : CType) (x : CleanupAction)
    (id : get_bind_id xs t ≡ ok tid)
    (entry : Table.find_entry tid table
      ≡ some (bind_to_provider_entry b (lazy_singleton i u) x)) where
  abbrev the_entry : Entry
  the_entry = bind_to_provider_entry b (lazy_singleton i u) x

  abbrev get_entry : ℕ → LocalContext → Action Store Value
  get_entry fuel c = entry_get k prog table (run k prog table fuel) c the_entry

  -- What the first request leaves: a provider that serves a value which is read as `v`.
  first_request :
      (fuel : ℕ) (c : LocalContext) (s s' : Store) (v : Value)
      → run k prog table (suc fuel) xs t c s ≡ ok (v, s')
      → (w : Value) × (convert t w ≡ v)
        × Serves k prog table (run k prog table fuel) i u w s'
        × Reads k.rtti {S = Store} (λ g. read k.rtti g t the_entry) the_entry (convert t)
  first_request fuel c s s' v h =
      let get = entry_get k prog table (run k prog table fuel) c in
      let reads =
        read-Reads k.rtti get t the_entry s (v, s')
          (sym (run_bound k prog table fuel xs t c s tid the_entry id entry) ∙ h) in
      let (a, got, end) =
        and_then-eq-ok (get_entry fuel c s) (λ r. ok (convert t r.0, r.1)) {b = (v, s')}
          (sym (reads get s)
            ∙ (sym (run_bound k prog table fuel xs t c s tid the_entry id entry) ∙ h)) in
      let end_store : a.1 ≡ s' = cc in
      let serves = Serves-invoke_get k prog table (run k prog table fuel) i u a.0 c s s' (
        unfold entry_get in
        got ∙ ap (λ (z : Store). let r : Value × Store = (a.0, z) in ok r) end_store) in
      (a.0, cc, serves, reads)

  -- Let a request have an id that the table binds to a lazy singleton. If it returned a value, and
  -- any requests for any types that returned were made after it, then it returns the same value
  -- again and changes nothing in the store, in whatever local context and with whatever fuel above
  -- 0.
  pub run-singleton :
      (fuel more : ℕ) (c d : LocalContext) (s s' s'' : Store) (v : Value)
      → run k prog table (suc fuel) xs t c s ≡ ok (v, s')
      → Reaches k prog table s' s''
      → run k prog table (suc more) xs t d s'' ≡ ok (v, s'')
  run-singleton fuel more c d s s' s'' v h r =
      let (w, value, (p, made, answer), reads) = first_request fuel c s s' v h in
      let still = Reaches-Keeps k prog table (StaysMade-IsFrame i p) s' s'' r made in
      let again : get_entry more d s'' ≡ ok (w, s'') =
        unfold entry_get in
        invoke_get-Serves k prog table (run k prog table more) i u w d s'' (p, still, answer) in
      run_bound k prog table more xs t d s'' tid the_entry id entry
      ∙ (reads (entry_get k prog table (run k prog table more) d) s'' ∙ rw again (cc))
