-- ===== src/Scope/Bounds.antt =====
-- A lazy singleton's Get in a scope that is set up: every access is inside its array and through a
-- pointer that is alive.
use guicpp.Base.{
  ℕ, suc, ◌<◌, ◌≡◌, refl, sym, ap, subst, set-set, ◌∙◌, Bool, true, false, some, get_elem?, set,
  length, length-set, get_elem?-set, if◌then◌else◌, arith, get_elem?-below, get_elem?-inside,
  All-set, get_elem?-All,
}
use guicpp.Values.{Pointer, the_injector, Value, pointer, reference, copied, plain}
use guicpp.Outcome.{Action, ◌>>◌, pure}
use guicpp.Outcome.Holds.{Holds, Holds->>=}
use guicpp.Scope.State.{ScopeSetupContext, LazyProvider, Store}
use guicpp.Scope.{
  prepare, finish, as_pointer, mark_called, get_object, create, once_init, provider_get,
}
use guicpp.Scope.SetUp.{
  IsReady, IsSetUp, HasFlag, IsApart, count_called-below, count_called-set_same,
  count_called-set_called,
}
use guicpp.Scope.Account.{IsAccounted, IsAccounted-put_back, IsAccounted-made}
use guicpp.Scope.Steps.{get_provider_lem, prepare_lem, finish_lem, mark_called_lem}

-- A scope that is set up, with the once flag of one of its providers.
pub record IsSetUpAt (i : ℕ) (called : Bool) (s : Store) : Type 0 where
  pub set_up : IsSetUp s
  pub flag : HasFlag i called s

-- Provider `i` is put back as `q`, with the context as `c`.
put_back :
    (i : ℕ) (s : Store) (h : IsSetUp s) (p q : LazyProvider)
    → get_elem? s.providers i ≡ some p
    → IsReady q
    → q.called ≡ p.called
    → q.object ≡ p.object
    → IsSetUp (record s { providers = set s.providers i q })
put_back i s h p q at fit e o =
    let same = length-set s.providers i q in
    record {
      context = h.context;
      has_context = h.has_context;
      injected = h.injected;
      unlocked = h.unlocked;
      listed = λ j below. h.listed j (omega (arith, below, same));
      room = h.room ∙ sym same;
      size = h.size ∙ sym (count_called-set_same s.providers i p q at e);
      ready = All-set IsReady s.providers i q h.ready fit;
      accounted = IsAccounted-put_back h.context s.providers i p q at e o h.accounted;
    }

module _ (i : ℕ) (K : Store → Type 0) (apart : IsApart i K) where
  -- The scope with the flag of the provider, and what else holds.
  abbrev With : Bool → Store → Type 0
  With called s = IsSetUpAt i called s × K s

  prepare-With : (s : Store) → With false s → Holds (With false) (prepare i s)
  prepare-With s (a, k) =
      let h = a.set_up in
      let (p, at_i, unset) = a.flag in
      let fit = get_elem?-All IsReady s.providers i p h.ready at_i in
      let q : LazyProvider = record p { injector = the_injector } in
      rw (prepare_lem i s p h.context h.has_context h.injected at_i fit) (
        record {
          set_up = put_back i s h p q at_i (fit.0, refl) refl refl;
          flag = (q, get_elem?-set s.providers i p q at_i, unset);
        },
        apart s q s.context k,
      )

  -- The end of once_, from where the object was stored.
  abbrev IsStored : Store → Type 0
  IsStored t = Holds (With true) (mark_called i t)

  store-IsStored :
      (o : Pointer) (s : Store) → With false s → Holds IsStored (finish i (pointer o) s)
  store-IsStored o s (a, k) =
      let h = a.set_up in
      let (p, at_i, unset) = a.flag in
      let fit = get_elem?-All IsReady s.providers i p h.ready at_i in
      let c = h.context in
      let inside = get_elem?-inside s.providers i p at_i in
      let free = count_called-below s.providers i p at_i unset in
      let q : LazyProvider = record p { object = o } in
      let r : LazyProvider = record q { called = true } in
      let ps = set s.providers i q in
      let filled : ScopeSetupContext = record c {
        cleanup_list = set c.cleanup_list c.cleanup_list_size (some i);
        cleanup_list_size = suc c.cleanup_list_size;
        locked = false;
      } in
      let t : Store = record s { providers = ps; context = some filled } in
      let here = get_elem?-set s.providers i p q at_i in
      let same = length-set ps i r ∙ length-set s.providers i q in
      rw
        (finish_lem i o s p c h.has_context h.unlocked (h.listed i inside)
          (omega (arith, h.size, h.room, free)) at_i fit.0)
        (rw (mark_called_lem i t q here fit.0) (
          record {
            set_up = record {
              context = filled;
              has_context = refl;
              injected = h.injected;
              unlocked = refl;
              listed = λ j below. h.listed j (omega (arith, below, same));
              room = length-set c.cleanup_list c.cleanup_list_size (some i) ∙ h.room ∙ sym same;
              size =
                  ap suc (h.size ∙ sym (count_called-set_same s.providers i p q at_i refl))
                  ∙ sym (count_called-set_called ps i q r here unset refl);
              ready = All-set IsReady ps i r (All-set IsReady s.providers i q h.ready fit) fit;
              accounted = subst (IsAccounted filled) (sym (set-set s.providers i q r)) (
                  IsAccounted-made c s.providers i p r at_i refl
                    (omega (arith, h.size, h.room, free)) h.accounted);
            };
            flag = (r, get_elem?-set ps i q r here, refl);
          },
          apart t r (some filled) (apart s q (some filled) k),
        ))

  finish-IsStored : (v : Value) (s : Store) → With false s → Holds IsStored (finish i v s)
  unfolding finish as_pointer
  finish-IsStored (pointer o) s a = store-IsStored o s a
  finish-IsStored (reference o) s a = tt
  finish-IsStored (copied o) s a = tt
  finish-IsStored (plain n) s a = tt

  get_object-With : (s : Store) → With true s → Holds (With true) (get_object i s)
  unfolding get_object
  get_object-With s (a, k) =
      let (p, at_i, set_it) = a.flag in
      let fit = get_elem?-All IsReady s.providers i p a.set_up.ready at_i in
      rw (get_provider_lem i s p at_i fit.0) (a, k)

  module _ (m : Action Store Value)
      (keeps : (t : Store) → With false t → Holds (With false) (m t)) where
    create-IsStored : (s : Store) → With false s → Holds IsStored (create m i s)
    unfolding create
    create-IsStored s a =
        Holds->>= (With false) IsStored (prepare i) _ s (prepare-With s a)
          λ _ t b. Holds->>= (With false) IsStored m (finish i) t (keeps t b) finish-IsStored

    once_init-With :
        (s : Store) (called : Bool) → With called s → Holds (With true) (once_init m i s)
    unfolding once_init
    once_init-With s called (a, k) =
        let (p, at_i, f) = a.flag in
        let fit = get_elem?-All IsReady s.providers i p a.set_up.ready at_i in
        rw (get_provider_lem i s p at_i fit.0, f) (by called (a, k))
      where
        by :
            (b : Bool)
            → With b s
            → Holds (With true) ((if b then pure tt else (create m i >> mark_called i)) s)
        by true w = w
        by false w =
            Holds->>= IsStored (With true) (create m i) (λ _. mark_called i) s (create-IsStored s w)
              λ _ t b. b

    -- In a scope that is set up, let the request that a lazy singleton makes keep the scope set up and
    -- the provider uncalled, and never be undefined. Then the provider's Get keeps the scope set up
    -- and is never undefined: it writes its cell inside the array of the cleanup list, and every
    -- pointer it follows is alive; where it returns, the provider is called.
    pub provider_get-With :
        (s : Store)
        → IsSetUp s
        → i < length s.providers
        → K s
        → Holds (With true) (provider_get m i s)
    unfolding provider_get
    provider_get-With s h inside k =
        let (p, at_i) = get_elem?-below s.providers i inside in
        Holds->>= (With true) (With true) (once_init m i) (λ _. get_object i) s
          (once_init-With s p.called (record { set_up = h; flag = (p, at_i, refl) }, k))
          λ _. get_object-With
