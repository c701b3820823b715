-- ===== src/Binder/Registers.antt =====
-- What a module's Configure does to the scope: each lazy singleton that it binds makes one provider,
-- which the context lists and one entry of the table owns.

use guicpp.Base.{
  All-append, ℕ, zero, suc, ◌<◌, ◌≤◌, ◌≡◌, refl, ap, subst, ◌∙◌, List, [], ◌∷◌, ◌++◌, some, Bool,
  true, false, ◌||◌, All, length, length-append, get_elem?, arith, Option-cases, inl, inr,
}
use guicpp.CType.{ptr, plain, CType}
use guicpp.Annotations.{Annotations}
use guicpp.Values.{CleanupCall, CleanupAction, lazy_singleton, user_provider, delete_pointer}
use guicpp.Entries.{
  TypeId, Entry, cleanup_entry, pointer_table_entry, bind_to_type_entry, value_table_entry,
  reference_table_entry, bind_to_provider_entry, bind_to_function, factory_argument_entry,
  invalid_entry,
}
use guicpp.Outcome.{Outcome, ok, fatal, undefined, ill_formed, out_of_fuel, lift, ◌>>=◌}
use guicpp.Outcome.Keeps.{Post, Keeps, IsPreorder}
use guicpp.Table
use guicpp.Table.{deletions, BindTable, add_entry, insert, find}
use guicpp.Table.Laws.{add_entry_lem, deletions-add_to_cleanup_list}
use guicpp.Scope.{add_to_init_list}
use guicpp.Scope.State.{Store, ScopeSetupContext, member, put_context}
use guicpp.Scope.Init.{fresh}
use guicpp.Scope.Steps.{get_context_lem}
use guicpp.Inject.Ids.{get_bind_id}
use guicpp.Binder.{
  Binder, add_bind_entry, bind_entry, add_cleanup_action, on_store, new_provider, configure, Module,
}
use guicpp.Binder.Keeps.{IsFrame, lazies, IsPlain, configure-Keeps, any_module}

-- The numbers below, in order.
abbrev pub upto : ℕ → List ℕ
upto zero = []
upto (suc n) = upto n ++ n ∷ []

-- The numbers below, the greatest first.
abbrev pub downto : ℕ → List ℕ
downto zero = []
downto (suc n) = n ∷ downto n

pub length-upto : (n : ℕ) → length (upto n) ≡ n
length-upto zero = refl
length-upto (suc n) = length-append (upto n) (n ∷ []) ∙ omega (arith, length-upto n)

member-append : (i : ℕ) (xs ys : List ℕ) → member i (xs ++ ys) ≡ (member i xs || member i ys)
unfolding member
member-append i [] ys = refl
member-append i (x ∷ xs) ys = ground (arith, member-append i xs ys)

pub member-upto : (n i : ℕ) → i < n → member i (upto n) ≡ true
unfolding member
member-upto zero i h = absurd (omega (arith, h))
member-upto (suc n) i h =
    rw (member-append i (upto n) (n ∷ [])) (ground (arith, member-upto n i, h))

pub member-upto_above : (n i : ℕ) → n ≤ i → member i (upto n) ≡ false
unfolding member
member-upto_above zero i h = refl
member-upto_above (suc n) i h =
    rw (member-append i (upto n) (n ∷ [])) (ground (arith, member-upto_above n i, h))

-- The entry's singleton, if it has one, is of the type that was bound.
abbrev pub HasType : List CType → Entry → Type 0
HasType types (bind_to_provider_entry t (lazy_singleton i u) a) = get_elem? types i ≡ some u
HasType types _ = Unit

pub record IsConfigured (b : Binder) : Type 0 where
  pub context : ScopeSetupContext
  pub has_context : b.store.context ≡ some context
  pub unlocked : context.locked ≡ false
  pub size : context.cleanup_list_size ≡ 0
  pub listed : context.init_list ≡ upto (length b.store.providers)
  pub are_fresh : All (λ p. p ≡ fresh) b.store.providers
  pub types : List CType
  pub typed : length types ≡ length b.store.providers
  pub bound : All (λ p. HasType types p.1) b.table.bind_map
  pub owned : lazies (deletions b.table) ≡ downto (length b.store.providers)

pub lazies-append : (xs ys : List Entry) → lazies (xs ++ ys) ≡ lazies xs ++ lazies ys
unfolding lazies
lazies-append [] ys = refl
lazies-append (e ∷ xs) ys = go e (lazies-append xs ys)
  where
    go :
        (e : Entry)
        → lazies (xs ++ ys) ≡ lazies xs ++ lazies ys
        → lazies (e ∷ (xs ++ ys)) ≡ lazies (e ∷ xs) ++ lazies ys
    go (bind_to_provider_entry t (lazy_singleton i u) a) h = ap (λ r. i ∷ r) h
    go (bind_to_provider_entry t (user_provider n) a) h = h
    go (bind_to_type_entry t xs d) h = h
    go (pointer_table_entry t p a) h = h
    go (value_table_entry t v) h = h
    go (reference_table_entry t p a) h = h
    go (bind_to_function t xs) h = h
    go (factory_argument_entry t v) h = h
    go invalid_entry h = h
    go (cleanup_entry c) h = h

-- A binding of one entry binds no more than that entry.
pub insert-All :
    (P : Entry → Type 0) (i : TypeId) (e : Entry) (m : List (TypeId × Entry))
    → P e
    → All (λ p. P p.1) m
    → All (λ p. P p.1) (insert i e m).0
unfolding insert
insert-All P i e m new old = elim (Option-cases (find i m)) [
  | inl free ↦ rw (free, insert) (All-append (λ p. P p.1) m ((i, e) ∷ []) old (new, tt))
  | inr (x, taken) ↦ rw (taken, insert) old
]

-- Configure keeps the invariant, where it returns.
abbrev pub Registers : Binder → Binder → Type 0
Registers b b' = IsConfigured b → IsConfigured b'

pub Registers-IsPreorder : IsPreorder Registers
Registers-IsPreorder = record { reflexive = λ s h. h; transitive = λ s t u f g h. g (f h) }

IsPlain-HasType : (types : List CType) (e : Entry) → IsPlain e → HasType types e
unfolding lazies
IsPlain-HasType types (bind_to_provider_entry t (lazy_singleton i u) a) h = cc
IsPlain-HasType types (bind_to_provider_entry t (user_provider n) a) h = tt
IsPlain-HasType types (bind_to_type_entry t xs d) h = tt
IsPlain-HasType types (pointer_table_entry t p a) h = tt
IsPlain-HasType types (value_table_entry t v) h = tt
IsPlain-HasType types (reference_table_entry t p a) h = tt
IsPlain-HasType types (bind_to_function t xs) h = tt
IsPlain-HasType types (factory_argument_entry t v) h = tt
IsPlain-HasType types invalid_entry h = tt
IsPlain-HasType types (cleanup_entry c) h = tt

owned_plain : (es : List Entry) (e : Entry) → IsPlain e → lazies (e ∷ es) ≡ lazies es
owned_plain es e p = lazies-append (e ∷ []) es ∙ ap (λ r. r ++ lazies es) p

add_bind_entry-Registers :
    (tid : TypeId) (e : Entry) → IsPlain e → Keeps Registers (add_bind_entry tid e)
add_bind_entry-Registers tid e p s =
    unfold add_bind_entry Table.add_entry Table.add_to_cleanup_list in
    λ h. record {
      context = h.context;
      has_context = h.has_context;
      unlocked = h.unlocked;
      size = h.size;
      listed = h.listed;
      are_fresh = h.are_fresh;
      types = h.types;
      typed = h.typed;
      bound =
          insert-All (HasType h.types) tid e s.table.bind_map (IsPlain-HasType h.types e p) h.bound;
      owned =
          ap lazies (add_entry_lem tid e s.table).1 ∙ owned_plain (deletions s.table) e p ∙ h.owned;
    }

add_cleanup_action-Registers : (c : CleanupCall) → Keeps Registers (add_cleanup_action c)
add_cleanup_action-Registers c s =
    unfold add_cleanup_action Table.add_to_cleanup_list in
    λ h. record {
      context = h.context;
      has_context = h.has_context;
      unlocked = h.unlocked;
      size = h.size;
      listed = h.listed;
      are_fresh = h.are_fresh;
      types = h.types;
      typed = h.typed;
      bound = h.bound;
      owned =
          ap lazies (deletions-add_to_cleanup_list (cleanup_entry c) s.table)
          ∙ owned_plain (deletions s.table) (cleanup_entry c) (unfold lazies in refl)
          ∙ h.owned;
    }

-- The store after the provider was made.
abbrev with_provider : Store → ScopeSetupContext → Store
with_provider s c = record s {
  providers = s.providers ++ fresh ∷ [];
  context = some (record c { init_list = c.init_list ++ length s.providers ∷ [] });
}

new_provider_lem :
    (s : Store) (c : ScopeSetupContext)
    → s.context ≡ some c
    → c.init_list ≡ upto (length s.providers)
    → new_provider s ≡ ok (length s.providers, with_provider s c)
unfolding new_provider add_to_init_list fresh put_context
new_provider_lem s c e listed =
    let free : member (length s.providers) c.init_list ≡ false =
      rw listed (member-upto_above (length s.providers) (length s.providers) (omega arith)) in
    rw (get_context_lem (record s { providers = s.providers ++ fresh ∷ [] }) c e) (rw free refl)

-- A hypothesis on the state before may be used throughout.
Post-assume :
    {S A : Type 0} (H : Type 0) (P : S → Type 0) (o : Outcome (A × S))
    → (H → Post P o)
    → Post (λ s. H → P s) o
Post-assume H P (ok r) f = f
Post-assume H P (fatal e) f = tt
Post-assume H P undefined f = tt
Post-assume H P ill_formed f = tt
Post-assume H P out_of_fuel f = tt

get_elem?-append {ℓ} :
    {A : Type ℓ} (xs ys : List A) (i : ℕ) (x : A)
    → get_elem? xs i ≡ some x
    → get_elem? (xs ++ ys) i ≡ some x
get_elem?-append [] ys i x h = cc
get_elem?-append (y ∷ xs) ys zero x h = h
get_elem?-append (y ∷ xs) ys (suc i) x h = get_elem?-append xs ys i x h

get_elem?-append_end {ℓ} :
    {A : Type ℓ} (xs : List A) (x : A) → get_elem? (xs ++ x ∷ []) (length xs) ≡ some x
get_elem?-append_end [] x = refl
get_elem?-append_end (y ∷ xs) x = get_elem?-append_end xs x

-- One more type keeps the types that an entry has.
HasType-append :
    (types : List CType) (u : CType) (e : Entry) → HasType types e → HasType (types ++ u ∷ []) e
HasType-append types u (bind_to_provider_entry t (lazy_singleton i v) a) h =
    get_elem?-append types (u ∷ []) i v h
HasType-append types u (bind_to_provider_entry t (user_provider n) a) h = tt
HasType-append types u (bind_to_type_entry t xs d) h = tt
HasType-append types u (pointer_table_entry t p a) h = tt
HasType-append types u (value_table_entry t v) h = tt
HasType-append types u (reference_table_entry t p a) h = tt
HasType-append types u (bind_to_function t xs) h = tt
HasType-append types u (factory_argument_entry t v) h = tt
HasType-append types u invalid_entry h = tt
HasType-append types u (cleanup_entry c) h = tt

All-HasType-append :
    (types : List CType) (u : CType) (m : List (TypeId × Entry))
    → All (λ p. HasType types p.1) m
    → All (λ p. HasType (types ++ u ∷ []) p.1) m
All-HasType-append types u [] h = tt
All-HasType-append types u (p ∷ m) h =
    (HasType-append types u p.1 h.0, All-HasType-append types u m h.1)

-- The provider was made, and its entry is added.
add_lazy-IsConfigured :
    (tid : TypeId) (t u : CType) (a : CleanupAction) (s : Binder) (h : IsConfigured s)
    → Post IsConfigured (
        add_bind_entry tid
          (bind_to_provider_entry t (lazy_singleton (length s.store.providers) u) a)
          (record s { store = with_provider s.store h.context }))
unfolding add_bind_entry Table.add_entry Table.add_to_cleanup_list lazies
add_lazy-IsConfigured tid t u a s h =
    let n = length s.store.providers in
    let e = bind_to_provider_entry t (lazy_singleton n u) a in
    let one : length (s.store.providers ++ fresh ∷ []) ≡ suc n =
      length-append s.store.providers (fresh ∷ []) ∙ omega arith in
    record {
      context = record h.context { init_list = h.context.init_list ++ n ∷ [] };
      has_context = refl;
      unlocked = h.unlocked;
      size = h.size;
      listed = rw one (ap (λ r. r ++ n ∷ []) h.listed);
      are_fresh = All-append (λ p. p ≡ fresh) s.store.providers (fresh ∷ []) h.are_fresh (refl, tt);
      types = h.types ++ u ∷ [];
      typed = length-append h.types (u ∷ []) ∙ omega (arith, h.typed, one);
      bound =
          insert-All (HasType (h.types ++ u ∷ [])) tid e s.table.bind_map
            (subst (λ i. get_elem? (h.types ++ u ∷ []) i ≡ some u) h.typed
              (get_elem?-append_end h.types u))
            (All-HasType-append h.types u s.table.bind_map h.bound);
      owned = rw one (ap lazies (add_entry_lem tid e s.table).1 ∙ ap (λ r. n ∷ r) h.owned);
    }

bind_lazy-Registers :
    (xs : Annotations) (t u : CType) (a : CleanupAction)
    → Keeps Registers (
        on_store new_provider >>= λ i.
        bind_entry xs t (bind_to_provider_entry t (lazy_singleton i u) a))
bind_lazy-Registers xs t u a s =
    Post-assume (IsConfigured s) IsConfigured _
      λ h. rw (new_provider_lem s.store h.context h.has_context h.listed) (by h (get_bind_id xs t))
  where
    by :
        (h : IsConfigured s) (o : Outcome TypeId)
        → Post IsConfigured (
            (lift o >>= λ tid.
            add_bind_entry tid
              (bind_to_provider_entry t (lazy_singleton (length s.store.providers) u) a))
              (record s { store = with_provider s.store h.context }))
    by h (ok tid) = add_lazy-IsConfigured tid t u a s h
    by h (fatal e) = tt
    by h undefined = tt
    by h ill_formed = tt
    by h out_of_fuel = tt

Registers-IsFrame : IsFrame (λ _. Unit) Registers
Registers-IsFrame = record {
  preorder = Registers-IsPreorder;
  adds = λ e p h tid. add_bind_entry-Registers tid e p;
  cleans = λ c h. add_cleanup_action-Registers c;
  makes = λ xs t u. bind_lazy-Registers xs (ptr plain t) u delete_pointer;
}

pub configure-Registers : (rtti : Bool) (m : Module) → Keeps Registers (configure rtti m)
configure-Registers rtti m = configure-Keeps Registers-IsFrame rtti m (any_module m)
