-- ===== src/Tests/LifecycleWitnesses.antt =====
-- An injector with one lazy singleton, from CreateInjector to its destructor; and what goes wrong with an
-- object that is bound to be deleted twice, and with a reference to NULL.
use guicpp.Base.{
  ℕ, ◌<◌, ℕ_discrete, ◌≡◌, refl, sym, ap, ◌∙◌, subst, [], ◌∷◌, true, some, All, length, Bool-cases,
  inl, inr, ◌⊎◌, arith, same, same-eq, same_refl,
}
use guicpp.CType.{CType, CType-discrete, plain, named, scope_setup_context}
use guicpp.Annotations
use guicpp.Annotations.{
  actual_type, Annotations, normal_inject, not_labelled, empty_annotations, at, label, user_label,
  not_annotated,
}
use guicpp.Values.{invoke_cleanup, user_object, null, delete_pointer, do_nothing, Pointer-discrete}
use guicpp.Entries.{TypeId, TypeId-discrete, BindType-discrete, Entry, label_helper, cleanup_entry}
use guicpp.Outcome.{ok, undefined, and_then}
use guicpp.Table
use guicpp.Table.{BindTable, find}
use guicpp.LocalContext.{empty_context}
use guicpp.Scope.SetUp.{IsSetUp}
use guicpp.Scope.{lock, unlock}
use guicpp.Inject.Ids.{normal_id, get_bind_id}
use guicpp.Inject.Requests.{entry_requests}
use guicpp.Inject.Run.{injector_get}
use guicpp.Inject.SetUp.{HasProvider}
use guicpp.Binder.{Module, done, then_call, binds_to_scope, binds_to_instance, binds_ref_to_pointed}
use guicpp.Injector.{Injector, create_injector, delete_injector}
use guicpp.Injector.Ownership.{context_entry}
use guicpp.Injector.SetUp.{create_injector-IsSetUp}
use guicpp.Injector.Gets.{Gets}
use guicpp.Tests.Sample.{gcc, class, class_type, class_id}
use guicpp.Tests.SingletonWitnesses.{class_3_entry, before_use}
use guicpp.Tests.ScopeWitnesses.{lone, rank, id_rank, own_rank_zero}

abbrev one_singleton : Module
one_singleton = then_call (binds_to_scope (class 3)) done

abbrev context_id : TypeId
context_id = label_helper normal_inject not_labelled (named plain scope_setup_context)

abbrev injector : Injector
injector = record {
  table = record {
    bind_map = (context_id, context_entry) ∷ (class_id 3, class_3_entry) ∷ [];
    cleanup_list = context_entry ∷ class_3_entry ∷ cleanup_entry invoke_cleanup ∷ [];
  };
  store = before_use;
}

created : create_injector true one_singleton ≡ ok injector
unfolding create_injector get_bind_id Annotations.entries TypeId-discrete CType-discrete ℕ_discrete
    BindType-discrete empty_annotations
created = refl

create_injector-IsSetUp_example :
    IsSetUp injector.store
    × (types : ℕ → CType) × ((tid : TypeId) (e : Entry)
        → Table.find_entry tid injector.table ≡ some e
        → HasProvider (length injector.store.providers) types e)
create_injector-IsSetUp_example = create_injector-IsSetUp true one_singleton injector created

one_of_two :
    (tid : TypeId) (e : Entry)
    → Table.find_entry tid injector.table ≡ some e
    → (context_entry ≡ e) ⊎ ((class_id 3 ≡ tid) × (class_3_entry ≡ e))
unfolding Table.find_entry find
one_of_two tid e h = elim (Bool-cases (same TypeId-discrete context_id tid)) [
  | inl q ↦ inl (ground (arith, q, h))
  | inr q ↦ elim (Bool-cases (same TypeId-discrete (class_id 3) tid)) [
    | inl r ↦
        let found : class_3_entry ≡ e = ground (arith, q, r, h) in
        inr (same-eq TypeId-discrete (class_id 3) tid r, found)
    | inr r ↦ absurd (ground (arith, q, r, h))
  ]
]

bound_falls :
    (xs : Annotations) (t : CType) (tid : TypeId) (e : Entry)
    → normal_id xs t ≡ ok tid
    → Table.find_entry tid injector.table ≡ some e
    → All (λ d. rank d.0 d.1 < rank xs t) (entry_requests lone e)
unfolding entry_requests
bound_falls xs t tid e n f = elim (one_of_two tid e f) [
  | inl r ↦ subst (λ x. All (λ d. rank d.0 d.1 < rank xs t) (entry_requests lone x)) r tt
  | inr (q, r) ↦
      let one : rank xs t ≡ 1 =
        ap id_rank n
        ∙ ap (λ i. id_rank (ok i)) (sym q)
        ∙ rw (same_refl TypeId-discrete (class_id 3)) refl in
      subst (λ x. All (λ d. rank d.0 d.1 < rank xs t) (entry_requests lone x)) r
        (subst (λ m. All (λ d. rank d.0 d.1 < m) (entry_requests lone class_3_entry)) (sym one)
          own_rank_zero)
]

-- An object that is bound under two labels, to be deleted for each.
abbrev bound_to_delete_twice : Module
bound_to_delete_twice =
    then_call
      (binds_to_instance (at (label (user_label 1)) (class_type 1)) (user_object 5) delete_pointer)
      (then_call
        (binds_to_instance (at (label (user_label 2)) (class_type 1)) (user_object 5)
          delete_pointer)
        done)

deleted_twice : and_then (create_injector true bound_to_delete_twice) delete_injector ≡ undefined
unfolding create_injector get_bind_id Annotations.entries TypeId-discrete CType-discrete ℕ_discrete
    BindType-discrete empty_annotations delete_injector Pointer-discrete lock unlock
deleted_twice = refl

-- BindRefToPointed with NULL.
abbrev bound_to_null : Module
bound_to_null = then_call (binds_ref_to_pointed (not_annotated (class_type 1)) null do_nothing) done

null_followed :
    and_then
      (create_injector true bound_to_null)
      (λ i. injector_get gcc lone i.table 3 (not_annotated (class_type 1)) i.store)
    ≡ undefined
unfolding create_injector get_bind_id Annotations.entries TypeId-discrete CType-discrete ℕ_discrete
    BindType-discrete empty_annotations injector_get empty_context
null_followed = refl
