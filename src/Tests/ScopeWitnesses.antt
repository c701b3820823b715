-- ===== src/Tests/ScopeWitnesses.antt =====
-- The scope's invariant at a concrete injector with one lazy singleton.
use guicpp.Base.{
  get_elem?, zero, suc, Option, none, false, ◌≢◌, ℕ, ◌<◌, ℕ_discrete, ◌≡◌, refl, sym, ap, ◌∙◌,
  subst, [], ◌∷◌, true, some, All, length, Bool-cases, inl, inr, arith, same, same-eq, same_refl,
  if◌then◌else◌,
}
use guicpp.CType.{CType, CType-discrete, ptr, plain, named, ref}
use guicpp.CType.Info.{type_specifier}
use guicpp.Annotations
use guicpp.Annotations.{
  Annotations, Annotated, annotations, actual_type, at, label, un_scoped, empty_annotations,
}
use guicpp.Entries.{TypeId, TypeId-discrete, Entry, bind_to_function}
use guicpp.Outcome.{Outcome, ok}
use guicpp.Outcome.Holds.{Holds}
use guicpp.Table
use guicpp.Table.{BindTable, find}
use guicpp.LocalContext.{empty_context}
use guicpp.Scope.State.{member, LazyProvider}
use guicpp.Values.{null}
use guicpp.Scope.SetUp.{IsSetUp, count_called}
use guicpp.Inject.Parameters.{Program, inject_ctor}
use guicpp.Inject.Ids.{normal_id, label_of}
use guicpp.Inject.{default_entry}
use guicpp.Inject.Requests.{requests, entry_requests, IsRanked}
use guicpp.Inject.Run.{run}
use guicpp.Inject.SetUp.{HasProvider, HasPointee, run-IsSetUp}
use guicpp.Inject.Stays.{IsDefined}
use guicpp.Tests.Sample.{sample, gcc, class_type, class_id}
use guicpp.Tests.SingletonWitnesses.{class_3_entry, singleton_table, before_use}

-- Every class has a constructor without arguments.
abbrev pub lone : Program
lone = record sample { default_entry = λ n. inject_ctor [] }

abbrev pub id_rank : Outcome TypeId → ℕ
id_rank (ok tid) = if same TypeId-discrete (class_id 3) tid then 1 else 0
id_rank _ = 0

-- The request for class 3 stands above the request that its singleton makes.
abbrev pub rank : Annotations → CType → ℕ
rank xs t = id_rank (normal_id xs t)

one_found :
    (tid : TypeId) (e : Entry)
    → Table.find_entry tid singleton_table ≡ some e
    → (class_id 3 ≡ tid) × (class_3_entry ≡ e)
unfolding Table.find_entry find
one_found tid e h = elim (Bool-cases (same TypeId-discrete (class_id 3) tid)) [
  | inl q ↦
      let found : class_3_entry ≡ e = ground (arith, q, h) in
      (same-eq TypeId-discrete (class_id 3) tid q, found)
  | inr q ↦ absurd (ground (arith, q, h))
]

pub own_rank_zero : All (λ d. rank d.0 d.1 < 1) (entry_requests lone class_3_entry)
unfolding entry_requests requests annotations actual_type normal_id label_of type_specifier
    TypeId-discrete CType-discrete ℕ_discrete Annotations.entries
own_rank_zero = omega arith

bound_falls :
    (xs : Annotations) (t : CType) (tid : TypeId) (e : Entry)
    → normal_id xs t ≡ ok tid
    → Table.find_entry tid singleton_table ≡ some e
    → All (λ d. rank d.0 d.1 < rank xs t) (entry_requests lone e)
bound_falls xs t tid e n f =
    let (q, r) = one_found tid e f in
    let one : rank xs t ≡ 1 =
      ap id_rank n
      ∙ ap (λ i. id_rank (ok i)) (sym q)
      ∙ rw (same_refl TypeId-discrete (class_id 3)) refl in
    subst (λ x. All (λ d. rank d.0 d.1 < rank xs t) (entry_requests lone x)) r
      (subst (λ m. All (λ d. rank d.0 d.1 < m) (entry_requests lone class_3_entry)) (sym one)
        own_rank_zero)

pub default_falls :
    (u : CType) (m : ℕ) (e : Entry)
    → default_entry lone u ≡ ok e
    → All (λ d. rank d.0 d.1 < m) (entry_requests lone e)
unfolding default_entry entry_requests requests
default_falls (named q n) m e h =
    let made : bind_to_function (named q n) [] ≡ e = cc (h) in
    subst (λ x. All (λ d. rank d.0 d.1 < m) (entry_requests lone x)) made tt
default_falls (ptr q t) m e h = cc
default_falls (ref t) m e h = cc

lone-IsRanked : IsRanked lone singleton_table rank
unfolding bound_falls default_falls
lone-IsRanked = record {
  bound = bound_falls;
  default = λ xs t tid e n f d. default_falls (type_specifier t) (rank xs t) e d;
}

pub gcc-IsDefined : IsDefined ⊥ gcc
gcc-IsDefined = record { has_rtti = inl refl; flows = λ v. inl (v, refl) }

one_singleton :
    (tid : TypeId) (e : Entry)
    → Table.find_entry tid singleton_table ≡ some e
    → HasProvider 1 (λ i. class_type 3) e
one_singleton tid e f =
    subst (HasProvider 1 (λ i. class_type 3)) (one_found tid e f).1 (omega arith, refl)

listed_zero : (i : ℕ) → i < 1 → member i (0 ∷ []) ≡ true
unfolding member
listed_zero i h = ground (arith, h)

only_provider :
    (i : ℕ) (p : LazyProvider)
    → get_elem? before_use.providers i ≡ some p
    → (p.called ≡ false) × (p.object ≡ null)
only_provider zero p e = (
  ap (λ (o : Option LazyProvider). elim o [ none ↦ false | some q ↦ q.called ]) (sym e),
  ap (λ (o : Option LazyProvider). elim o [ none ↦ null | some q ↦ q.object ]) (sym e),
)
only_provider (suc i) p e = cc (e)

uncalled : (i : ℕ) (p : LazyProvider) → get_elem? before_use.providers i ≡ some p → p.called ≢ true
uncalled i p e called = cc ((only_provider i p e).0, called)

unmade_zero :
    (i : ℕ) (p : LazyProvider)
    → get_elem? before_use.providers i ≡ some p
    → p.called ≡ false
    → p.object ≡ null
unmade_zero i p e flag = (only_provider i p e).1

before_use-IsSetUp : IsSetUp before_use
unfolding count_called listed_zero
before_use-IsSetUp = record {
  context = _;
  has_context = refl;
  injected = refl;
  unlocked = refl;
  listed = listed_zero;
  room = refl;
  size = refl;
  ready = ((refl, refl), tt);
  accounted = record {
    written = λ j below. absurd (omega (arith, below));
    kept = λ i p e called. absurd (uncalled i p e called);
    unmade = unmade_zero;
  };
}

one_pointee :
    (tid : TypeId) (e : Entry) → Table.find_entry tid singleton_table ≡ some e → HasPointee e
one_pointee tid e f = subst HasPointee (one_found tid e f).1 tt

run-IsSetUp_example :
    Holds
      (λ u. IsSetUp u × (length u.providers ≡ 1))
      (run gcc lone singleton_table 5 empty_annotations
        (ptr plain (class_type 3))
        empty_context
        before_use)
unfolding empty_context
run-IsSetUp_example =
    run-IsSetUp gcc gcc-IsDefined lone singleton_table rank lone-IsRanked 1 (λ i. class_type 3)
      one_singleton one_pointee 5 empty_annotations (ptr plain (class_type 3)) empty_context
      before_use (tt, inl refl) before_use-IsSetUp refl
