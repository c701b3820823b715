-- ===== src/Scope/Account.antt =====
-- What the cleanup list of the scope says of the providers: it holds those that made their objects.
use guicpp.Base.{
  get_elem?-set_cases, ℕ, suc, ◌<◌, ◌≡◌, sym, ap, subst, ◌∙◌, List, true, false, some, get_elem?,
  set, length, length-set, get_elem?-set, get_elem?-set_other, inl, inr, arith, ℕ_discrete,
  get_elem?-below, get_elem?-inside,
}
use guicpp.Values.{null}
use guicpp.Scope.State.{ScopeSetupContext, LazyProvider}

-- A place of the list in use that holds the provider.
abbrev pub IsListed : ScopeSetupContext → ℕ → Type 0
IsListed c i = (j : ℕ) × (j < c.cleanup_list_size) × (get_elem? c.cleanup_list j ≡ some (some i))

-- Each place in use holds a provider, each called provider has a place, and the others no object.
pub record IsAccounted (c : ScopeSetupContext) (ps : List LazyProvider) : Type 0 where
  pub written :
      (j : ℕ)
      → j < c.cleanup_list_size
      → (i : ℕ) × (get_elem? c.cleanup_list j ≡ some (some i)) × (i < length ps)
  pub kept : (i : ℕ) (p : LazyProvider) → get_elem? ps i ≡ some p → p.called ≡ true → IsListed c i
  pub unmade :
      (i : ℕ) (p : LazyProvider) → get_elem? ps i ≡ some p → p.called ≡ false → p.object ≡ null

-- A provider is put back with its flag, and its object if it is not called.
pub IsAccounted-put_back :
    (c : ScopeSetupContext) (ps : List LazyProvider) (i : ℕ) (p q : LazyProvider)
    → get_elem? ps i ≡ some p
    → q.called ≡ p.called
    → q.object ≡ p.object
    → IsAccounted c ps
    → IsAccounted c (set ps i q)
IsAccounted-put_back c ps i p q here flag object h = record {
  written = λ j below.
      let (n, at, inside) = h.written j below in (n, at, omega (arith, inside, length-set ps i q));
  kept = λ j r at called. elim (get_elem?-set_cases ps i j p q r here at) [
    | inl (same, is_q) ↦
        subst (IsListed c) (sym same)
          (h.kept i p here (sym flag ∙ (ap (λ (x : LazyProvider). x.called) is_q ∙ called)))
    | inr (other, before) ↦ h.kept j r before called
  ];
  unmade = λ j r at called. elim (get_elem?-set_cases ps i j p q r here at) [
    | inl (same, is_q) ↦
        ap (λ (x : LazyProvider). x.object) (sym is_q)
        ∙ object
        ∙ h.unmade i p here (sym flag ∙ (ap (λ (x : LazyProvider). x.called) is_q ∙ called))
    | inr (other, before) ↦ h.unmade j r before called
  ];
}

-- A provider that was not called is put back called, and listed in the next place.
pub IsAccounted-made :
    (c : ScopeSetupContext) (ps : List LazyProvider) (i : ℕ) (p r : LazyProvider)
    → get_elem? ps i ≡ some p
    → r.called ≡ true
    → c.cleanup_list_size < length c.cleanup_list
    → IsAccounted c ps
    → IsAccounted
        (record c {
          cleanup_list = set c.cleanup_list c.cleanup_list_size (some i);
          cleanup_list_size = suc c.cleanup_list_size;
          locked = false;
        })
        (set ps i r)
IsAccounted-made c ps i p r here called room h =
    let (x, free) = get_elem?-below c.cleanup_list c.cleanup_list_size room in
    let new = get_elem?-set c.cleanup_list c.cleanup_list_size x (some i) free in
    let stay = λ (j : ℕ) (below : j < c.cleanup_list_size).
      get_elem?-set_other c.cleanup_list j c.cleanup_list_size (some i)
        λ e. omega (arith, below, e) in
    record {
      written = λ j below. elim (ℕ_discrete j c.cleanup_list_size) [
        | yes e ↦ (
          i,
          subst (λ n. get_elem? (set c.cleanup_list c.cleanup_list_size (some i)) n ≡ some (some i))
              (sym e) new,
          omega (arith, get_elem?-inside ps i p here, length-set ps i r),
        )
        | no n ↦
            let less : j < c.cleanup_list_size = omega (arith, below, n) in
            let (m, at, inside) = h.written j less in
            (m, stay j less ∙ at, omega (arith, inside, length-set ps i r))
      ];
      kept = λ j q at flag. elim (get_elem?-set_cases ps i j p r q here at) [
        | inl (same, is_r) ↦ (
          c.cleanup_list_size,
          omega arith,
          subst
              (λ n.
                get_elem? (set c.cleanup_list c.cleanup_list_size (some i)) c.cleanup_list_size
                ≡ some (some n))
              (sym same) new,
        )
        | inr (other, before) ↦
            let (m, below, place) = h.kept j q before flag in
            (m, omega (arith, below), stay m below ∙ place)
      ];
      unmade = λ j q at flag. elim (get_elem?-set_cases ps i j p r q here at) [
        | inl (same, is_r) ↦ cc (is_r, called, flag)
        | inr (other, before) ↦ h.unmade j q before flag
      ];
    }
