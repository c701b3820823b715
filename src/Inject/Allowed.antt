-- ===== src/Inject/Allowed.antt =====
-- The parts of a request that have no state of their own are never undefined and do not recur.
use guicpp.Base.{refl, arith, ◌≢◌}
use guicpp.CType.{CType}
use guicpp.Annotations.{Annotations}
use guicpp.Entries.{Entry, bound_type}
use guicpp.Outcome.{Outcome, ok, fatal, undefined, ill_formed, out_of_fuel}
use guicpp.Outcome.Holds.{Allowed}
use guicpp.Inject.Parameters.{Program}
use guicpp.Inject.Ids.{normal_id, assisted_id, handler_of}
use guicpp.Inject.{default_entry}

module _ (U F : Type 0) where
  pub Allowed-of : {A : Type 0} (o : Outcome A) → o ≢ undefined → o ≢ out_of_fuel → Allowed U F o
  Allowed-of (ok a) h g = tt
  Allowed-of (fatal e) h g = tt
  Allowed-of undefined h g = absurd (h refl)
  Allowed-of ill_formed h g = tt
  Allowed-of out_of_fuel h g = absurd (g refl)

  pub bound_type-Allowed : (e : Entry) → Allowed U F (bound_type e)
  unfolding bound_type
  bound_type-Allowed e = Allowed-of (bound_type e) (ground arith) (ground arith)

  pub normal_id-Allowed : (xs : Annotations) (t : CType) → Allowed U F (normal_id xs t)
  unfolding normal_id
  normal_id-Allowed xs t = Allowed-of (normal_id xs t) (ground arith) (ground arith)

  pub assisted_id-Allowed : (xs : Annotations) (t : CType) → Allowed U F (assisted_id xs t)
  unfolding assisted_id
  assisted_id-Allowed xs t = Allowed-of (assisted_id xs t) (ground arith) (ground arith)

  pub default_entry-Allowed : (prog : Program) (t : CType) → Allowed U F (default_entry prog t)
  unfolding default_entry
  default_entry-Allowed prog t = Allowed-of (default_entry prog t) (ground arith) (ground arith)

  pub handler-Allowed : (xs : Annotations) (t : CType) → Allowed U F (handler_of xs t)
  unfolding handler_of
  handler-Allowed xs t = Allowed-of (handler_of xs t) (ground arith) (ground arith)
