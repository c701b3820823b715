-- ===== src/Reader/Laws.antt =====
-- What TableEntryReader<T>::Get does with an entry of each class.
use guicpp.Base.{◌≡◌, Bool, false, if◌then◌else◌, same, arith}
use guicpp.CType.{CType, named, ptr, ref, plain, const, TypeName}
use guicpp.CType.Laws.{same_name_refl}
use guicpp.Entries.{Entry, get_bind_type, bound_type, invalid_bind, BindType-discrete}
use guicpp.Outcome.{ok, fatal, undefined, cannot_convert, check_failed, Action, and_then}
use guicpp.Values.{Value}
use guicpp.Reader.{convert, read}

-- The forms in which the library uses a type X.
pub data Form : Type 0 where
  value pointer const_pointer reference const_reference : Form

unfoldable pub formed : Form → TypeName → CType
formed value n = named plain n
formed pointer n = ptr plain (named plain n)
formed const_pointer n = ptr plain (named const n)
formed reference n = ref (named plain n)
formed const_reference n = ref (named const n)

-- What a request for one form of X does with an entry bound to another.
pub data Verdict : Type 0 where
  reads dies miscasts : Verdict

unfoldable pub verdict : (requested bound : Form) → Verdict
verdict value value = reads
verdict value reference = reads
verdict value const_reference = miscasts
verdict pointer pointer = reads
verdict const_pointer pointer = reads
verdict const_pointer const_pointer = reads
verdict reference reference = reads
verdict const_reference reference = reads
verdict const_reference const_reference = reads
verdict _ _ = dies

-- Only an entry of a class TableEntry<T> has a bound type, and its bind type is never INVALID_BIND.
valid_of_bound :
    (e : Entry) (t : CType)
    → bound_type e ≡ ok t
    → same BindType-discrete (get_bind_type e) invalid_bind ≡ false
unfolding bound_type get_bind_type BindType-discrete
valid_of_bound e t h = ground arith

module _ (rtti : Bool) {S : Type 0} (get : Entry → Action S Value) where
  unfoldable pub answer : Verdict → CType → Entry → Action S Value
  answer reads t e s = and_then (get e s) λ r. ok (convert t r.0, r.1)
  answer dies t e s = fatal cannot_convert
  answer miscasts t e s = if rtti then fatal check_failed else undefined

  -- For each of the 25 pairs of a requested and a bound form of a type (value, pointer, const
  -- pointer, reference, const reference) the reader at an entry bound to the one form does what
  -- the table `verdict` says for a request for the other: it passes on what the entry returns,
  -- converted; or it aborts because there is no conversion; or, for a const reference read as a
  -- value, it fails the check of down_cast where there is RTTI, and is undefined where there is
  -- none.
  pub read_lem :
      (x y : Form) (n : TypeName) (e : Entry) (s : S)
      → bound_type e ≡ ok (formed y n)
      → read rtti get (formed x n) e s ≡ answer (verdict x y) (formed x n) e s
  unfolding read formed verdict answer
  read_lem x y n e s h = ground (arith, valid_of_bound e (formed y n) h, same_name_refl n)
