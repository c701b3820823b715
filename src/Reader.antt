-- ===== src/Reader.antt =====
-- TableEntryReader<T>: include/guicpp/internal/guicpp_table.h.
pub mod Laws
pub mod Keeps
pub mod Success
use guicpp.Base.{Option, none, some, Bool, true, false, not, if◌then◌else◌, same}
use guicpp.CType.{CType, ptr, ref, plain, is_same, add_const}
use guicpp.CType.Info.{
  Category, is_pointer_category, is_reference_category, is_value_category, category, is_const,
  type_specifier,
}
use guicpp.Values.{Value, pointer, reference, copied, plain as plain_value}
use guicpp.Entries.{Entry, BindType, invalid_bind, BindType-discrete, get_bind_type, bound_type}
use guicpp.Outcome.{
  Outcome, ok, fatal, undefined, missing_binding, cannot_convert, check_failed, Action, ◌>>=◌, ◌>>◌,
  check, lift, fail,
}

-- The type P of the call GetAndCast(TypeKey2<T, P>()) that the switch of Get makes, from T's type
-- specifier and the entry's category and constness.
unfoldable pub cast_source : Category → Bool → CType → CType
unfolding add_const
cast_source is_value_category c s = s
cast_source is_pointer_category true s = ptr plain (add_const s)
cast_source is_pointer_category false s = ptr plain s
cast_source is_reference_category true s = ref (add_const s)
cast_source is_reference_category false s = ref s

-- The overload of GetAndCast that is chosen for TypeKey2<T, P>: the type B of its call
-- GetBoundType<B>(), or `none` for the overload that logs the error.
unfoldable pub get_and_cast : CType → CType → Option CType
unfolding is_same type_specifier add_const
get_and_cast t p =
    let s = type_specifier t in
    if is_same t p
    then some t
    else if is_same t (ptr plain (add_const s))
    then (if is_same p (ptr plain s) then some (ptr plain s) else none)
    else if is_same t (ref (add_const s))
    then (if is_same p (ref s) then some (ref s) else none)
    else if is_same t s
    then (if is_same p (ref s)
        then some (ref s)
        else if is_same p (ref (add_const s))
        then some (ref s)
        else none)
    else none

-- The conversion of the result of GetBoundType to T: a reference that is read as a value is copied.
unfoldable pub convert : CType → Value → Value
unfolding category
convert t (reference p) = elim (category t) [ is_reference_category ↦ reference p | _ ↦ copied p ]
convert t v = v

module _ (rtti : Bool) {S : Type 0} (get : Entry → Action S Value) where
  -- GetBoundType<B>(): down_cast checks the class of the entry where GUICPP_HAS_RTTI is set; without
  -- it a wrong static_cast is undefined.
  unfoldable pub get_bound_type : CType → Entry → Action S Value
  unfolding is_same bound_type
  get_bound_type b e = lift (bound_type e) >>= λ t.
      if is_same t b then get e else if rtti then fail check_failed else lift undefined

  -- The call of the overload that was chosen, and the conversion of its result to T.
  unfoldable pub read_cast : Option CType → CType → Entry → Action S Value
  unfolding convert get_bound_type
  read_cast none t e = fail cannot_convert
  read_cast (some b) t e = get_bound_type b e >>= λ v s. ok (convert t v, s)

  -- The check of the type ids and the switch over the entry's category.
  unfoldable pub read_as : CType → CType → Entry → Action S Value
  unfolding is_same type_specifier category is_const cast_source get_and_cast read_cast
  read_as t bound e =
      check (is_same (type_specifier t) (type_specifier bound))
      >> read_cast
          (get_and_cast t (cast_source (category bound) (is_const bound) (type_specifier t))) t e

  -- TableEntryReader<T>::Get
  unfoldable pub read : CType → Entry → Action S Value
  unfolding get_bind_type bound_type read_as
  read t e =
      if same BindType-discrete (get_bind_type e) invalid_bind
      then fail missing_binding
      else lift (bound_type e) >>= λ bound. read_as t bound e
