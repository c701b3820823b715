-- ===== src/CType/Info.antt =====
-- TypesCategory and TypeInfo of include/guicpp/internal/guicpp_types.h.
pub mod Laws
use guicpp.Base.{Bool, if◌then◌else◌}
use guicpp.CType.{
  CType, ptr, plain, is_pointer, is_reference, remove_pointer, remove_reference, remove_cv,
  add_const, is_same,
}

-- TypesCategory::Enum
pub data Category : Type 0 where
  is_pointer_category is_reference_category is_value_category : Category

-- TypeInfo<T>::Category
unfoldable pub category : CType → Category
unfolding is_pointer is_reference
category t =
    if is_pointer t
    then is_pointer_category
    else if is_reference t
    then is_reference_category
    else is_value_category

-- TypeInfo<T>::ReferredType
unfoldable pub referred_type : CType → CType
unfolding is_pointer is_reference remove_pointer remove_reference
referred_type t =
    if is_pointer t then remove_pointer t else if is_reference t then remove_reference t else t

-- TypeInfo<T>::IsConst: is_same<ReferredType*, const ReferredType*>
unfoldable pub is_const : CType → Bool
unfolding is_same referred_type add_const
is_const t = is_same (ptr plain (referred_type t)) (ptr plain (add_const (referred_type t)))

-- TypeInfo<T>::TypeSpecifier
unfoldable pub type_specifier : CType → CType
unfolding referred_type remove_cv
type_specifier t = remove_cv (referred_type t)
